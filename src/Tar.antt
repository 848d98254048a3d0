-- ===== src/Tar.antt =====
-- The archive that the loader hands over as the initial disk: src/kernel/src/fs/tar.c. The memory
-- of the results, of `kmalloc`, is left out: an entry is a value, and the table of 64 pointers a
-- bound.
pub mod Size
pub mod Layout
mod Tests
use smpl_osv.Base.{
  ℕ, zero, suc, ◌+◌, ◌-◌, ◌*◌, ◌/◌, ◌%◌, ◌^◌, Bool, Option, none, some, List, [], ◌∷◌, ◌==◌,
  if◌then◌else◌, ltb,
}
use smpl_osv.Base.Bits.{u32, u64}
use smpl_osv.Libc.{Bytes, ◌>>=◌}

-- `in[j - 1] - '0'` of a signed `char`, in `uint32_t`.
abbrev pub digit : ℕ → ℕ
digit c = u32 ((c + 128) % 256 + 2 ^ 32 - 128 - 48)

-- The loop of `tar_get_size` from `j` downwards.
pub get_size_from : ℕ → ℕ → ℕ → ℕ → Bytes → ℕ
get_size_from zero count size at m = size
get_size_from (suc j) count size at m =
    get_size_from j (u32 (count * 8)) (u32 (size + digit (m (at + j)) * count)) at m

pub tar_get_size : ℕ → Bytes → ℕ
unfolding get_size_from
tar_get_size at m = get_size_from 11 1 0 at m

-- `struct tar_file`.
pub record TarFile : Type 0 where
  pub filename : List ℕ
  pub start : ℕ
  pub size : ℕ

-- The bytes that `strcpy` takes from a header: those before the first zero.
pub read_string : ℕ → ℕ → Bytes → Option (List ℕ)
read_string zero p m = none
read_string (suc fuel) p m =
    let rest = read_string fuel (p + 1) m in
    if m p == 0 then some [] else elim rest [ some cs ↦ some (m p ∷ cs) | none ↦ none ]

-- The offset of `size` in `tar_header_t`.
abbrev pub size_at : ℕ
size_at = 124

-- Where the header behind one at `addr` is expected.
abbrev pub next_header : ℕ → ℕ → ℕ
next_header addr size =
    let after = u64 (addr + u32 ((size / 512 + 1) * 512)) in
    if size % 512 == 0 then after else u64 (after + 512)

-- The loop of `tar_parse`, for as many further entries as the first number says. A 65th entry would
-- be written behind the table, and a name of more than 99 bytes behind the entry's buffer: `none`.
pub parse_from : ℕ → ℕ → Bytes → Option (List TarFile)
parse_from zero addr m = if m addr == 0 then some [] else none
parse_from (suc entries) addr m =
    let size = tar_get_size (addr + size_at) m in
    let rest = parse_from entries (next_header addr size) m in
    if m addr == 0 then some [] else do
      filename ← read_string 100 addr m
      files ← rest
      some (record { filename = filename; start = u64 (addr + 512); size = size } ∷ files)

pub tar_parse : ℕ → Bytes → Option (List TarFile)
unfolding parse_from
tar_parse addr m = parse_from 64 addr m
