-- ===== src/Tar/Layout.antt =====
-- An archive in memory, and what `tar_parse` finds in it.
use smpl_osv.Base.{
  ℕ, suc, zero, ◌+◌, ◌-◌, ◌*◌, ◌/◌, ◌%◌, ◌^◌, ◌<◌, ◌≤◌, ◌≡◌, ◌≢◌, refl, sym, ap, ◌∙◌, arith, List,
  [], ◌∷◌, some, length, ==_ne, Bool-cases, inl, inr, ◌==◌, ==_iff,
}
use smpl_osv.Base.Bits.{u64}
use smpl_osv.Libc.{Bytes}
use smpl_osv.Libc.Cstr.{IsCstr}
use smpl_osv.Tar.Size.{IsOctal, tar_get_size-IsOctal}
use smpl_osv.Tar.{TarFile, read_string, size_at, next_header, parse_from, tar_parse, tar_get_size}

-- The blocks of 512 bytes that the contents take.
abbrev pub blocks : ℕ → ℕ
blocks size = (size + 511) / 512

-- A header with a name of at most 99 bytes, the size in octal digits, below the last block under
-- 4 GiB as `tar_parse` counts in 32 bits, then the contents in whole
-- blocks, then the next header; the first empty name ends the archive.
abbrev pub IsArchive : Bytes → ℕ → List TarFile → Type 0
IsArchive m addr [] = m addr ≡ 0
IsArchive m addr (f ∷ fs) =
    IsCstr m addr f.filename
    × ((f.filename ≢ []) × (length f.filename ≤ 99))
    × ((f.size < 2 ^ 32 - 512) × IsOctal m (addr + size_at) f.size)
    × ((f.start ≡ addr + 512) × (addr + 512 + blocks f.size * 512 < 2 ^ 64))
    × IsArchive m (addr + 512 + blocks f.size * 512) fs

read_string-IsCstr :
    (fuel p : ℕ) (xs : List ℕ) (m : Bytes)
    → length xs < fuel
    → IsCstr m p xs
    → read_string fuel p m ≡ some xs
unfolding read_string
read_string-IsCstr zero p xs m l s = ground arith
read_string-IsCstr (suc fuel) p [] m l s = rw s refl
read_string-IsCstr (suc fuel) p (x ∷ xs) m l (here, ne, rest) =
    rw
      (
        ap (λ c. c == 0) here ∙ ==_ne x 0 ne,
        read_string-IsCstr fuel (p + 1) xs m (omega arith) rest,
      )
      (ap (λ c. some (c ∷ xs)) here)

next_header-blocks :
    (addr size : ℕ)
    → size < 2 ^ 32 - 512
    → addr + 512 + blocks size * 512 < 2 ^ 64
    → next_header addr size ≡ addr + 512 + blocks size * 512
next_header-blocks addr size small w = elim (Bool-cases (size % 512 == 0)) [
  | inl e ↦ rw e (omega (arith, (==_iff (size % 512) 0).0 e))
  | inr e ↦ let ne : size % 512 ≢ 0 = ground arith in rw e (omega arith)
]

first_byte : (m : Bytes) (addr : ℕ) (xs : List ℕ) → IsCstr m addr xs → xs ≢ [] → m addr ≢ 0
first_byte m addr [] s ne = absurd (ne refl)
first_byte m addr (x ∷ xs) (here, nz, rest) ne = λ e. nz (sym here ∙ e)

parse_from-entry :
    (entries addr size : ℕ) (name : List ℕ) (files : List TarFile) (m : Bytes)
    → m addr ≢ 0
    → tar_get_size (addr + size_at) m ≡ size
    → read_string 100 addr m ≡ some name
    → parse_from entries (next_header addr size) m ≡ some files
    → parse_from (suc entries) addr m
      ≡ some (record { filename = name; start = u64 (addr + 512); size = size } ∷ files)
unfolding parse_from
parse_from-entry entries addr size name files m ne sized read more =
    rw (==_ne (m addr) 0 ne, sized, read, more) refl

parse_from-IsArchive :
    (entries addr : ℕ) (files : List TarFile) (m : Bytes)
    → length files ≤ entries
    → IsArchive m addr files
    → parse_from entries addr m ≡ some files
unfolding parse_from
parse_from-IsArchive zero addr [] m l a = rw a refl
parse_from-IsArchive (suc entries) addr [] m l a = rw a refl
parse_from-IsArchive zero addr (f ∷ fs) m l a = ground arith
parse_from-IsArchive (suc entries) addr (f ∷ fs) m l
      (name, (full, short), (small, octal), (start, w), rest) =
    let size = tar_get_size-IsOctal m (addr + size_at) f.size (omega arith) octal in
    let next = next_header-blocks addr f.size small w in
    let more =
      parse_from-IsArchive entries (addr + 512 + blocks f.size * 512) fs m (omega arith) rest in
    let read = read_string-IsCstr 100 addr f.filename m (omega arith) name in
    let place : u64 (addr + 512) ≡ f.start = omega (arith, start) in
    parse_from-entry entries addr f.size f.filename fs m (first_byte m addr f.filename name full)
      size read (ap (λ a. parse_from entries a m) next ∙ more)
    ∙ ap (λ s. some (record { filename = f.filename; start = s; size = f.size } ∷ fs)) place

-- From an archive in memory of at most 64 files, each smaller than 4 GiB less a block, `tar_parse`
-- returns these files in their order, each with its name, its size and the address of its contents.
pub tar_parse-IsArchive :
    (addr : ℕ) (files : List TarFile) (m : Bytes)
    → length files ≤ 64
    → IsArchive m addr files
    → tar_parse addr m ≡ some files
unfolding tar_parse
tar_parse-IsArchive addr files m l a = parse_from-IsArchive 64 addr files m l a
