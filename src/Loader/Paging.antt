-- ===== src/Loader/Paging.antt =====
-- The page tables that the loader starts the kernel with: `paging_setup` of
-- src/loader/src/memory.c. Its tables stand at frames, their addresses without the low twelve bits.
pub mod Rows
pub mod Identity
mod Tests
use smpl_osv.Base.{ℕ, zero, suc, ◌+◌, ◌*◌, ◌/◌, ◌^◌, ltb, leb, ◌&&◌, bit_or, if◌then◌else◌}
use smpl_osv.Mmu.{Frames, store}
use smpl_osv.Elf.{sign_extend}

-- The frames of `pml4`, `pd_ptr_table`, `pd`, and of `pt` and `pt1` to `pt5`.
pub record Layout : Type 0 where
  pml4 : ℕ
  pd_ptr_table : ℕ
  pd : ℕ
  pt : ℕ → ℕ

-- `memset(table, 0, 4096)`: the loader's `memset` writes words of 32 bits, so it clears the table
-- and the three frames behind it.
pub clear : ℕ → Frames → Frames
clear frame m f i = if leb frame f && ltb f (frame + 4) && ltb i 512 then 0 else m f i

-- A pointer to a table becomes a `uint64_t` by its sign.
abbrev pub present : ℕ → ℕ
present frame = bit_or (sign_extend (frame * 2 ^ 12)) 3

-- The entries of `pd` for the first `n` tables.
pub link_tables : Layout → ℕ → Frames → Frames
unfolding store
link_tables t zero m = m
link_tables t (suc n) m = store t.pd n (present (t.pt n)) (link_tables t n m)

-- The first `n` rounds of the loop over the table that `pd[511]` holds the address of.
pub fill_last : Layout → ℕ → Frames → Frames
unfolding store
fill_last t zero m = m
fill_last t (suc n) m =
    let done = fill_last t n m in store (done t.pd 511 / 2 ^ 12) n (bit_or (0x1000 * n) 3) done

-- The entries of one round for the first `n` tables.
pub map_row : Layout → ℕ → ℕ → Frames → Frames
unfolding store
map_row t i zero m = m
map_row t i (suc n) m = store (t.pt n) i (bit_or (0x200000 * n + 0x1000 * i) 3) (map_row t i n m)

-- The first `n` rounds of the last loop.
pub map_rows : Layout → ℕ → Frames → Frames
unfolding map_row
map_rows t zero m = m
map_rows t (suc n) m = map_row t n 6 (map_rows t n m)

pub paging_setup : Layout → Frames → Frames
unfolding clear store link_tables fill_last map_rows
paging_setup t m =
    let cleared = clear t.pd (clear t.pd_ptr_table (clear t.pml4 m)) in
    let top = store t.pml4 0 (present t.pd_ptr_table) cleared in
    let linked = link_tables t 6 (store t.pd_ptr_table 0 (present t.pd) top) in
    map_rows t 512 (fill_last t 512 linked)
