-- ===== src/Paging/Start.antt =====
-- What the kernel starts its page tables with: `init_paging` of src/kernel/src/mem/paging.c. Its
-- tables are static and the loader has mapped them to themselves, so they stand at the frames of
-- their addresses.
pub mod Filled
pub mod Initial
pub mod Identity
mod Tests
use smpl_osv.Base.{ℕ, zero, suc, ◌+◌, ◌*◌, ◌^◌, ltb, bit_or, if◌then◌else◌, update}
use smpl_osv.Mmu.{Frames, store}
use smpl_osv.Paging.{Paging}

-- The frames of `pml4`, `pd_ptr_table`, `pd` and of the five tables `pt`.
pub record Statics : Type 0 where
  pub pml4 : ℕ
  pub pd_ptr_table : ℕ
  pub pd : ℕ
  pub pt : ℕ → ℕ

-- `memset(table, 0, 4096)`.
pub clear_table : ℕ → Frames → Frames
clear_table frame m = update m frame (λ i. if ltb i 512 then 0 else m frame i)

abbrev pub entry_for : ℕ → ℕ
entry_for frame = bit_or (frame * 2 ^ 12) 3

-- The entries of `pd` for the first `n` tables.
pub link_first : Statics → ℕ → Frames → Frames
unfolding store
link_first t zero m = m
link_first t (suc n) m = store t.pd n (entry_for (t.pt n)) (link_first t n m)

-- The first `n` rounds of the inner loop, for the table `j` at a frame.
pub fill_table : ℕ → ℕ → ℕ → Frames → Frames
unfolding store
fill_table frame j zero m = m
fill_table frame j (suc n) m =
    store frame n (bit_or (0x200000 * j + 0x1000 * n) 3) (fill_table frame j n m)

-- The first `n` rounds of the outer loop.
pub fill_tables : Statics → ℕ → Frames → Frames
unfolding fill_table
fill_tables t zero m = m
fill_tables t (suc n) m = fill_table (t.pt n) n 512 (fill_tables t n m)

pub init_paging : Statics → Paging → Paging
unfolding clear_table store link_first fill_tables
init_paging t s =
    let cleared = clear_table t.pd (clear_table t.pd_ptr_table (clear_table t.pml4 s.frames)) in
    let recursive = store t.pml4 511 (entry_for t.pml4) cleared in
    let top = store t.pml4 0 (entry_for t.pd_ptr_table) recursive in
    let linked = link_first t 5 (store t.pd_ptr_table 0 (entry_for t.pd) top) in
    record s { frames = fill_tables t 5 linked; cr3 = t.pml4 }
