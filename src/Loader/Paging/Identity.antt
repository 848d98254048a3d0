-- ===== src/Loader/Paging/Identity.antt =====
-- The loader's page tables translate the first 12 MiB to themselves.
use smpl_osv.Base.{ℕ, ◌+◌, ◌*◌, ◌/◌, ◌%◌, ◌^◌, ◌<◌, ◌≡◌, ◌≢◌, sym, ap, ◌∙◌, some, arith, bit_or}
use smpl_osv.Mmu.{Frames, store, follow, walk, follow-entry, store_self, store-frame}
use smpl_osv.Loader.Paging.Rows.{
  IsLayout, map_rows-frame, link_tables-frame, link_tables-above, link_tables-table,
  fill_last-frame, map_rows-table,
}
use smpl_osv.Elf.{sign_extend}
use smpl_osv.Loader.Paging.{Layout, clear, present, link_tables, fill_last, paging_setup}

clear_self : (f : ℕ) (m : Frames) (i : ℕ) → i < 512 → clear f m f i ≡ 0
unfolding clear
clear_self f m i l = ground arith

follow-present : (frame : ℕ) → frame < 2 ^ 19 → follow (present frame) ≡ some frame
follow-present frame l =
    let low : sign_extend (frame * 2 ^ 12) ≡ frame * 2 ^ 12 = ground arith in
    ap (λ a. follow (bit_or a 3)) low ∙ follow-entry frame (omega arith)

module _ (t : Layout) (layout : IsLayout t) (m : Frames) where
  abbrev cleared : Frames
  cleared = clear t.pd (clear t.pd_ptr_table (clear t.pml4 m))

  abbrev top : Frames
  top = store t.pml4 0 (present t.pd_ptr_table) cleared

  abbrev upper : Frames
  upper = store t.pd_ptr_table 0 (present t.pd) top

  abbrev linked : Frames
  linked = link_tables t 6 upper

  pd_ends_empty : linked t.pd 511 ≡ 0
  pd_ends_empty =
      link_tables-above t 6 upper 511 (omega arith)
      ∙ store-frame t.pd_ptr_table 0 _ top t.pd 511 (λ e. layout.pd_ptr_table_apart.1 (sym e))
      ∙ store-frame t.pml4 0 _ cleared t.pd 511 (λ e. layout.pml4_apart.2 (sym e))
      ∙ clear_self t.pd (clear t.pd_ptr_table (clear t.pml4 m)) 511 (omega arith)

  -- What the last two loops leave alone.
  kept : (f j : ℕ) → f ≢ 0 → ((k : ℕ) → k < 6 → f ≢ t.pt k) → paging_setup t m f j ≡ linked f j
  unfolding paging_setup
  kept f j nz ne =
      map_rows-frame t 512 (fill_last t 512 linked) f j ne
      ∙ fill_last-frame t 512 linked f j layout.pd_apart pd_ends_empty nz

  pml4_entry : paging_setup t m t.pml4 0 ≡ present t.pd_ptr_table
  pml4_entry =
      let (nz, off, away) = layout.pml4_apart in
      kept t.pml4 0 nz (λ k l. (layout.pt_apart k l).0)
      ∙ link_tables-frame t 6 upper t.pml4 0 away
      ∙ store-frame t.pd_ptr_table 0 _ top t.pml4 0 off
      ∙ store_self t.pml4 0 (present t.pd_ptr_table) cleared

  pd_ptr_table_entry : paging_setup t m t.pd_ptr_table 0 ≡ present t.pd
  pd_ptr_table_entry =
      let (nz, away) = layout.pd_ptr_table_apart in
      kept t.pd_ptr_table 0 nz (λ k l. (layout.pt_apart k l).1)
      ∙ link_tables-frame t 6 upper t.pd_ptr_table 0 away
      ∙ store_self t.pd_ptr_table 0 (present t.pd) top

  pd_entry : (k : ℕ) → k < 6 → paging_setup t m t.pd k ≡ present (t.pt k)
  pd_entry k l =
      kept t.pd k layout.pd_apart (λ j u. (layout.pt_apart j u).2) ∙ link_tables-table t 6 upper k l

  pt_entry :
      (k i : ℕ)
      → k < 6
      → i < 512
      → paging_setup t m (t.pt k) i ≡ bit_or (0x200000 * k + 0x1000 * i) 3
  unfolding paging_setup
  pt_entry k i l u = map_rows-table t layout 512 (fill_last t 512 linked) k i l u

  -- Where the tables stand at different frames below 2 GiB, none of the upper three at frame 0, the
  -- processor's walk through what `paging_setup` leaves takes every address below 12 MiB to itself,
  -- whatever memory held before.
  pub paging_setup-identity :
      (addr : ℕ) → addr < 0xC00000 → walk (paging_setup t m) t.pml4 addr ≡ some addr
  unfolding walk
  paging_setup-identity addr l =
      let m' = paging_setup t m in
      let k = addr / 2 ^ 21 in
      let i = addr / 2 ^ 12 % 512 in
      let zero4 : addr / 2 ^ 39 % 512 ≡ 0 = omega arith in
      let zero3 : addr / 2 ^ 30 % 512 ≡ 0 = omega arith in
      let same2 : addr / 2 ^ 21 % 512 ≡ k = omega arith in
      let step4 =
        ap (λ j. follow (m' t.pml4 j)) zero4
        ∙ ap follow pml4_entry
        ∙ follow-present t.pd_ptr_table (omega (arith, layout.fits.0)) in
      let step3 =
        ap (λ j. follow (m' t.pd_ptr_table j)) zero3
        ∙ ap follow pd_ptr_table_entry
        ∙ follow-present t.pd (omega (arith, layout.fits.1)) in
      let step2 =
        ap (λ j. follow (m' t.pd j)) same2
        ∙ ap follow (pd_entry k (omega arith))
        ∙ follow-present (t.pt k) (omega (arith, layout.pt_fits k (omega arith))) in
      let step1 =
        ap follow (pt_entry k i (omega arith) (omega arith))
        ∙ ap (λ a. follow (bit_or a 3)) (omega arith)
        ∙ follow-entry (addr / 2 ^ 12) (omega arith) in
      rw (step4, step3, step2, step1) (ap some (omega arith))
