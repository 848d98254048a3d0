-- ===== src/Paging/Start/Initial.antt =====
-- The entries of the static tables after `init_paging`.
use smpl_osv.Base.{ℕ, ◌+◌, ◌*◌, ◌≤◌, ◌<◌, ◌≡◌, ◌≢◌, sym, ◌∙◌, arith, bit_or}
use smpl_osv.Mmu.{Frames, store, store_self, store-frame, store-index}
use smpl_osv.Paging.{Paging}
use smpl_osv.Paging.Start.{Statics, clear_table, entry_for, link_first, init_paging}
use smpl_osv.Paging.Start.Filled.{
  IsStatics, clear_table_self, clear_table-frame, link_first-frame, link_first-above,
  link_first-entry, fill_tables-frame, fill_tables-entry,
}

module _ (t : Statics) (statics : IsStatics t) (s : Paging) where
  abbrev cleared : Frames
  cleared = clear_table t.pd (clear_table t.pd_ptr_table (clear_table t.pml4 s.frames))

  abbrev recursive : Frames
  recursive = store t.pml4 511 (entry_for t.pml4) cleared

  abbrev top : Frames
  top = store t.pml4 0 (entry_for t.pd_ptr_table) recursive

  abbrev upper : Frames
  upper = store t.pd_ptr_table 0 (entry_for t.pd) top

  abbrev linked : Frames
  linked = link_first t 5 upper

  abbrev pub after : Frames
  after = (init_paging t s).frames

  kept : (f i : ℕ) → ((k : ℕ) → k < 5 → f ≢ t.pt k) → after f i ≡ linked f i
  unfolding init_paging
  kept f i ne = fill_tables-frame t 5 linked f i ne

  pml4_kept : (i : ℕ) → after t.pml4 i ≡ top t.pml4 i
  pml4_kept i =
      let (off, away) = statics.pml4_apart in
      kept t.pml4 i (λ k l. (statics.pt_apart k l).0)
      ∙ link_first-frame t 5 upper t.pml4 i away
      ∙ store-frame t.pd_ptr_table 0 _ top t.pml4 i off

  pub pml4_first : after t.pml4 0 ≡ entry_for t.pd_ptr_table
  pml4_first = pml4_kept 0 ∙ store_self t.pml4 0 (entry_for t.pd_ptr_table) recursive

  pub pml4_last : after t.pml4 511 ≡ entry_for t.pml4
  pml4_last =
      pml4_kept 511
      ∙ store-index t.pml4 0 _ recursive t.pml4 511 (omega arith)
      ∙ store_self t.pml4 511 (entry_for t.pml4) cleared

  pub pml4_rest : (i : ℕ) → i < 512 → i ≢ 0 → i ≢ 511 → after t.pml4 i ≡ 0
  pml4_rest i l ne ne' =
      let (off, away) = statics.pml4_apart in
      pml4_kept i
      ∙ store-index t.pml4 0 _ recursive t.pml4 i ne
      ∙ store-index t.pml4 511 _ cleared t.pml4 i ne'
      ∙ clear_table-frame t.pd (clear_table t.pd_ptr_table (clear_table t.pml4 s.frames)) t.pml4 i
          away
      ∙ clear_table-frame t.pd_ptr_table (clear_table t.pml4 s.frames) t.pml4 i off
      ∙ clear_table_self t.pml4 s.frames i l

  pd_ptr_table_kept : (i : ℕ) → after t.pd_ptr_table i ≡ upper t.pd_ptr_table i
  pd_ptr_table_kept i =
      kept t.pd_ptr_table i (λ k l. (statics.pt_apart k l).1)
      ∙ link_first-frame t 5 upper t.pd_ptr_table i statics.pd_ptr_table_apart

  pub pd_ptr_table_first : after t.pd_ptr_table 0 ≡ entry_for t.pd
  pd_ptr_table_first = pd_ptr_table_kept 0 ∙ store_self t.pd_ptr_table 0 (entry_for t.pd) top

  pub pd_ptr_table_rest : (i : ℕ) → i < 512 → i ≢ 0 → after t.pd_ptr_table i ≡ 0
  pd_ptr_table_rest i l ne =
      let other : t.pd_ptr_table ≢ t.pml4 = λ e. statics.pml4_apart.0 (sym e) in
      pd_ptr_table_kept i
      ∙ store-index t.pd_ptr_table 0 _ top t.pd_ptr_table i ne
      ∙ store-frame t.pml4 0 _ recursive t.pd_ptr_table i other
      ∙ store-frame t.pml4 511 _ cleared t.pd_ptr_table i other
      ∙ clear_table-frame t.pd (clear_table t.pd_ptr_table (clear_table t.pml4 s.frames))
          t.pd_ptr_table i statics.pd_ptr_table_apart
      ∙ clear_table_self t.pd_ptr_table (clear_table t.pml4 s.frames) i l

  pub pd_entry : (k : ℕ) → k < 5 → after t.pd k ≡ entry_for (t.pt k)
  pd_entry k l = kept t.pd k (λ j u. (statics.pt_apart j u).2) ∙ link_first-entry t 5 upper k l

  pub pd_rest : (i : ℕ) → i < 512 → 5 ≤ i → after t.pd i ≡ 0
  pd_rest i l u =
      let other : t.pd ≢ t.pml4 = λ e. statics.pml4_apart.1 (sym e) in
      kept t.pd i (λ j v. (statics.pt_apart j v).2)
      ∙ link_first-above t 5 upper i u
      ∙ store-frame t.pd_ptr_table 0 _ top t.pd i (λ e. statics.pd_ptr_table_apart (sym e))
      ∙ store-frame t.pml4 0 _ recursive t.pd i other
      ∙ store-frame t.pml4 511 _ cleared t.pd i other
      ∙ clear_table_self t.pd (clear_table t.pd_ptr_table (clear_table t.pml4 s.frames)) i l

  pub pt_entry :
      (k i : ℕ) → k < 5 → i < 512 → after (t.pt k) i ≡ bit_or (0x200000 * k + 0x1000 * i) 3
  unfolding init_paging
  pt_entry k i l u = fill_tables-entry t 5 linked k i statics (omega arith) l u
