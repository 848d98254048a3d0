-- ===== src/Paging/Unmap.antt =====
-- `to_physical` and `unmap` on a page that `mapf` has mapped.
use smpl_osv.Base.{
  ℕ, ◌*◌, ◌/◌, ◌%◌, ◌^◌, ◌<◌, ◌≡◌, ◌≢◌, inl, inr, refl, ap, ◌∙◌, sym, arith, some, none, bit_or,
  bit_and, lt→ltb, Option, Bool-cases, ◌==◌, true,
}
use smpl_osv.Mmu.{follow, walk, store, store_self}
use smpl_osv.Paging.Index.{pml4_idx_lem, pdp_idx_lem, pd_idx_lem, pt_idx_lem}
use smpl_osv.Paging.Entries.{locate-pdp, locate-pd, locate-pt, new_entry, low_frame}
use smpl_osv.Paging.Tree.{IsTree, Fresh, store-other}
use smpl_osv.Paging.Mapped.{Tables, different, leaf-IsTree, l4, l3, l2, l1, tables}
use smpl_osv.Paging.{
  Paging, pml4_idx, pdp_idx, pd_idx, pt_idx, mapf, is_present, find_entry, unmap, to_physical,
}

follow-present : (e g : ℕ) → follow e ≡ some g → is_present e ≡ true
follow-present e g at = elim (Bool-cases (e % 2 == 1)) [
  | inl h ↦ h
  | inr h ↦ let no : ◌≡◌ {A = Option ℕ} none (some g) = rw h at at in cc
]

-- The tables are the same after a store to the last of them.
Tables-store :
    (level : ℕ → ℕ) (s : Paging) (i4 i3 i2 i t3 t2 t1 v : ℕ)
    → Tables level s i4 i3 i2 t3 t2 t1
    → v < 2 ^ 64
    → Tables level (record s { frames = store t1 i v s.frames }) i4 i3 i2 t3 t2 t1
Tables-store level s i4 i3 i2 i t3 t2 t1 v t fits =
    let keep = λ (x j a : ℕ) (l : level x ≡ a) (ne : a ≢ 1).
      store-other t1 i v s.frames x j (inl (different level x t1 a 1 l t.lev1 ne)) in
    record {
      tree = leaf-IsTree level s t1 i v t.tree t.lev1 fits;
      to3 = ap follow (keep s.cr3 i4 4 t.tree.top_level (omega arith)) ∙ t.to3;
      to2 = ap follow (keep t3 i3 3 t.lev3 (omega arith)) ∙ t.to2;
      to1 = ap follow (keep t2 i2 2 t.lev2 (omega arith)) ∙ t.to1;
      lev3 = t.lev3;
      lev2 = t.lev2;
      lev1 = t.lev1;
    }

module _ (virt flags : ℕ) (low : virt < 2 ^ 40) (few : flags < 2 ^ 12) where
  find_entry-Tables :
      (level : ℕ → ℕ) (s : Paging) (t3 t2 t1 : ℕ)
      → Tables level s (pml4_idx virt) (pdp_idx virt) (pd_idx virt) t3 t2 t1
      → find_entry virt s ≡ some (some (t1, pt_idx virt))
  unfolding find_entry
  find_entry-Tables level s t3 t2 t1 t =
      let i4 = pml4_idx virt in
      let i3 = pdp_idx virt in
      let i2 = pd_idx virt in
      let m4 = l4 virt flags low few in
      let m3 = l3 virt flags low few in
      let m2 = l2 virt flags low few in
      let m1 = l1 virt flags low few in
      let here =
        ap (λ c. is_present (s.frames c i4)) t.tree.same_top
        ∙ follow-present (s.frames s.cr3 i4) t3 t.to3 in
      rw
        (
          here,
          locate-pdp s t.tree.recursive i4 i3 t3 (omega (arith, m4)) m3 t.to3,
          follow-present (s.frames t3 i3) t2 t.to2,
          locate-pd s t.tree.recursive i4 i3 i2 t3 t2 (omega (arith, m4)) m3 m2 t.to3 t.to2,
          follow-present (s.frames t2 i2) t1 t.to1,
          lt→ltb i4 2 m4,
          locate-pt s t.tree.recursive i4 i3 i2 (pt_idx virt) t3 t2 t1 m4 m3 m2 m1 t.to3 t.to2
              t.to1,
        )
        refl

  walk-unmapped :
      (level : ℕ → ℕ) (s : Paging) (t3 t2 t1 : ℕ)
      → Tables level s (pml4_idx virt) (pdp_idx virt) (pd_idx virt) t3 t2 t1
      → walk (store t1 (pt_idx virt) 0 s.frames) s.cr3 virt ≡ none
  unfolding walk
  walk-unmapped level s t3 t2 t1 t =
      let m = store t1 (pt_idx virt) 0 s.frames in
      let t' = Tables-store level s _ _ _ (pt_idx virt) t3 t2 t1 0 t (omega arith) in
      let g4 = ap (λ i. follow (m s.cr3 i)) (sym (pml4_idx_lem virt (omega arith))) ∙ t'.to3 in
      let g3 = ap (λ i. follow (m t3 i)) (sym (pdp_idx_lem virt (omega arith))) ∙ t'.to2 in
      let g2 = ap (λ i. follow (m t2 i)) (sym (pd_idx_lem virt)) ∙ t'.to1 in
      let g1 : follow (m t1 (virt / 2 ^ 12 % 512)) ≡ none =
        ap (λ i. follow (m t1 i)) (sym (pt_idx_lem virt))
        ∙ ap follow (store_self t1 (pt_idx virt) 0 s.frames) in
      rw (g4, g3, g2, g1) refl

  to_physical-found :
      (s : Paging) (f i e : ℕ)
      → find_entry virt s ≡ some (some (f, i))
      → s.frames f i ≡ e
      → is_present e ≡ true
      → to_physical virt s ≡ some (bit_and e 0xFFFFF000)
  unfolding to_physical
  to_physical-found s f i e found at present = rw (found, at, present) refl

  unmap-found :
      (s : Paging) (f i : ℕ)
      → find_entry virt s ≡ some (some (f, i))
      → unmap virt s ≡ some (record s { frames = store f i 0 s.frames })
  unfolding unmap
  unmap-found s f i found = rw found refl

  -- Under the premises of `mapf-walk`: on the page that `mapf` has mapped, `to_physical` returns
  -- the address of the frame without its bits above the lowest 32, and after `unmap` the processor
  -- finds no translation of the page.
  pub mapf-unmap :
      (level : ℕ → ℕ) (s : Paging) (p : ℕ)
      → IsTree level s
      → Fresh level s.pmm 3
      → p < 2 ^ 40
      → (s' : Paging) × (s'' : Paging) × (mapf (p * 2 ^ 12) virt flags s ≡ some s')
        × (to_physical virt s' ≡ some (p * 2 ^ 12 % 2 ^ 32))
        × (unmap virt s' ≡ some s'')
        × (walk s''.frames s''.cr3 virt ≡ none)
  mapf-unmap level s p tree fresh whole =
      let (level', s1, t3, t2, t1, t, run) = tables virt flags low few level s tree fresh in
      let v = bit_or (bit_or (p * 2 ^ 12) 1) flags in
      let i = pt_idx virt in
      let (to, fits) = new_entry p flags whole few in
      let s' = record s1 { frames = store t1 i v s1.frames } in
      let t' = Tables-store level' s1 _ _ _ i t3 t2 t1 v t fits in
      let found = find_entry-Tables level' s' t3 t2 t1 t' in
      (
        s',
        record s' { frames = store t1 i 0 s'.frames },
        run (p * 2 ^ 12),
        to_physical-found s' t1 i v found (store_self t1 i v s1.frames) (follow-present v p to)
            ∙ ap some (low_frame p flags few ∙ omega arith),
        unmap-found s' t1 i found,
        walk-unmapped level' s' t3 t2 t1 t',
      )
