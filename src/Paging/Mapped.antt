-- ===== src/Paging/Mapped.antt =====
-- What `mapf` does to the walk of the processor.
use smpl_osv.Base.{
  ℕ, suc, ◌+◌, ◌*◌, ◌%◌, ◌^◌, ◌<◌, ◌≤◌, ◌≡◌, ◌≢◌, inl, refl, ap, ◌∙◌, sym, arith, some, bit_or,
  lt→ltb,
}
use smpl_osv.Mmu.{follow, walk, store, store_self}
use smpl_osv.Paging.Index.{pml4_idx_lem, pdp_idx_lem, pd_idx_lem, pt_idx_lem}
use smpl_osv.Paging.Entries.{locate-pdp, locate-pd, locate-pt, new_entry}
use smpl_osv.Paging.Tree.{IsTree, Fresh, store-other, store-words}
use smpl_osv.Paging.Steps.{pt_window, step_pdp, step_pd, step_pt}
use smpl_osv.Paging.{
  Paging, locate, ensure, pdp_mapping, pd_mapping, pt_mapping, pml4_idx, pdp_idx, pd_idx, pt_idx,
  mapf, is_present,
}

-- The tables that the indices lead to.
pub record Tables (level : ℕ → ℕ) (s : Paging) (i4 i3 i2 t3 t2 t1 : ℕ) : Type 0 where
  pub tree : IsTree level s
  pub to3 : follow (s.frames s.cr3 i4) ≡ some t3
  pub to2 : follow (s.frames t3 i3) ≡ some t2
  pub to1 : follow (s.frames t2 i2) ≡ some t1
  pub lev3 : level t3 ≡ 3
  pub lev2 : level t2 ≡ 2
  pub lev1 : level t1 ≡ 1

pub different : (level : ℕ → ℕ) (x y a b : ℕ) → level x ≡ a → level y ≡ b → a ≢ b → x ≢ y
different level x y a b l u ne e = ne (sym l ∙ ap level e ∙ u)

mapf-run :
    (phys virt flags : ℕ) (s s1 s2 s3 : Paging) (t3 t2 t1 : ℕ)
    → ensure (s.current, pml4_idx virt) (pdp_mapping (pml4_idx virt)) flags s ≡ some s1
    → locate s1 (pdp_mapping (pml4_idx virt) + 8 * pdp_idx virt) ≡ some (t3, pdp_idx virt)
    → ensure (t3, pdp_idx virt) (pd_mapping (pml4_idx virt) (pdp_idx virt)) flags s1 ≡ some s2
    → locate s2 (pd_mapping (pml4_idx virt) (pdp_idx virt) + 8 * pd_idx virt)
      ≡ some (t2, pd_idx virt)
    → pt_mapping (pml4_idx virt) (pdp_idx virt) (pd_idx virt)
      ≡ some (pt_window (pml4_idx virt) (pdp_idx virt) (pd_idx virt))
    → ensure (t2, pd_idx virt) (pt_window (pml4_idx virt) (pdp_idx virt) (pd_idx virt)) flags s2
      ≡ some s3
    → locate s3 (pt_window (pml4_idx virt) (pdp_idx virt) (pd_idx virt) + 8 * pt_idx virt)
      ≡ some (t1, pt_idx virt)
    → mapf phys virt flags s
      ≡ some
          (record s3 { frames = store t1 (pt_idx virt) (bit_or (bit_or phys 1) flags) s3.frames })
unfolding mapf
mapf-run phys virt flags s s1 s2 s3 t3 t2 t1 e1 p3 e2 p2 w e3 p1 =
    rw (e1, p3, e2, p2, w, e3, p1) refl

-- The last store changes no table's entry for a table.
pub leaf-IsTree :
    (level : ℕ → ℕ) (s : Paging) (t1 i v : ℕ)
    → IsTree level s
    → level t1 ≡ 1
    → v < 2 ^ 64
    → IsTree level (record s { frames = store t1 i v s.frames })
leaf-IsTree level s t1 i v tree lev fits =
    let other = λ (x j n : ℕ) (l : level x ≡ suc n) (pos : 1 ≤ n).
      store-other t1 i v s.frames x j (inl (different level x t1 (suc n) 1 l lev (omega arith))) in
    record {
      same_top = tree.same_top;
      top_level = tree.top_level;
      recursive = ap follow (other s.cr3 511 3 tree.top_level (omega arith)) ∙ tree.recursive;
      words = store-words t1 i v s.frames fits tree.words;
      down = λ n x j pos l inside apart present.
          let same = other x j n l pos in
          let (g, to, low) =
            tree.down n x j pos l inside apart (ap is_present (sym same) ∙ present) in
          (g, ap follow same ∙ to, low);
    }

module _ (virt flags : ℕ) (low : virt < 2 ^ 40) (few : flags < 2 ^ 12) where
  pub l4 : pml4_idx virt < 2
  l4 = omega (arith, pml4_idx_lem virt (omega arith))

  pub l3 : pdp_idx virt < 512
  l3 = omega (arith, pdp_idx_lem virt (omega arith))

  pub l2 : pd_idx virt < 512
  l2 = omega (arith, pd_idx_lem virt)

  pub l1 : pt_idx virt < 512
  l1 = omega (arith, pt_idx_lem virt)

  pub tables :
      (level : ℕ → ℕ) (s : Paging)
      → IsTree level s
      → Fresh level s.pmm 3
      → (level' : ℕ → ℕ) × (s' : Paging) × (t3 : ℕ) × (t2 : ℕ) × (t1 : ℕ) × Tables level' s'
          (pml4_idx virt)
          (pdp_idx virt)
          (pd_idx virt)
          t3
          t2
          t1
        × ((phys : ℕ)
            → mapf phys virt flags s
              ≡ some (record s' {
                frames = store t1 (pt_idx virt) (bit_or (bit_or phys 1) flags) s'.frames;
              }))
  tables level s tree fresh =
      let i4 = pml4_idx virt in
      let i3 = pdp_idx virt in
      let i2 = pd_idx virt in
      let (level1, s1, t3, e1, d1) = step_pdp i4 i3 i2 flags l4 l3 l2 few level s 2 tree fresh in
      let to3 = ap (λ c. follow (s1.frames c i4)) d1.top ∙ d1.link in
      let (level2, s2, t2, e2, d2) =
        step_pd i4 i3 i2 flags l4 l3 l2 few level1 s1 1 t3 d1.tree d1.fresh d1.child to3 in
      let top1 = d1.tree.top_level in
      let c3 = different level1 s1.cr3 t3 4 3 top1 d1.child (omega arith) in
      let to3' =
        ap (λ c. follow (s2.frames c i4)) d2.top
        ∙ ap follow (d2.others s1.cr3 i4 (omega (arith, top1)) (inl c3))
        ∙ to3 in
      let lev3 = d2.levels t3 (omega (arith, d1.child)) ∙ d1.child in
      let (level3, s3, t1, e3, d3) =
        step_pt i4 i3 i2 flags l4 l3 l2 few level2 s2 0 t3 t2 d2.tree d2.fresh lev3 d2.child to3'
          d2.link in
      let top2 = d2.tree.top_level in
      let c2 = different level2 s2.cr3 t2 4 2 top2 d2.child (omega arith) in
      let b2 = different level2 t3 t2 3 2 lev3 d2.child (omega arith) in
      let to3'' =
        ap (λ c. follow (s3.frames c i4)) d3.top
        ∙ ap follow (d3.others s2.cr3 i4 (omega (arith, top2)) (inl c2))
        ∙ to3' in
      let to2'' = ap follow (d3.others t3 i3 (omega (arith, lev3)) (inl b2)) ∙ d2.link in
      (
        level3,
        s3,
        t3,
        t2,
        t1,
        record {
          tree = d3.tree;
          to3 = to3'';
          to2 = to2'';
          to1 = d3.link;
          lev3 = d3.levels t3 (omega (arith, lev3)) ∙ lev3;
          lev2 = d3.levels t2 (omega (arith, d2.child)) ∙ d2.child;
          lev1 = d3.child;
        },
        λ phys.
            mapf-run phys virt flags s s1 s2 s3 t3 t2 t1
              (ap (λ c. ensure (c, i4) (pdp_mapping i4) flags s) tree.same_top ∙ e1)
              (locate-pdp s1 d1.tree.recursive i4 i3 t3 (omega (arith, l4)) l3 to3) e2
              (locate-pd s2 d2.tree.recursive i4 i3 i2 t3 t2 (omega (arith, l4)) l3 l2 to3' d2.link)
              (rw (lt→ltb i4 2 l4) refl) e3
              (locate-pt s3 d3.tree.recursive i4 i3 i2 (pt_idx virt) t3 t2 t1 l4 l3 l2 l1 to3''
                to2'' d3.link),
      )

  pub walk-tables :
      (level : ℕ → ℕ) (s : Paging) (t3 t2 t1 v p : ℕ)
      → Tables level s (pml4_idx virt) (pdp_idx virt) (pd_idx virt) t3 t2 t1
      → follow v ≡ some p
      → walk (store t1 (pt_idx virt) v s.frames) s.cr3 virt ≡ some (p * 2 ^ 12 + virt % 2 ^ 12)
  unfolding walk
  walk-tables level s t3 t2 t1 v p t to =
      let m = store t1 (pt_idx virt) v s.frames in
      let keep = λ (x j a : ℕ) (l : level x ≡ a) (ne : a ≢ 1).
        store-other t1 (pt_idx virt) v s.frames x j (inl (different level x t1 a 1 l t.lev1 ne)) in
      let g4 =
        ap (λ i. follow (m s.cr3 i)) (sym (pml4_idx_lem virt (omega arith)))
        ∙ ap follow (keep s.cr3 (pml4_idx virt) 4 t.tree.top_level (omega arith))
        ∙ t.to3 in
      let g3 =
        ap (λ i. follow (m t3 i)) (sym (pdp_idx_lem virt (omega arith)))
        ∙ ap follow (keep t3 (pdp_idx virt) 3 t.lev3 (omega arith))
        ∙ t.to2 in
      let g2 =
        ap (λ i. follow (m t2 i)) (sym (pd_idx_lem virt))
        ∙ ap follow (keep t2 (pd_idx virt) 2 t.lev2 (omega arith))
        ∙ t.to1 in
      let g1 =
        ap (λ i. follow (m t1 i)) (sym (pt_idx_lem virt))
        ∙ ap follow (store_self t1 (pt_idx virt) v s.frames)
        ∙ to in
      rw (g4, g3, g2, g1) refl

  -- On a tree of page tables with the recursive entry, with three whole frames to be had from
  -- `falloc` that are no tables, for a virtual address below 2^40, flags below the frame's bits and
  -- a whole physical frame, `mapf` returns; then the processor translates the page to that frame,
  -- and the page tables are a tree again.
  pub mapf-walk :
      (level : ℕ → ℕ) (s : Paging) (p : ℕ)
      → IsTree level s
      → Fresh level s.pmm 3
      → p < 2 ^ 40
      → (s' : Paging) × (level' : ℕ → ℕ) × (mapf (p * 2 ^ 12) virt flags s ≡ some s')
        × (walk s'.frames s'.cr3 virt ≡ some (p * 2 ^ 12 + virt % 2 ^ 12))
        × IsTree level' s'
  mapf-walk level s p tree fresh whole =
      let (level', s', t3, t2, t1, t, run) = tables level s tree fresh in
      let v = bit_or (bit_or (p * 2 ^ 12) 1) flags in
      let (to, fits) = new_entry p flags whole few in
      (
        record s' { frames = store t1 (pt_idx virt) v s'.frames },
        level',
        run (p * 2 ^ 12),
        walk-tables level' s' t3 t2 t1 v p t to,
        leaf-IsTree level' s' t1 (pt_idx virt) v t.tree t.lev1 fits,
      )
