-- ===== src/Paging/Steps.antt =====
-- The steps of `mapf` one after the other: the tables of each level and the windows on them.
use smpl_osv.Base.{ℕ, suc, ◌+◌, ◌*◌, ◌^◌, ◌<◌, ◌≡◌, ◌≢◌, inl, inr, ap, ◌∙◌, sym, arith, some}
use smpl_osv.Mmu.{follow}
use smpl_osv.Paging.Entries.{locate-pdp, locate-pd, locate-pt}
use smpl_osv.Paging.Tree.{IsTree, Fresh, Ensured}
use smpl_osv.Paging.Ensure.{ensure-Ensured}
use smpl_osv.Paging.{Paging, locate, ensure, pdp_mapping, pd_mapping}

-- A window on a table for `mapf`, and the address of word `o` in it.
abbrev pub pt_window : ℕ → ℕ → ℕ → ℕ
pt_window i4 i3 i2 = 0xFFFFFF8000000000 + 0x40000000 * i4 + 0x200000 * i3 + 0x1000 * i2

module _ (i4 i3 i2 flags : ℕ) (l4 : i4 < 2) (l3 : i3 < 512) (l2 : i2 < 512)
    (few : flags < 2 ^ 12) where
  pub step_pdp :
      (level : ℕ → ℕ) (s : Paging) (k : ℕ)
      → IsTree level s
      → Fresh level s.pmm (suc k)
      → (level' : ℕ → ℕ) × (s' : Paging) × (t3 : ℕ) × (ensure (s.cr3, i4) (pdp_mapping i4) flags s
          ≡ some s')
        × Ensured level s s.cr3 i4 3 k level' s' t3
  step_pdp level s k tree fresh =
      ensure-Ensured level s s.cr3 i4 3 k (pdp_mapping i4) flags tree (omega arith) tree.top_level
        (omega arith) (inr (omega arith)) few fresh
        (λ s1 g top others at.
          let used : level s.cr3 ≢ 0 = omega (arith, tree.top_level) in
          let rec =
            ap (λ c. follow (s1.frames c 511)) top
            ∙ ap follow (others s.cr3 511 used (inr (omega arith)))
            ∙ tree.recursive
            ∙ ap some (sym top) in
          ap (locate s1) {x = pdp_mapping i4} {y = pdp_mapping i4 + 8 * 0} (omega arith)
          ∙ locate-pdp s1 rec i4 0 g (omega arith) (omega arith)
              (ap (λ c. follow (s1.frames c i4)) top ∙ at))

  pub step_pd :
      (level : ℕ → ℕ) (s : Paging) (k t3 : ℕ)
      → IsTree level s
      → Fresh level s.pmm (suc k)
      → level t3 ≡ 3
      → follow (s.frames s.cr3 i4) ≡ some t3
      → (level' : ℕ → ℕ) × (s' : Paging) × (t2 : ℕ) × (ensure (t3, i3) (pd_mapping i4 i3) flags s
          ≡ some s')
        × Ensured level s t3 i3 2 k level' s' t2
  step_pd level s k t3 tree fresh lev to3 =
      let ne : s.cr3 ≢ t3 = λ e. absurd (omega (arith, ap level e, tree.top_level, lev)) in
      ensure-Ensured level s t3 i3 2 k (pd_mapping i4 i3) flags tree (omega arith) lev l3
        (inl (λ e. ne (sym e))) few fresh
        (λ s1 g top others at.
          let used : level s.cr3 ≢ 0 = omega (arith, tree.top_level) in
          let rec =
            ap (λ c. follow (s1.frames c 511)) top
            ∙ ap follow (others s.cr3 511 used (inl ne))
            ∙ tree.recursive
            ∙ ap some (sym top) in
          let up =
            ap (λ c. follow (s1.frames c i4)) top
            ∙ ap follow (others s.cr3 i4 used (inl ne))
            ∙ to3 in
          ap (locate s1) {x = pd_mapping i4 i3} {y = pd_mapping i4 i3 + 8 * 0} (omega arith)
          ∙ locate-pd s1 rec i4 i3 0 t3 g (omega arith) l3 (omega arith) up at)

  pub step_pt :
      (level : ℕ → ℕ) (s : Paging) (k t3 t2 : ℕ)
      → IsTree level s
      → Fresh level s.pmm (suc k)
      → level t3 ≡ 3
      → level t2 ≡ 2
      → follow (s.frames s.cr3 i4) ≡ some t3
      → follow (s.frames t3 i3) ≡ some t2
      → (level' : ℕ → ℕ) × (s' : Paging) × (t1 : ℕ) × (ensure (t2, i2) (pt_window i4 i3 i2) flags s
          ≡ some s')
        × Ensured level s t2 i2 1 k level' s' t1
  step_pt level s k t3 t2 tree fresh lev3 lev2 to3 to2 =
      let ne : s.cr3 ≢ t2 = λ e. absurd (omega (arith, ap level e, tree.top_level, lev2)) in
      let ne3 : t3 ≢ t2 = λ e. absurd (omega (arith, ap level e, lev3, lev2)) in
      ensure-Ensured level s t2 i2 1 k (pt_window i4 i3 i2) flags tree (omega arith) lev2 l2
        (inl (λ e. ne (sym e))) few fresh
        (λ s1 g top others at.
          let used : level s.cr3 ≢ 0 = omega (arith, tree.top_level) in
          let used3 : level t3 ≢ 0 = omega (arith, lev3) in
          let rec =
            ap (λ c. follow (s1.frames c 511)) top
            ∙ ap follow (others s.cr3 511 used (inl ne))
            ∙ tree.recursive
            ∙ ap some (sym top) in
          let up =
            ap (λ c. follow (s1.frames c i4)) top
            ∙ ap follow (others s.cr3 i4 used (inl ne))
            ∙ to3 in
          let mid = ap follow (others t3 i3 used3 (inl ne3)) ∙ to2 in
          ap (locate s1) {x = pt_window i4 i3 i2} {y = pt_window i4 i3 i2 + 8 * 0} (omega arith)
          ∙ locate-pt s1 rec i4 i3 i2 0 t3 t2 g l4 l3 l2 (omega arith) up mid at)
