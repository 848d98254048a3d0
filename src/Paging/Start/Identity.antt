-- ===== src/Paging/Start/Identity.antt =====
-- The page tables after `init_paging` are a tree, which `mapf` needs, and translate the first 10
-- MiB to themselves.
use smpl_osv.Base.{
  ℕ, zero, suc, ◌/◌, ◌%◌, ◌^◌, ◌≤◌, ◌<◌, ◌≡◌, ◌≢◌, ◌⊎◌, inl, inr, refl, sym, ap, ◌∙◌, some, arith,
  Bool, true, false, ◌||◌, ◌==◌, ==_iff, ==_refl, ltb, Bool-cases, bit_or, if◌then◌else◌,
}
use mathlib.Core.Path.{subst₂}
use smpl_osv.Mmu.{follow, walk, follow-entry}
use smpl_osv.Paging.{Paging, is_present}
use smpl_osv.Paging.Tree.{IsTree, store-words}
use smpl_osv.Paging.Start.{Statics, init_paging}
use smpl_osv.Paging.Start.Filled.{
  IsStatics, Words, entry_fits, clear_table-Words, link_first-Words, fill_tables-Words,
}
use smpl_osv.Paging.Start.Initial.{
  after, pml4_first, pml4_last, pml4_rest, pd_ptr_table_first, pd_ptr_table_rest, pd_entry, pd_rest,
  pt_entry,
}

unfoldable pub is_pt : Statics → ℕ → ℕ → Bool
is_pt t zero f = false
is_pt t (suc n) f = f == t.pt n || is_pt t n f

-- The levels of the static tables.
abbrev pub start_level : Statics → ℕ → ℕ
start_level t f =
    if f == t.pml4
    then 4
    else if f == t.pd_ptr_table
    then 3
    else if f == t.pd
    then 2
    else if is_pt t 5 f
    then 1
    else 0

is_pt-at : (t : Statics) (n k : ℕ) → k < n → is_pt t n (t.pt k) ≡ true
unfolding is_pt
is_pt-at t zero k l = ground arith
is_pt-at t (suc n) k l = elim (Bool-cases (k == n)) [
  | inl e ↦ let same = ap t.pt ((==_iff k n).0 e) in ground arith
  | inr e ↦ let rest = is_pt-at t n k (ground arith) in ground arith
]

-- The tables with tables behind their entries.
upper_level :
    (t : Statics) (n f : ℕ)
    → 1 ≤ n
    → start_level t f ≡ suc n
    → ((f ≡ t.pml4) × (n ≡ 3)) ⊎ ((f ≡ t.pd_ptr_table) × (n ≡ 2)) ⊎ ((f ≡ t.pd) × (n ≡ 1))
upper_level t n f pos lev = elim (Bool-cases (f == t.pml4)) [
  | inl a ↦ inl ((==_iff f t.pml4).0 a, ground arith)
  | inr a ↦ elim (Bool-cases (f == t.pd_ptr_table)) [
    | inl b ↦ inr (inl ((==_iff f t.pd_ptr_table).0 b, ground arith))
    | inr b ↦ elim (Bool-cases (f == t.pd)) [
      | inl c ↦ inr (inr ((==_iff f t.pd).0 c, ground arith))
      | inr c ↦ absurd (ground arith)
    ]
  ]
]

absent : (e : ℕ) → e ≡ 0 → is_present e ≡ true → ⊥
absent e z p = ground arith

module _ (t : Statics) (statics : IsStatics t) (s : Paging) where
  -- An entry that is present leads to a table of level `n`.
  abbrev Leads : ℕ → ℕ → Type 0
  Leads f n =
      (i : ℕ)
      → i < 512
      → (f ≢ t.pml4) ⊎ (i ≢ 511)
      → is_present (after t statics s f i) ≡ true
      → (g : ℕ) × (follow (after t statics s f i) ≡ some g) × (start_level t g ≡ n)

  pml4-Leads : Leads t.pml4 3
  pml4-Leads i l apart present = elim (Bool-cases (i == 0)) [
    | inl e ↦
        let off = statics.pml4_apart.0 in
        (
          t.pd_ptr_table,
          ap (λ j. follow (after t statics s t.pml4 j)) ((==_iff i 0).0 e)
              ∙ ap follow (pml4_first t statics s)
              ∙ follow-entry t.pd_ptr_table (omega (arith, statics.fits.1)),
          ground arith,
        )
    | inr e ↦
        let below : i ≢ 511 = elim apart [ inl other ↦ absurd (other refl) | inr ne ↦ ne ] in
        absurd (absent _ (pml4_rest t statics s i l (ground arith) below) present)
  ]

  pd_ptr_table-Leads : Leads t.pd_ptr_table 2
  pd_ptr_table-Leads i l apart present = elim (Bool-cases (i == 0)) [
    | inl e ↦
        let off = statics.pml4_apart.1 in
        let off' = statics.pd_ptr_table_apart in
        (
          t.pd,
          ap (λ j. follow (after t statics s t.pd_ptr_table j)) ((==_iff i 0).0 e)
              ∙ ap follow (pd_ptr_table_first t statics s)
              ∙ follow-entry t.pd (omega (arith, statics.fits.2)),
          ground arith,
        )
    | inr e ↦ absurd (absent _ (pd_ptr_table_rest t statics s i l (ground arith)) present)
  ]

  pd-Leads : Leads t.pd 1
  pd-Leads i l apart present = elim (Bool-cases (ltb i 5)) [
    | inl e ↦
        let l' : i < 5 = ground arith in
        let (a, b, c) = statics.pt_apart i l' in
        let d = is_pt-at t 5 i l' in
        (
          t.pt i,
          ap follow (pd_entry t statics s i l')
              ∙ follow-entry (t.pt i) (omega (arith, statics.pt_fits i l')),
          ground arith,
        )
    | inr e ↦ absurd (absent _ (pd_rest t statics s i l (ground arith)) present)
  ]

  all-Leads : (n f : ℕ) → 1 ≤ n → start_level t f ≡ suc n → Leads f n
  all-Leads n f pos lev = elim (upper_level t n f pos lev) [
    | inl (e, d) ↦ subst₂ Leads (sym e) (sym d) pml4-Leads
    | inr (inl (e, d)) ↦ subst₂ Leads (sym e) (sym d) pd_ptr_table-Leads
    | inr (inr (e, d)) ↦ subst₂ Leads (sym e) (sym d) pd-Leads
  ]

  init_paging-Words : Words s.frames → Words (init_paging t s).frames
  unfolding init_paging
  init_paging-Words words =
      let fit = statics.fits in
      fill_tables-Words t 5 _ (omega arith) (
        link_first-Words t 5 _ (λ k l. statics.pt_fits k l)
          (store-words t.pd_ptr_table 0 _ _ (entry_fits t.pd fit.2) (
            store-words t.pml4 0 _ _ (entry_fits t.pd_ptr_table fit.1) (
              store-words t.pml4 511 _ _ (entry_fits t.pml4 fit.0) (
                clear_table-Words t.pd _ (
                  clear_table-Words t.pd_ptr_table _ (clear_table-Words t.pml4 s.frames words)))))))

  identity : (addr : ℕ) → addr < 0xA00000 → walk (init_paging t s).frames t.pml4 addr ≡ some addr
  unfolding walk
  identity addr l =
      let m' = after t statics s in
      let k = addr / 2 ^ 21 in
      let i = addr / 2 ^ 12 % 512 in
      let zero4 : addr / 2 ^ 39 % 512 ≡ 0 = omega arith in
      let zero3 : addr / 2 ^ 30 % 512 ≡ 0 = omega arith in
      let same2 : addr / 2 ^ 21 % 512 ≡ k = omega arith in
      let step4 =
        ap (λ j. follow (m' t.pml4 j)) zero4
        ∙ ap follow (pml4_first t statics s)
        ∙ follow-entry t.pd_ptr_table (omega (arith, statics.fits.1)) in
      let step3 =
        ap (λ j. follow (m' t.pd_ptr_table j)) zero3
        ∙ ap follow (pd_ptr_table_first t statics s)
        ∙ follow-entry t.pd (omega (arith, statics.fits.2)) in
      let step2 =
        ap (λ j. follow (m' t.pd j)) same2
        ∙ ap follow (pd_entry t statics s k (omega arith))
        ∙ follow-entry (t.pt k) (omega (arith, statics.pt_fits k (omega arith))) in
      let step1 =
        ap follow (pt_entry t statics s k i (omega arith) (omega arith))
        ∙ ap (λ a. follow (bit_or a 3)) (omega arith)
        ∙ follow-entry (addr / 2 ^ 12) (omega arith) in
      rw (step4, step3, step2, step1) (ap some (omega arith))

  -- Where the static tables stand at different frames below 4 GiB, the words of memory are of 64
  -- bits and `current_pml4` is `pml4`, as it is initialised, `init_paging` leaves a tree of page
  -- tables with the recursive entry, as `mapf` needs it, and the processor's walk through it takes
  -- every address below 10 MiB to itself.
  pub init_paging-IsTree :
      s.current ≡ t.pml4
      → Words s.frames
      → IsTree (start_level t) (init_paging t s)
        × ((addr : ℕ) → addr < 0xA00000 → walk (init_paging t s).frames t.pml4 addr ≡ some addr)
  unfolding init_paging
  init_paging-IsTree current words = (
    record {
      same_top = current;
      top_level = rw (==_refl t.pml4) refl;
      recursive =
          ap follow (pml4_last t statics s) ∙ follow-entry t.pml4 (omega (arith, statics.fits.0));
      words = init_paging-Words words;
      down = λ n f i pos lev inside apart present. all-Leads n f pos lev i inside apart present;
    },
    identity,
  )
