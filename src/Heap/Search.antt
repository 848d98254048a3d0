-- ===== src/Heap/Search.antt =====
-- The search of `find_free_block` in heap.c is the first fit of the segments.
use mathlib.Core.Path.{subst}
use smpl_osv.Base.{
  ℕ, zero, suc, ◌+◌, ◌-◌, ◌^◌, ◌≤◌, ◌<◌, ◌≡◌, refl, sym, ◌∙◌, ◌≢◌, none, some, List, [], ◌∷◌, arith,
  length, ◌⊎◌, ◌==◌, ltb, inl, inr, Bool-cases, Option-cases, some_inj, ==_iff, ltb→lt,
}
use smpl_osv.Heap.Block.{Blocks, header_size}
use smpl_osv.Heap.Spec.{Seg, seg_end, first, Chain, Sorted, first_fit}
use smpl_osv.Heap.Alloc.{
  Taken, Taken-exact, Taken-split, Taken-later, find_from-exact, find_from-split, find_from-on,
}
use smpl_osv.Heap.{find_from, unlink, split}

-- The search from the first of `bs` finds the block of the fit, and taking it out leaves the rest.
abbrev pub Finds : ℕ → Blocks → ℕ → ℕ → ℕ → List Seg → ℕ × List Seg → Type 0
Finds fuel m p lo want bs (a, cs) =
    (m1 : Blocks) × (find_from fuel want (first bs) m ≡ some (a, m1))
    × (lo ≤ a)
    × Taken m p want bs a cs (unlink a m1)

pub first_fit-exact :
    (want a s : ℕ) (bs : List Seg) → s ≡ want → first_fit want ((a, s) ∷ bs) ≡ some (a, bs)
unfolding first_fit
first_fit-exact want a s bs e = rw ((==_iff s want).1 e)

pub first_fit-split :
    (want a s : ℕ) (bs : List Seg)
    → want + header_size < s
    → first_fit want ((a, s) ∷ bs) ≡ some (a, (seg_end a want, s - want - header_size) ∷ bs)
unfolding first_fit
first_fit-split want a s bs l = ground arith

pub first_fit-on :
    (want a s : ℕ) (bs : List Seg)
    → s ≢ want
    → s ≤ want + header_size
    → first_fit want ((a, s) ∷ bs)
      ≡ elim (first_fit want bs) [ none ↦ none | some (b, cs) ↦ some (b, (a, s) ∷ cs) ]
unfolding first_fit
first_fit-on want a s bs e l = ground arith

-- The three ways of one round.
pub round-cases :
    (want s : ℕ) → (s ≡ want) ⊎ ((want + header_size < s) ⊎ ((s ≢ want) × (s ≤ want + header_size)))
round-cases want s = elim (Bool-cases (s == want)) [
  | inl e ↦ inl ((==_iff s want).0 e)
  | inr e ↦ elim (Bool-cases (ltb (want + header_size) s)) [
    | inl l ↦ inr (inl (ltb→lt (want + header_size) s l))
    | inr l ↦ inr (inr (ground arith, ground arith))
  ]
]

pub first_fit-later :
    (want b t a : ℕ) (bs cs : List Seg)
    → t ≢ want
    → t ≤ want + header_size
    → first_fit want ((b, t) ∷ bs) ≡ some (a, cs)
    → (ds : List Seg) × (first_fit want bs ≡ some (a, ds)) × (cs ≡ (b, t) ∷ ds)
first_fit-later want b t a bs cs ne l e = elim (Option-cases (first_fit want bs)) [
  | inl z ↦ absurd (ground (arith, first_fit-on want b t bs ne l))
  | inr ((a', ds), z) ↦ (
    ds,
    ground (arith, first_fit-on want b t bs ne l),
    ground (arith, first_fit-on want b t bs ne l),
  )
]

pub first_fit-none :
    (want b t : ℕ) (bs : List Seg)
    → t ≢ want
    → t ≤ want + header_size
    → first_fit want ((b, t) ∷ bs) ≡ none
    → first_fit want bs ≡ none
first_fit-none want b t bs ne l e = ground (arith, first_fit-on want b t bs ne l)

pub find_from-Finds :
    (fuel : ℕ) (m : Blocks) (p lo hi want : ℕ) (bs : List Seg) (a : ℕ) (cs : List Seg)
    → length bs < fuel
    → 0 < lo
    → p < lo
    → Sorted lo hi bs
    → hi < 2 ^ 64
    → want + header_size < 2 ^ 64
    → Chain m p bs
    → (p ≢ 0 → (m p).next ≡ first bs)
    → first_fit want bs ≡ some (a, cs)
    → Finds fuel m p lo want bs (a, cs)
find_from-Finds zero m p lo hi want bs a cs f pos l o w k c link e = absurd (omega arith)
find_from-Finds (suc fuel) m p lo hi want [] a cs f pos l o w k c link e =
    absurd (unfold first_fit in cc)
find_from-Finds (suc fuel) m p lo hi want ((b, t) ∷ bs) a cs f pos l o w k c link e =
    let b_pos : 0 < b = omega (arith, o.0) in
    elim (round-cases want t) [
      | inl exact ↦
          subst (Finds (suc fuel) m p lo want ((b, t) ∷ bs))
            (some_inj (b, bs) (a, cs) (sym (first_fit-exact want b t bs exact) ∙ e))
            (
              m,
              find_from-exact fuel b want m (omega arith) (c.0 ∙ exact),
              o.0,
              subst (λ v. Taken m p v ((b, t) ∷ bs) b bs (unlink b m)) exact
                  (Taken-exact m p hi b t bs b_pos (omega (arith, o.0)) o.1 c),
            )
      | inr (inl fits) ↦
          subst (Finds (suc fuel) m p lo want ((b, t) ∷ bs))
            (some_inj (b, (seg_end b want, t - want - header_size) ∷ bs) (a, cs)
              (sym (first_fit-split want b t bs fits) ∙ e))
            (
              split b want m,
              find_from-split fuel b want m (omega arith) (omega (arith, c.0)) k
                  (omega (arith, c.0)),
              o.0,
              Taken-split m p hi b t want bs b_pos (omega (arith, o.0)) fits o.1 w c,
            )
      | inr (inr (ne, small)) ↦
          let (ds, e', shape) = first_fit-later want b t a bs cs ne small e in
          let (m1, run, above, taken) =
            find_from-Finds fuel m b (seg_end b t) hi want bs a ds (omega arith) (omega arith)
              (omega arith) o.1 w k c.3 (λ _. c.2) e' in
          subst (λ v. Finds (suc fuel) m p lo want ((b, t) ∷ bs) (a, v)) (sym shape)
            (
              m1,
              find_from-on fuel b (first bs) want m (omega arith) c.2 (λ z. ne (sym c.0 ∙ z)) k
                    (omega (arith, c.0))
                  ∙ run,
              omega (arith, o.0),
              Taken-later m p hi b t want a bs ds (unlink a m1) b_pos (omega (arith, o.0))
                  (omega arith) o.1 c link taken,
            )
    ]

-- Where nothing serves the search returns NULL and has written nothing.
pub find_from-none :
    (fuel : ℕ) (m : Blocks) (p lo hi want : ℕ) (bs : List Seg)
    → length bs < fuel
    → 0 < lo
    → Sorted lo hi bs
    → want + header_size < 2 ^ 64
    → Chain m p bs
    → first_fit want bs ≡ none
    → find_from fuel want (first bs) m ≡ some (0, m)
find_from-none zero m p lo hi want bs f pos o k c e = absurd (omega arith)
find_from-none (suc fuel) m p lo hi want [] f pos o k c e = unfold find_from in refl
find_from-none (suc fuel) m p lo hi want ((b, t) ∷ bs) f pos o k c e = elim (round-cases want t) [
  | inl exact ↦ absurd (cc (first_fit-exact want b t bs exact))
  | inr (inl fits) ↦ absurd (cc (first_fit-split want b t bs fits))
  | inr (inr (ne, small)) ↦
      find_from-on fuel b (first bs) want m (omega (arith, o.0)) c.2 (λ z. ne (sym c.0 ∙ z)) k
        (omega (arith, c.0))
      ∙ find_from-none fuel m b (seg_end b t) hi want bs (omega arith) (omega arith) o.1 k c.3
          (first_fit-none want b t bs ne small e)
]
