-- ===== src/Heap/Cover.antt =====
-- The bytes of the segments under the operations of the free list.
use smpl_osv.Base.{
  ℕ, ◌+◌, ◌-◌, ◌≤◌, ◌≡◌, refl, ◌∙◌, some, List, [], ◌∷◌, arith, ◌==◌, ltb, inl, inr, Bool-cases,
  ==_iff, if◌then◌else◌,
}
use smpl_osv.Heap.Block.{header_size}
use smpl_osv.Heap.Spec.{
  Seg, seg_end, Sorted, within, cover, first_fit, insert, merge_onto, coalesce,
}
use smpl_osv.Heap.Search.{round-cases, first_fit-exact, first_fit-split, first_fit-later}

-- One for a byte of the segment.
abbrev pub one_if : ℕ → ℕ → ℕ → ℕ
one_if x a s = if within x a s then 1 else 0

pub cover-first_fit :
    (x want a : ℕ) (bs cs : List Seg)
    → first_fit want bs ≡ some (a, cs)
    → cover x bs ≡ one_if x a want + cover x cs
unfolding cover
cover-first_fit x want a [] cs e = absurd (unfold first_fit in cc)
cover-first_fit x want a ((b, t) ∷ bs) cs e = elim (round-cases want t) [
  | inl exact ↦
      let at : b ≡ a = cc (first_fit-exact want b t bs exact) in
      let rest : bs ≡ cs = cc (first_fit-exact want b t bs exact) in rw (exact, at, rest)
  | inr (inl fits) ↦
      let at : b ≡ a = cc (first_fit-split want b t bs fits) in
      let rest : (seg_end b want, t - want - header_size) ∷ bs ≡ cs =
        cc (first_fit-split want b t bs fits) in
      rw (← rest, ← at) (ground arith)
  | inr (inr (ne, small)) ↦
      let (ds, e', shape) = first_fit-later want b t a bs cs ne small e in
      rw shape (omega (arith, cover-first_fit x want a bs ds e'))
]

pub cover-merge_onto :
    (x a s : ℕ) (bs : List Seg) → cover x (merge_onto a s bs) ≡ cover x ((a, s) ∷ bs)
unfolding cover merge_onto
cover-merge_onto x a s [] = refl
cover-merge_onto x a s ((b, t) ∷ bs) = elim (Bool-cases (seg_end a s == b)) [
  | inl touch ↦
      let e = (==_iff (seg_end a s) b).0 touch in
      rw touch (cover-merge_onto x a (s + t + header_size) bs ∙ ground arith)
  | inr gap ↦ rw gap (omega (arith, cover-merge_onto x b t bs))
]

pub cover-coalesce : (x : ℕ) (bs : List Seg) → cover x (coalesce bs) ≡ cover x bs
unfolding coalesce
cover-coalesce x [] = refl
cover-coalesce x ((a, s) ∷ bs) = cover-merge_onto x a s bs

-- A block that shares no byte with the segments fits between them.
pub Sorted-insert :
    (lo hi a s : ℕ) (bs : List Seg)
    → Sorted lo hi bs
    → lo ≤ a
    → seg_end a s ≤ hi
    → ((x : ℕ) → one_if x a s + cover x bs ≤ 1)
    → Sorted lo hi (insert a s bs)
unfolding insert cover
Sorted-insert lo hi a s [] o l u apart = (l, u)
Sorted-insert lo hi a s ((b, t) ∷ bs) o l u apart = elim (Bool-cases (ltb a b)) [
  | inl h ↦ let below : seg_end a s ≤ b = ground (arith, apart b) in rw h (l, (below, o.1))
  | inr h ↦
      let above : seg_end b t ≤ a = ground (arith, apart a) in
      rw h (o.0, Sorted-insert (seg_end b t) hi a s bs o.1 above u (λ x. omega (arith, apart x)))
]
