-- ===== src/Heap/Merge.antt =====
-- `merge_blocks` of heap.c joins the segments that touch.
use smpl_osv.Base.{
  ℕ, zero, suc, ◌+◌, ◌^◌, ◌<◌, ◌≡◌, refl, sym, ap, ◌∙◌, ◌≢◌, List, [], ◌∷◌, arith, length, ◌==◌,
  inl, inr, ==_ne, ==_iff, ==_refl, update, Bool-cases, some,
}
use mathlib.Core.Path.{subst}
use smpl_osv.Base.Bits.{u64}
use smpl_osv.Heap.Block.{Memblock, Blocks, header_size, set_next, set_prev, set_size}
use smpl_osv.Heap.Spec.{Seg, seg_end, first, Chain, Sorted, cover, merge_onto}
use smpl_osv.Heap.Chain.{
  cover-head, cover-first, cover-tail, cover-below, lo-le-hi, first-bound, Sorted-weaken,
  Chain-set_prev,
}
use smpl_osv.Heap.{absorb, merge_from, ptr}

module _ (m : Blocks) (a b c s t : ℕ) (apart : b ≢ a) (behind : c ≢ a) (size : (m a).size ≡ s)
    (next : (m a).next ≡ b) (size' : (m b).size ≡ t) (next' : (m b).next ≡ c)
    (fits : s + t + header_size < 2 ^ 64) where
  absorb_self : absorb a m a ≡ record (m a) { size = s + t + header_size; next = c }
  unfolding absorb set_size set_next set_prev update
  absorb_self = ground arith

  absorb_next : absorb a m c ≡ record (m c) { prev = a }
  unfolding absorb set_size set_next set_prev update
  absorb_next = ground arith

  absorb_other : (x : ℕ) → x ≢ a → x ≢ c → absorb a m x ≡ m x
  unfolding absorb set_size set_next set_prev update
  absorb_other x p q = ground arith

pub first-merge_onto : (a s : ℕ) (bs : List Seg) → first (merge_onto a s bs) ≡ a
unfolding merge_onto
first-merge_onto a s [] = refl
first-merge_onto a s ((b, t) ∷ bs) = ground (arith, first-merge_onto a (s + t + header_size) bs)

merge_from-absorb :
    (fuel a : ℕ) (m : Blocks)
    → a ≢ 0
    → u64 (ptr a + (m a).size) ≡ (m a).next
    → merge_from (suc fuel) a m ≡ merge_from fuel a (absorb a m)
unfolding merge_from
merge_from-absorb fuel a m p e = rw (==_ne a 0 p, e, ==_refl ((m a).next))

merge_from-on :
    (fuel a n : ℕ) (m : Blocks)
    → a ≢ 0
    → (m a).next ≡ n
    → u64 (ptr a + (m a).size) ≢ (m a).next
    → merge_from (suc fuel) a m ≡ merge_from fuel n m
unfolding merge_from
merge_from-on fuel a n m p next e = rw (==_ne a 0 p, ==_ne _ _ e, next)

merge_from-end : (fuel : ℕ) (m : Blocks) → merge_from (suc fuel) 0 m ≡ some m
unfolding merge_from
merge_from-end fuel m = refl

-- Of the header at address 0 at most `prev` has changed.
abbrev pub NullPrev : Blocks → Blocks → Type 0
NullPrev m m' = m' 0 ≡ record (m 0) { prev = (m' 0).prev }

NullPrev-set : (m m' : Blocks) (q : ℕ) → m' 0 ≡ record (m 0) { prev = q } → NullPrev m m'
NullPrev-set m m' q e = e ∙ ap (λ k. record (m 0) { prev = k }) (sym (ap (λ r. r.prev) e))

pub NullPrev-trans : (m m' m'' : Blocks) → NullPrev m m' → NullPrev m' m'' → NullPrev m m''
NullPrev-trans m m' m'' f g = g ∙ ap {A = Memblock} (λ r. record r { prev = (m'' 0).prev }) f

pub NullPrev-same : (m m' : Blocks) → m' 0 ≡ m 0 → NullPrev m m'
NullPrev-same m m' e = NullPrev-set m m' (m 0).prev e

abbrev pub Untouched : List Seg → Blocks → Blocks → Type 0
Untouched bs m m' = (x : ℕ) → cover x bs ≡ 0 → x ≢ 0 → m' x ≡ m x

absorb-Chain :
    (m : Blocks) (prev hi a s b t : ℕ) (bs : List Seg)
    → 0 < a
    → b ≡ seg_end a s
    → Sorted (seg_end b t) hi bs
    → seg_end b t < 2 ^ 64
    → Chain m prev ((a, s) ∷ (b, t) ∷ bs)
    → Chain (absorb a m) prev ((a, s + t + header_size) ∷ bs)
      × Untouched ((a, s) ∷ (b, t) ∷ bs) m (absorb a m)
      × NullPrev m (absorb a m)
absorb-Chain m prev hi a s b t bs pos e o fits (size, back, next, (size', back', next', rest)) =
    let c = first bs in
    let apart : b ≢ a = omega arith in
    let behind : c ≢ a = omega (arith, first-bound (seg_end b t) hi bs o) in
    let room : s + t + header_size < 2 ^ 64 = omega arith in
    let self = absorb_self m a b c s t apart behind size next size' next' room in
    let nxt = absorb_next m a b c s t apart behind size next size' next' room in
    let other = absorb_other m a b c s t apart behind size next size' next' room in
    (
      (
        ap (λ r. r.size) self,
        ap (λ r. r.prev) self ∙ back,
        ap (λ r. r.next) self,
        Chain-set_prev m (absorb a m) b a (seg_end b t) hi bs (omega arith) o (λ _. nxt)
            (λ x l p. other x (omega arith) p) rest,
      ),
      λ x u p.
          other x (cover-head x a s ((b, t) ∷ bs) u)
            (cover-first x bs (cover-tail x b t bs (cover-tail x a s ((b, t) ∷ bs) u)) p),
      elim (Bool-cases (c == 0)) [
        | inl h ↦
            NullPrev-set m (absorb a m) a
              (subst (λ k. absorb a m k ≡ record (m k) { prev = a }) ((==_iff c 0).0 h) nxt)
        | inr h ↦ NullPrev-same m (absorb a m) (other 0 (omega arith) (λ z. absurd (ground arith)))
      ],
    )

cover-joined :
    (x a s b t : ℕ) (bs : List Seg)
    → b ≡ seg_end a s
    → cover x ((a, s + t + header_size) ∷ bs) ≡ cover x ((a, s) ∷ (b, t) ∷ bs)
unfolding cover
cover-joined x a s b t bs e = ground arith

pub merge_from-merge_onto :
    (fuel : ℕ) (m : Blocks) (prev hi a s : ℕ) (bs : List Seg)
    → suc (length bs) < fuel
    → 0 < a
    → Sorted (seg_end a s) hi bs
    → hi < 2 ^ 64
    → Chain m prev ((a, s) ∷ bs)
    → (m' : Blocks) × (merge_from fuel a m ≡ some m')
      × Chain m' prev (merge_onto a s bs)
      × Untouched ((a, s) ∷ bs) m m'
      × NullPrev m m'
unfolding merge_onto
merge_from-merge_onto zero m prev hi a s bs f pos o w c = absurd (omega arith)
merge_from-merge_onto (suc zero) m prev hi a s bs f pos o w c = absurd (omega arith)
merge_from-merge_onto (suc (suc fuel)) m prev hi a s [] f pos o w (size, back, next, _) =
    let stop : u64 (ptr a + (m a).size) ≢ (m a).next = omega arith in
    (
      m,
      merge_from-on (suc fuel) a 0 m (omega arith) next stop ∙ merge_from-end fuel m,
      (size, back, next, tt),
      λ x u p. refl,
      refl,
    )
merge_from-merge_onto (suc fuel) m prev hi a s ((b, t) ∷ bs) f pos o w c =
    elim (Bool-cases (seg_end a s == b)) [
      | inl touch ↦
          let e : b ≡ seg_end a s = sym ((==_iff (seg_end a s) b).0 touch) in
          let top = lo-le-hi (seg_end b t) hi bs o.1 in
          let (c', same, null) = absorb-Chain m prev hi a s b t bs pos e o.1 (omega arith) c in
          let joins : u64 (ptr a + (m a).size) ≡ (m a).next = omega (arith, c.0, c.2) in
          let o' =
            Sorted-weaken (seg_end b t) (seg_end a (s + t + header_size)) hi bs (omega arith) o.1 in
          let (m', run, chain, rest, null') =
            merge_from-merge_onto fuel (absorb a m) prev hi a (s + t + header_size) bs (omega arith)
              pos o' w c' in
          rw touch (
            m',
            merge_from-absorb fuel a m (omega arith) joins ∙ run,
            chain,
            λ x u p. rest x (cover-joined x a s b t bs e ∙ u) p ∙ same x u p,
            NullPrev-trans m (absorb a m) m' null null',
          )
      | inr gap ↦
          let e : seg_end a s ≢ b = λ e. cc ((==_iff (seg_end a s) b).1 e) in
          let top = lo-le-hi (seg_end b t) hi bs o.1 in
          let parts : u64 (ptr a + (m a).size) ≢ (m a).next = omega (arith, c.0, c.2) in
          let (m', run, chain, rest, null') =
            merge_from-merge_onto fuel m a hi b t bs (omega arith) (omega arith) o.1 w c.3 in
          let out = cover-below a (seg_end a s) hi ((b, t) ∷ bs) o (omega arith) in
          let kept = rest a out (omega arith) in
          rw gap (
            m',
            merge_from-on fuel a b m (omega arith) c.2 parts ∙ run,
            (
              ap (λ r. r.size) kept ∙ c.0,
              ap (λ r. r.prev) kept ∙ c.1,
              ap (λ r. r.next) kept ∙ c.2 ∙ sym (first-merge_onto b t bs),
              chain,
            ),
            λ x u p. rest x (cover-tail x a s ((b, t) ∷ bs) u) p,
            null',
          )
    ]
