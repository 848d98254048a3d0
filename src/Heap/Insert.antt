-- ===== src/Heap/Insert.antt =====
-- `kfree` of heap.c puts a block into the list in address order.
use smpl_osv.Base.{
  ℕ, zero, suc, ◌≤◌, ◌<◌, ◌≡◌, refl, ap, ◌∙◌, ◌≢◌, some, List, [], ◌∷◌, arith, length, ◌⊎◌, ltb,
  inl, inr, update, Bool-cases,
}
use smpl_osv.Heap.Block.{Blocks, set_next, set_prev}
use smpl_osv.Heap.Spec.{Seg, seg_end, first, Chain, Sorted, cover, insert}
use smpl_osv.Heap.Chain.{
  cover-head, cover-first, cover-tail, cover-below, first-bound, next-same, Chain-set_prev,
}
use smpl_osv.Heap.{insert_after, find_parent}

module _ (m : Blocks) (p a c : ℕ) (next : (m p).next ≡ c) (p≢a : p ≢ a) (c≢a : c ≢ a)
    (c≢p : c ≢ p) where
  insert_after_self : insert_after p a m a ≡ record (m a) { next = c; prev = p }
  unfolding insert_after set_next set_prev update
  insert_after_self = ground arith

  insert_after_parent : insert_after p a m p ≡ record (m p) { next = a }
  unfolding insert_after set_next set_prev update
  insert_after_parent = ground arith

  insert_after_next : c ≢ 0 → insert_after p a m c ≡ record (m c) { prev = a }
  unfolding insert_after set_next set_prev update
  insert_after_next h = ground arith

  insert_after_null : p ≢ 0 → a ≢ 0 → insert_after p a m 0 ≡ m 0
  unfolding insert_after set_next set_prev update
  insert_after_null h k = ground arith

  insert_after_other : (x : ℕ) → x ≢ a → x ≢ p → x ≢ c → insert_after p a m x ≡ m x
  unfolding insert_after set_next set_prev update
  insert_after_other x h k l = ground arith

find_parent-on :
    (fuel p a n : ℕ) (m : Blocks)
    → (m p).next ≡ n
    → n ≢ 0
    → n < a
    → find_parent (suc fuel) p a m ≡ find_parent fuel n a m
unfolding find_parent
find_parent-on fuel p a n m e h l = ground arith

find_parent-stop :
    (fuel p a n : ℕ) (m : Blocks)
    → (m p).next ≡ n
    → (n ≡ 0) ⊎ (a ≤ n)
    → find_parent (suc fuel) p a m ≡ some p
unfolding find_parent
find_parent-stop fuel p a n m e (inl z) = ground arith
find_parent-stop fuel p a n m e (inr l) = ground arith

pub lo-le-insert : (a s lo hi : ℕ) (bs : List Seg) → Sorted lo hi (insert a s bs) → lo ≤ a
unfolding insert
lo-le-insert a s lo hi [] o = o.0
lo-le-insert a s lo hi ((b, t) ∷ bs) o = elim (Bool-cases (ltb a b)) [
  | inl h ↦ (rw h at o).0
  | inr h ↦ let o' = rw h at o in omega (arith, lo-le-insert a s (seg_end b t) hi bs o'.1, o'.0)
]

-- What the insertion behind `p` leaves: the chain with the new segment, and `p` linked to it.
pub record Placed (m : Blocks) (p a s : ℕ) (bs : List Seg) (q : ℕ) : Type 0 where
  pub chain : Chain (insert_after q a m) p (insert a s bs)
  pub parent : insert_after q a m p ≡ record (m p) { next = first (insert a s bs) }
  pub same : (x : ℕ) → cover x bs ≡ 0 → x ≢ 0 → x ≢ a → x ≢ p → insert_after q a m x ≡ m x
  pub null : insert_after q a m 0 ≡ m 0

Placed-here :
    (m : Blocks) (p hi a s : ℕ) (bs : List Seg)
    → insert a s bs ≡ (a, s) ∷ bs
    → 0 < p
    → p < a
    → Sorted (seg_end a s) hi bs
    → (m p).next ≡ first bs
    → (m a).size ≡ s
    → Chain m p bs
    → Placed m p a s bs p
Placed-here m p hi a s bs here pos l o next size c =
    let b = first-bound (seg_end a s) hi bs o in
    let c≢a : first bs ≢ a = omega arith in
    let c≢p : first bs ≢ p = omega arith in
    let p≢a : p ≢ a = omega arith in
    let self = insert_after_self m p a (first bs) next p≢a c≢a c≢p in
    let other = insert_after_other m p a (first bs) next p≢a c≢a c≢p in
    record {
      chain = rw here (
        ap (λ r. r.size) self ∙ size,
        ap (λ r. r.prev) self,
        ap (λ r. r.next) self,
        Chain-set_prev m (insert_after p a m) p a (seg_end a s) hi bs (omega arith) o
            (insert_after_next m p a (first bs) next p≢a c≢a c≢p)
            (λ x lx nx. other x (omega arith) (omega arith) nx) c,
      );
      parent = rw here (insert_after_parent m p a (first bs) next p≢a c≢a c≢p);
      same = λ x u z xa xp. other x xa xp (cover-first x bs u z);
      null = insert_after_null m p a (first bs) next p≢a c≢a c≢p (omega arith) (omega arith);
    }

pub find_parent-Placed :
    (fuel : ℕ) (m : Blocks) (p lo hi a s : ℕ) (bs : List Seg)
    → length bs < fuel
    → 0 < p
    → p < lo
    → Sorted lo hi (insert a s bs)
    → Sorted lo hi bs
    → (m p).next ≡ first bs
    → (m a).size ≡ s
    → Chain m p bs
    → (q : ℕ) × (find_parent fuel p a m ≡ some q) × Placed m p a s bs q
find_parent-Placed zero m p lo hi a s bs f pos l o o' next size c = absurd (omega arith)
find_parent-Placed (suc fuel) m p lo hi a s [] f pos l o o' next size c = (
  p,
  find_parent-stop fuel p a 0 m next (inl refl),
  Placed-here m p hi a s [] (unfold insert in refl) pos (omega (arith, lo-le-insert a s lo hi [] o))
      (unfold insert in o.1) next size c,
)
find_parent-Placed (suc fuel) m p lo hi a s ((b, t) ∷ bs) f pos l o o' next size c =
    elim (Bool-cases (ltb a b)) [
      | inl before ↦
          let here : insert a s ((b, t) ∷ bs) ≡ (a, s) ∷ (b, t) ∷ bs = unfold insert in rw before in
          let fits = rw here at o in
          (
            p,
            find_parent-stop fuel p a b m next (inr (omega (arith, fits.1.0))),
            Placed-here m p hi a s ((b, t) ∷ bs) here pos (omega arith) fits.1 next size c,
          )
      | inr after ↦
          let on : insert a s ((b, t) ∷ bs) ≡ (b, t) ∷ insert a s bs = unfold insert in rw after in
          let fits = rw on at o in
          let b<a = lo-le-insert a s (seg_end b t) hi bs fits.1 in
          let (q, run, placed) =
            find_parent-Placed fuel m b (seg_end b t) hi a s bs (omega arith) (omega arith)
              (omega arith) fits.1 o'.1 c.2 size c.3 in
          let p_kept =
            placed.same p (cover-below p (seg_end b t) hi bs o'.1 (omega arith)) (omega arith)
              (omega arith) (omega arith) in
          let b_new = placed.parent in
          (
            q,
            find_parent-on fuel p a b m next (omega arith) (omega arith) ∙ run,
            record {
              chain = rw on (
                ap (λ r. r.size) b_new ∙ c.0,
                ap (λ r. r.prev) b_new ∙ c.1,
                ap (λ r. r.next) b_new,
                placed.chain,
              );
              parent = rw on (p_kept ∙ next-same (m p) b next);
              same =
                  λ x u z xa xp. placed.same x (cover-tail x b t bs u) z xa (cover-head x b t bs u);
              null = placed.null;
            },
          )
    ]
