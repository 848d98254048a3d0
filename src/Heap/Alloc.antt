-- ===== src/Heap/Alloc.antt =====
-- `kmalloc` of heap.c takes the first segment that serves.
use smpl_osv.Base.{
  ℕ, suc, ◌+◌, ◌-◌, ◌^◌, ◌≤◌, ◌<◌, ◌≡◌, refl, sym, ap, ◌∙◌, ◌≢◌, some, List, ◌∷◌, true, false,
  arith, ltb, ==_iff, ==_ne,
}
use smpl_osv.Base.Bits.{u64}
use smpl_osv.Heap.Block.{Memblock, Blocks, header_size}
use smpl_osv.Heap.Spec.{Seg, seg_end, first, Chain, Sorted, cover}
use smpl_osv.Heap.Chain.{
  cover-head, cover-head_range, cover-tail, cover-first, cover-below, first-bound, next-same,
  lo-le-hi, Chain-set_prev,
}
use smpl_osv.Heap.Cut.{
  split_self, split_new, split_next, split_other, unlink_self, unlink_next, unlink_prev,
  unlink_other, split_null, unlink_null,
}
use smpl_osv.Heap.{find_from, split, unlink, ptr}

pub find_from-exact :
    (fuel a size : ℕ) (m : Blocks)
    → a ≢ 0
    → (m a).size ≡ size
    → find_from (suc fuel) size a m ≡ some (a, m)
unfolding find_from
find_from-exact fuel a size m h e = rw (==_ne a 0 h, (==_iff (m a).size size).1 e)

pub find_from-split :
    (fuel a size : ℕ) (m : Blocks)
    → a ≢ 0
    → (m a).size ≢ size
    → size + header_size < 2 ^ 64
    → size + header_size < (m a).size
    → find_from (suc fuel) size a m ≡ some (a, split a size m)
unfolding find_from
find_from-split fuel a size m h e w l =
    let fits : ltb (u64 (size + header_size)) (m a).size ≡ true = ground arith in
    rw (==_ne a 0 h, ==_ne (m a).size size e, fits)

pub find_from-on :
    (fuel a n size : ℕ) (m : Blocks)
    → a ≢ 0
    → (m a).next ≡ n
    → (m a).size ≢ size
    → size + header_size < 2 ^ 64
    → (m a).size ≤ size + header_size
    → find_from (suc fuel) size a m ≡ find_from fuel size n m
unfolding find_from
find_from-on fuel a n size m h next e w l =
    let small : ltb (u64 (size + header_size)) (m a).size ≡ false = ground arith in
    rw (==_ne a 0 h, ==_ne (m a).size size e, small, next)

-- What is left when the block at `a` has been taken out of the chain `bs` behind `p`.
pub record Taken (m : Blocks) (p want : ℕ) (bs : List Seg) (a : ℕ) (cs : List Seg) (m' : Blocks)
    : Type 0 where
  pub chain : Chain m' p cs
  pub parent : p ≢ 0 → m' p ≡ record (m p) { next = first cs }
  pub size : (m' a).size ≡ want
  pub was_first : first bs ≡ a → (m' a).next ≡ first cs
  pub was_later : first bs ≢ a → first cs ≡ first bs
  pub same : (x : ℕ) → cover x bs ≡ 0 → x ≢ 0 → x ≢ p → m' x ≡ m x
  pub null : m' 0 ≡ m 0

-- The taken block fits exactly.
pub Taken-exact :
    (m : Blocks) (p hi a s : ℕ) (bs : List Seg)
    → 0 < a
    → p < a
    → Sorted (seg_end a s) hi bs
    → Chain m p ((a, s) ∷ bs)
    → Taken m p s ((a, s) ∷ bs) a bs (unlink a m)
Taken-exact m p hi a s bs pos l o (size, prev, next, rest) =
    let b = first-bound (seg_end a s) hi bs o in
    let c≢a : first bs ≢ a = omega arith in
    let p≢a : p ≢ a = omega arith in
    let self = unlink_self m a (first bs) p next prev c≢a p≢a in
    let other = unlink_other m a (first bs) p next prev c≢a p≢a in
    record {
      chain =
          Chain-set_prev m (unlink a m) a p (seg_end a s) hi bs (omega arith) o
            (λ z. unlink_next m a (first bs) p next prev c≢a p≢a z (omega arith))
            (λ x lx nx. other x (omega arith) nx (omega arith)) rest;
      parent = λ z. unlink_prev m a (first bs) p next prev c≢a p≢a z (omega arith);
      size = ap (λ r. r.size) self ∙ size;
      was_first = λ e. ap (λ r. r.next) self ∙ next;
      was_later = λ e. absurd (e refl);
      same = λ x u z xp. other x z (cover-first x bs (cover-tail x a s bs u) z) xp;
      null = unlink_null m a (first bs) p next prev c≢a p≢a (omega arith);
    }

-- The taken block is cut off the front of a larger one.
pub Taken-split :
    (m : Blocks) (p hi a s want : ℕ) (bs : List Seg)
    → 0 < a
    → p < a
    → want + header_size < s
    → Sorted (seg_end a s) hi bs
    → hi < 2 ^ 64
    → Chain m p ((a, s) ∷ bs)
    → Taken m p want
        ((a, s) ∷ bs)
        a
        ((seg_end a want, s - want - header_size) ∷ bs)
        (unlink a (split a want m))
Taken-split m p hi a s want bs pos l fits o w (size, prev, next, rest) =
    let n = seg_end a want in
    let c = first bs in
    let top = lo-le-hi (seg_end a s) hi bs o in
    let b = first-bound (seg_end a s) hi bs o in
    let at : u64 (ptr a + want) ≡ n = omega arith in
    let c≢a : c ≢ a = omega arith in
    let c≢n : c ≢ n = omega arith in
    let n≢a : n ≢ a = omega arith in
    let p≢a : p ≢ a = omega arith in
    let self = split_self m a n c want at next n≢a c≢a c≢n in
    let new = split_new m a n c want at next n≢a c≢a c≢n in
    let other = split_other m a n c want at next n≢a c≢a c≢n in
    let m1 = split a want m in
    let next1 : (m1 a).next ≡ n = ap (λ r. r.next) self in
    let prev1 : (m1 a).prev ≡ p = ap (λ r. r.prev) self ∙ prev in
    let self' = unlink_self m1 a n p next1 prev1 n≢a p≢a in
    let new' = unlink_next m1 a n p next1 prev1 n≢a p≢a (omega arith) (omega arith) in
    let other' = unlink_other m1 a n p next1 prev1 n≢a p≢a in
    record {
      chain = (
        ap (λ r. r.size) new' ∙ ap (λ r. r.size) new ∙ omega arith,
        ap (λ r. r.prev) new',
        ap (λ r. r.next) new' ∙ ap (λ r. r.next) new,
        Chain-set_prev m (unlink a m1) a n (seg_end a s) hi bs (omega arith) o
            (λ z. other' c z c≢n (omega arith) ∙ split_next m a n c want at next n≢a c≢a c≢n z)
            (λ x lx nx.
              other' x (omega arith) (omega arith) (omega arith)
              ∙ other x (omega arith) (omega arith) nx)
            rest,
      );
      parent = λ z.
          unlink_prev m1 a n p next1 prev1 n≢a p≢a z (omega arith)
          ∙ ap {A = Memblock} (λ r. record r { next = n })
              (other p p≢a (omega arith) (omega arith));
      size = ap (λ r. r.size) self' ∙ ap (λ r. r.size) self;
      was_first = λ e. ap (λ r. r.next) self' ∙ next1;
      was_later = λ e. absurd (e refl);
      same = λ x u z xp.
          let out = cover-head_range x a s bs u in
          let x≢c = cover-first x bs (cover-tail x a s bs u) z in
          other' x z (omega arith) xp ∙ other x (omega arith) (omega arith) x≢c;
      null =
          unlink_null m1 a n p next1 prev1 n≢a p≢a (omega arith)
          ∙ split_null m a n c want at next n≢a c≢a c≢n (omega arith) (omega arith);
    }

-- The search passes over a segment that does not serve.
pub Taken-later :
    (m : Blocks) (p hi b t want a : ℕ) (bs cs : List Seg) (m' : Blocks)
    → 0 < b
    → p < b
    → a ≢ b
    → Sorted (seg_end b t) hi bs
    → Chain m p ((b, t) ∷ bs)
    → (p ≢ 0 → (m p).next ≡ b)
    → Taken m b want bs a cs m'
    → Taken m p want ((b, t) ∷ bs) a ((b, t) ∷ cs) m'
Taken-later m p hi b t want a bs cs m' pos l ne o (size, prev, next, rest) link k =
    let b_new = k.parent (omega arith) in
    record {
      chain = (
        ap (λ r. r.size) b_new ∙ size,
        ap (λ r. r.prev) b_new ∙ prev,
        ap (λ r. r.next) b_new,
        k.chain,
      );
      parent = λ z.
          k.same p (cover-below p (seg_end b t) hi bs o (omega arith)) z (omega arith)
          ∙ next-same (m p) b (link z);
      size = k.size;
      was_first = λ e. absurd (ne (sym e));
      was_later = λ e. refl;
      same = λ x u z xp. k.same x (cover-tail x b t bs u) z (cover-head x b t bs u);
      null = k.null;
    }
