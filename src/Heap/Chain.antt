-- ===== src/Heap/Chain.antt =====
-- How a chain of headers reacts to writes.
use smpl_osv.Base.{
  ℕ, ◌+◌, ◌*◌, ◌≤◌, ◌<◌, ◌≡◌, refl, ap, ◌∙◌, ◌≢◌, List, [], ◌∷◌, arith, length, ◌⊎◌, inl, inr,
}
use smpl_osv.Heap.Block.{Memblock, Blocks, header_size}
use smpl_osv.Heap.Spec.{Seg, seg_end, first, Chain, Sorted, cover}

pub cover-head : (x a s : ℕ) (bs : List Seg) → cover x ((a, s) ∷ bs) ≡ 0 → x ≢ a
unfolding cover
cover-head x a s bs h = ground arith

pub cover-tail : (x a s : ℕ) (bs : List Seg) → cover x ((a, s) ∷ bs) ≡ 0 → cover x bs ≡ 0
unfolding cover
cover-tail x a s bs h = ground arith

pub cover-first : (x : ℕ) (bs : List Seg) → cover x bs ≡ 0 → x ≢ 0 → x ≢ first bs
cover-first x [] h p = p
cover-first x ((a, s) ∷ bs) h p = cover-head x a s bs h

pub cover-head_range :
    (x a s : ℕ) (bs : List Seg) → cover x ((a, s) ∷ bs) ≡ 0 → (x < a) ⊎ (seg_end a s ≤ x)
unfolding cover
cover-head_range x a s bs h = ground arith

pub lo-le-hi : (lo hi : ℕ) (bs : List Seg) → Sorted lo hi bs → lo ≤ hi
lo-le-hi lo hi [] h = h
lo-le-hi lo hi ((a, s) ∷ bs) h = omega (arith, lo-le-hi (seg_end a s) hi bs h.1)

-- Nothing below the lower end is covered.
pub cover-below : (x lo hi : ℕ) (bs : List Seg) → Sorted lo hi bs → x < lo → cover x bs ≡ 0
unfolding cover
cover-below x lo hi [] h l = refl
cover-below x lo hi ((a, s) ∷ bs) h l =
    ground (arith, cover-below x (seg_end a s) hi bs h.1 (omega arith))

-- The first segment is NULL or begins at the lower end or above it.
pub first-bound : (lo hi : ℕ) (bs : List Seg) → Sorted lo hi bs → (first bs ≡ 0) ⊎ (lo ≤ first bs)
first-bound lo hi [] h = inl refl
first-bound lo hi ((a, s) ∷ bs) h = inr h.0

pub Sorted-weaken : (lo lo' hi : ℕ) (bs : List Seg) → lo' ≤ lo → Sorted lo hi bs → Sorted lo' hi bs
Sorted-weaken lo lo' hi [] l h = omega arith
Sorted-weaken lo lo' hi ((a, s) ∷ bs) l h = (omega arith, h.1)

pub length-Sorted :
    (lo hi : ℕ) (bs : List Seg) → Sorted lo hi bs → lo + length bs * header_size ≤ hi
length-Sorted lo hi [] h = omega arith
length-Sorted lo hi ((a, s) ∷ bs) h = omega (arith, length-Sorted (seg_end a s) hi bs h.1)

-- A chain depends only on the memory between its ends.
pub Chain-frame :
    (m m' : Blocks) (prev lo hi : ℕ) (bs : List Seg)
    → Sorted lo hi bs
    → ((x : ℕ) → lo ≤ x → x < hi → m' x ≡ m x)
    → Chain m prev bs
    → Chain m' prev bs
Chain-frame m m' prev lo hi [] o same c = tt
Chain-frame m m' prev lo hi ((a, s) ∷ bs) o same (size, back, next, rest) =
    let top = lo-le-hi (seg_end a s) hi bs o.1 in
    let e = same a o.0 (omega arith) in
    (
      ap (λ b. b.size) e ∙ size,
      ap (λ b. b.prev) e ∙ back,
      ap (λ b. b.next) e ∙ next,
      Chain-frame m m' a (seg_end a s) hi bs o.1 (λ x l u. same x (omega arith) u) rest,
    )

pub Sorted-raise : (lo hi hi' : ℕ) (bs : List Seg) → hi ≤ hi' → Sorted lo hi bs → Sorted lo hi' bs
Sorted-raise lo hi hi' [] l h = omega arith
Sorted-raise lo hi hi' ((a, s) ∷ bs) l h = (h.0, Sorted-raise (seg_end a s) hi hi' bs l h.1)

-- A new predecessor: only the first header is written.
pub Chain-set_prev :
    (m m' : Blocks) (prev q lo hi : ℕ) (bs : List Seg)
    → 0 < lo
    → Sorted lo hi bs
    → (first bs ≢ 0 → m' (first bs) ≡ record (m (first bs)) { prev = q })
    → ((x : ℕ) → lo ≤ x → x ≢ first bs → m' x ≡ m x)
    → Chain m prev bs
    → Chain m' q bs
Chain-set_prev m m' prev q lo hi [] pos o e same c = tt
Chain-set_prev m m' prev q lo hi ((a, s) ∷ bs) pos o e same (size, back, next, rest) =
    let e' = e (omega arith) in
    (
      ap (λ b. b.size) e' ∙ size,
      ap (λ b. b.prev) e',
      ap (λ b. b.next) e' ∙ next,
      Chain-frame m m' a (seg_end a s) hi bs o.1 (λ x l _. same x (omega arith) (omega arith)) rest,
    )

-- A header whose `next` is already what is written to it.
pub next-same : (r : Memblock) (n : ℕ) → r.next ≡ n → r ≡ record r { next = n }
next-same r n e = ap (λ k. record r { next = k }) e
