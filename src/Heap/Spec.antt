-- ===== src/Heap/Spec.antt =====
-- The free list of heap.c as a list of segments (address of the header, bytes behind the header) in
-- address order: how it lies in memory, and what the operations do to it.
use smpl_osv.Base.{
  ℕ, ◌+◌, ◌-◌, ◌≤◌, ◌<◌, ◌≡◌, Bool, ◌&&◌, Option, none, some, List, [], ◌∷◌, ltb, leb, ◌==◌,
  if◌then◌else◌,
}
use smpl_osv.Heap.Block.{Blocks, header_size}

abbrev pub Seg : Type 0
Seg = ℕ × ℕ

-- Where the next segment begins at the earliest.
abbrev pub seg_end : ℕ → ℕ → ℕ
seg_end a s = a + header_size + s

abbrev pub first : List Seg → ℕ
first [] = 0
first ((a, s) ∷ bs) = a

-- The headers of the segments hold their sizes and are linked both ways; `prev` is before the
-- first.
abbrev pub Chain : Blocks → ℕ → List Seg → Type 0
Chain m prev [] = Unit
Chain m prev ((a, s) ∷ bs) =
    ((m a).size ≡ s) × ((m a).prev ≡ prev) × ((m a).next ≡ first bs) × Chain m a bs

-- The segments lie apart, in address order, between `lo` and `hi`.
abbrev pub Sorted : ℕ → ℕ → List Seg → Type 0
Sorted lo hi [] = lo ≤ hi
Sorted lo hi ((a, s) ∷ bs) = (lo ≤ a) × Sorted (seg_end a s) hi bs

abbrev pub within : ℕ → ℕ → ℕ → Bool
within x a s = leb a x && ltb x (seg_end a s)

-- How many of the segments a byte lies in.
unfoldable pub cover : ℕ → List Seg → ℕ
cover x [] = 0
cover x ((a, s) ∷ bs) = (if within x a s then 1 else 0) + cover x bs

-- The first segment that fits exactly, or from whose front the bytes can be cut.
unfoldable pub first_fit : ℕ → List Seg → Option (ℕ × List Seg)
first_fit size [] = none
first_fit size ((a, s) ∷ bs) =
    let rest = first_fit size bs in
    if s == size
    then some (a, bs)
    else if ltb (size + header_size) s
    then some (a, (seg_end a size, s - size - header_size) ∷ bs)
    else elim rest [ none ↦ none | some (b, cs) ↦ some (b, (a, s) ∷ cs) ]

-- Insertion in address order.
unfoldable pub insert : ℕ → ℕ → List Seg → List Seg
insert a s [] = (a, s) ∷ []
insert a s ((b, t) ∷ bs) = if ltb a b then (a, s) ∷ (b, t) ∷ bs else (b, t) ∷ insert a s bs

-- Segments that touch become one.
unfoldable pub merge_onto : ℕ → ℕ → List Seg → List Seg
merge_onto a s [] = (a, s) ∷ []
merge_onto a s ((b, t) ∷ bs) =
    let one = merge_onto a (s + t + header_size) bs in
    let two = (a, s) ∷ merge_onto b t bs in if seg_end a s == b then one else two

unfoldable pub coalesce : List Seg → List Seg
unfolding merge_onto
coalesce [] = []
coalesce ((a, s) ∷ bs) = merge_onto a s bs

-- No two neighbours touch.
abbrev pub Apart : List Seg → Type 0
Apart [] = Unit
Apart ((a, s) ∷ []) = Unit
Apart ((a, s) ∷ (b, t) ∷ bs) = (seg_end a s < b) × Apart ((b, t) ∷ bs)
