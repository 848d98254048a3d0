-- ===== src/Heap/System.antt =====
-- The heap of heap.c among clients that free only what they were given: in every reachable state
-- the blocks in use and the free segments together tile the heap.
use smpl_osv.Base.{
  ℕ, ◌+◌, ◌^◌, ◌≤◌, ◌<◌, ◌≡◌, ap, ◌∙◌, ◌≢◌, Bool, true, false, ◌&&◌, ◌||◌, List, [], ◌∷◌, All,
  arith, ◌==◌, ltb, leb, inl, inr, Bool-cases, if◌then◌else◌,
}
use smpl_osv.Heap.Block.{header_size}
use smpl_osv.Heap.Spec.{Seg, cover}
use smpl_osv.Heap.Wf.{IsWf}
use smpl_osv.Heap.Cover.{one_if}
use smpl_osv.Heap.{Heap, ok, heap_start, ptr, hdr, kmalloc, kfree}

-- The heap, and the blocks that the clients hold: header address and requested bytes.
pub record System : Type 0 where
  pub heap : Heap
  pub used : List Seg

abbrev pub is_seg : ℕ → ℕ → ℕ → ℕ → Bool
is_seg a s b t = b == a && t == s

unfoldable pub holds : ℕ → ℕ → List Seg → Bool
holds a s [] = false
holds a s ((b, t) ∷ us) = is_seg a s b t || holds a s us

unfoldable pub remove : ℕ → ℕ → List Seg → List Seg
remove a s [] = []
remove a s ((b, t) ∷ us) = if is_seg a s b t then us else (b, t) ∷ remove a s us

-- A request that does not wrap and is served, or the release of a block that is held.
pub data Step : System → System → Type 0 where
  malloc :
      {h h' : Heap} {us : List Seg} (want mem : ℕ)
      → h.end + want + header_size < 2 ^ 64
      → kmalloc want h ≡ ok mem h'
      → Step (record { heap = h; used = us }) (record { heap = h'; used = (hdr mem, want) ∷ us })
  free :
      {h h' : Heap} {us : List Seg} (a s : ℕ)
      → holds a s us ≡ true
      → kfree (ptr a) h ≡ ok tt h'
      → Step (record { heap = h; used = us }) (record { heap = h'; used = remove a s us })

pub data Reach (s : System) : System → Type 0 where
  here : Reach s s
  next : {t u : System} → Reach s t → Step t u → Reach s u

abbrev pub in_heap : Heap → ℕ → ℕ
in_heap h x = if leb heap_start x && ltb x h.top then 1 else 0

abbrev pub SizeAt : Heap → Seg → Type 0
SizeAt h (a, s) = (h.blocks a).size ≡ s

-- `bs` are the free segments: every byte from the start of the heap to its top lies in exactly one
-- block in use or free segment, no other byte does, and the headers in use hold their sizes.
pub record Tiled (h : Heap) (us bs : List Seg) : Type 0 where
  pub wf : IsWf h bs
  pub tiles : (x : ℕ) → cover x us + cover x bs ≡ in_heap h x
  pub sizes : All (SizeAt h) us
  pub below_end : h.top ≤ h.end
  pub end_fits : h.end < 2 ^ 64

pub cover-remove :
    (x a s : ℕ) (us : List Seg)
    → holds a s us ≡ true
    → cover x us ≡ one_if x a s + cover x (remove a s us)
unfolding cover holds remove
cover-remove x a s [] h = absurd (cc)
cover-remove x a s ((b, t) ∷ us) h = ground (arith, cover-remove x a s us)

pub holds-size :
    (h : Heap) (a s : ℕ) (us : List Seg) → holds a s us ≡ true → All (SizeAt h) us → SizeAt h (a, s)
unfolding holds
holds-size h a s [] e all = absurd (cc)
holds-size h a s ((b, t) ∷ us) e all = ground (arith, holds-size h a s us)

pub All-remove :
    (h : Heap) (a s : ℕ) (us : List Seg) → All (SizeAt h) us → All (SizeAt h) (remove a s us)
unfolding remove
All-remove h a s [] all = tt
All-remove h a s ((b, t) ∷ us) all = elim (Bool-cases (is_seg a s b t)) [
  | inl e ↦ rw e all.1
  | inr e ↦ rw e (all.0, All-remove h a s us all.1)
]

-- Sizes survive where the headers in use are not written.
pub All-kept :
    (h h' : Heap) (us : List Seg)
    → ((b : ℕ) → cover b us ≢ 0 → h'.blocks b ≡ h.blocks b)
    → All (SizeAt h) us
    → All (SizeAt h') us
unfolding cover
All-kept h h' [] same all = tt
All-kept h h' ((b, t) ∷ us) same all = (
  ap (λ r. r.size) (same b (ground arith)) ∙ all.0,
  All-kept h h' us (λ c z. same c (omega arith)) all.1,
)
