-- ===== src/Heap/Realloc.antt =====
-- `krealloc` of heap.c: a new block, a copy of the clients' bytes, and the release of the old
-- block. The bytes are a memory of their own beside the headers.
use smpl_osv.Base.{
  ℕ, ◌+◌, ◌^◌, ◌≤◌, ◌<◌, ◌≡◌, refl, ap, ◌∙◌, ◌⊎◌, inl, inr, none, true, List, ◌∷◌, arith, ltb,
  if◌then◌else◌,
}
use smpl_osv.Libc.{Bytes, memcpy}
use smpl_osv.Libc.Copy.{SameOutside, memcpy-copies}
use smpl_osv.Heap.Block.{header_size}
use smpl_osv.Heap.Spec.{Seg, first_fit}
use smpl_osv.Heap.Free.{hdr-ptr}
use smpl_osv.Heap.Merge.{NullPrev, NullPrev-same, NullPrev-trans}
use smpl_osv.Heap.System.{System, here, Tiled, holds, remove, holds-size}
use smpl_osv.Heap.Tiling.{Tiled-free, used_block}
use smpl_osv.Heap.Reachable.{IsTiled, malloc-Served, Reach-disjoint, kmalloc_total}
use smpl_osv.Heap.{Heap, Result, ok, panicked, out_of_fuel, ptr, hdr, kmalloc, kfree}

-- How many bytes are copied.
abbrev pub kept_size : ℕ → ℕ → ℕ
kept_size new_size size = if ltb size new_size then size else new_size

-- The release of the old block.
pub release : ℕ → ℕ → Bytes → Heap → Result (ℕ × Bytes)
release old new_mem m h = elim (kfree old h) [
  | ok _ h' ↦ ok (new_mem, m) h'
  | panicked ↦ panicked
  | out_of_fuel ↦ out_of_fuel
]

pub krealloc : ℕ → ℕ → Bytes → Heap → Result (ℕ × Bytes)
unfolding release
krealloc old new_size m h = elim (kmalloc new_size h) [
  | ok new_mem h' ↦
      let size = (h'.blocks (hdr old)).size in
      release old new_mem (memcpy new_mem old (kept_size new_size size) m) h'
  | panicked ↦ panicked
  | out_of_fuel ↦ out_of_fuel
]

release-run :
    (old mem : ℕ) (m : Bytes) (h h' : Heap)
    → kfree old h ≡ ok tt h'
    → release old mem m h ≡ ok (mem, m) h'
unfolding release
release-run old mem m h h' run = rw (release, run) refl

krealloc-run :
    (old want mem : ℕ) (m : Bytes) (h h1 : Heap)
    → kmalloc want h ≡ ok mem h1
    → krealloc old want m h
      ≡ release old mem (memcpy mem old (kept_size want (h1.blocks (hdr old)).size) m) h1
unfolding krealloc
krealloc-run old want mem m h h1 run = rw (krealloc, run) refl

krealloc_panics :
    (old want : ℕ) (m : Bytes) (h : Heap)
    → kmalloc want h ≡ panicked
    → krealloc old want m h ≡ panicked
unfolding krealloc
krealloc_panics old want m h run = rw (krealloc, run) refl

holds-later : (a s b t : ℕ) (us : List Seg) → holds a s us ≡ true → holds a s ((b, t) ∷ us) ≡ true
unfolding holds
holds-later a s b t us held = ground arith

holds_first : (a s : ℕ) (us : List Seg) → holds a s ((a, s) ∷ us) ≡ true
unfolding holds
holds_first a s us = ground arith

remove_first :
    (a s b t : ℕ) (us : List Seg)
    → holds b t us ≡ true
    → holds b t (remove a s ((a, s) ∷ us)) ≡ true
unfolding remove
remove_first a s b t us held = ground arith

-- The new block holds the old bytes, and no byte outside it has changed.
abbrev pub Moved : Bytes → Bytes → ℕ → ℕ → ℕ → Type 0
Moved m m' old mem n = ((k : ℕ) → k < n → m' (mem + k) ≡ m (old + k)) × SameOutside mem n m m'

memcpy-Moved :
    (m : Bytes) (old mem n : ℕ)
    → (mem ≤ old) ⊎ (old + n ≤ mem)
    → Moved m (memcpy mem old n m) old mem n
memcpy-Moved m old mem n apart =
    let (copied, frame) = memcpy-copies mem old n m apart in
    (λ k l. copied (mem + k) (omega arith) (omega arith) ∙ ap m (omega arith), frame)

kept_size_le : (want s : ℕ) → (kept_size want s ≤ want) × (kept_size want s ≤ s)
kept_size_le want s = (ground arith, ground arith)

-- What `krealloc` of the held block at `a` leaves where it succeeds.
abbrev pub Reallocated : Heap → List Seg → Bytes → ℕ → ℕ → ℕ → Type 0
Reallocated h us m a s want =
    (mem : ℕ) × (m' : Bytes) × (h' : Heap) × (krealloc (ptr a) want m h ≡ ok (mem, m') h')
    × IsTiled (record { heap = h'; used = remove a s ((hdr mem, want) ∷ us) })
    × Moved m m' (ptr a) mem (kept_size want s)
    × NullPrev h.blocks h'.blocks

served-Reallocated :
    (h h1 : Heap) (us bs : List Seg) (m : Bytes) (a s want mem : ℕ)
    → Tiled h us bs
    → holds a s us ≡ true
    → h.end + want + header_size < 2 ^ 64
    → kmalloc want h ≡ ok mem h1
    → Reallocated h us m a s want
served-Reallocated h h1 us bs m a s want mem t held w run =
    let (cs, t1, end1, at, null1) = malloc-Served h h1 us bs want mem t w run in
    let us1 = (hdr mem, want) ∷ us in
    let held1 = holds-later a s (hdr mem) want us held in
    let first1 = holds_first (hdr mem) want us in
    let (h2, freed, t2, end2, null2) = Tiled-free h1 a s us1 cs t1 held1 in
    let (low, high, _) = used_block h1 us1 cs a s t1 held1 in
    let (low1, high1, _) = used_block h1 us1 cs (hdr mem) want t1 first1 in
    let below = t1.below_end in
    let fits = t1.end_fits in
    let back = hdr-ptr a (omega arith) in
    let size = ap (λ b. (h1.blocks b).size) back ∙ holds-size h1 a s us1 held1 t1.sizes in
    let now : System = record { heap = h1; used = us1 } in
    let (apart, _, _) =
      Reach-disjoint {s = now} {t = now} (hdr mem) want a s (cs, t1) here first1
        (remove_first (hdr mem) want a s us held) in
    let n = kept_size want s in
    let small : (n ≤ want) × (n ≤ s) = kept_size_le want s in
    let off : (mem ≤ ptr a) ⊎ (ptr a + n ≤ mem) = elim apart [
      | inl l ↦ inl (omega (arith, at))
      | inr l ↦ inr (omega (arith, at))
    ] in
    let m' = memcpy mem (ptr a) n m in
    (
      mem,
      m',
      h2,
      krealloc-run (ptr a) want mem m h h1 run
          ∙ ap (λ z. release (ptr a) mem (memcpy mem (ptr a) (kept_size want z) m) h1) size
          ∙ release-run (ptr a) mem m' h1 h2 freed,
      (_, t2),
      memcpy-Moved m (ptr a) mem n off,
      NullPrev-trans h.blocks h1.blocks h2.blocks (NullPrev-same h.blocks h1.blocks null1) null2,
    )

-- On a tiled heap where the addresses do not wrap, `krealloc` of a held block either panics, as no
-- free segment serves and there is no room at the top, or returns a block that takes the old one's
-- place: the heap is tiled again, the new block starts with the old bytes, as many as fit, and no
-- byte of the clients' memory outside them has changed; of the header at address 0, through which
-- `kfree` writes where it absorbs the last block, at most `prev` has changed.
pub krealloc-Moved :
    (h : Heap) (us bs : List Seg) (m : Bytes) (a s want : ℕ)
    → Tiled h us bs
    → holds a s us ≡ true
    → h.end + want + header_size < 2 ^ 64
    → Reallocated h us m a s want
      ⊎ ((krealloc (ptr a) want m h ≡ panicked)
          × (first_fit want bs ≡ none)
          × (h.end < h.top + want + header_size))
krealloc-Moved h us bs m a s want t held w = elim (kmalloc_total h want us bs t w) [
  | inl (mem, h1, run) ↦ inl (served-Reallocated h h1 us bs m a s want mem t held w run)
  | inr (run, full, over) ↦ inr (krealloc_panics (ptr a) want m h run, full, over)
]
