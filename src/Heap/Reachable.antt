-- ===== src/Heap/Reachable.antt =====
-- Every run of heap.c by clients that free only what they hold.
use mathlib.Core.Path.{subst, subst₂}
use smpl_osv.Base.{
  ℕ, ◌+◌, ◌^◌, ◌≤◌, ◌<◌, ◌≡◌, sym, ap, ◌∙◌, ◌⊎◌, none, Option-cases, Bool-cases, leb, leb→le, true,
  List, ◌∷◌, arith, inl, inr,
}
use smpl_osv.Heap.Block.{header_size}
use smpl_osv.Heap.Spec.{Seg, seg_end, first_fit, insert, coalesce}
use smpl_osv.Heap.Free.{hdr-ptr}
use smpl_osv.Heap.Bump.{kmalloc_full}
use smpl_osv.Heap.System.{System, Step, malloc, free, Reach, here, next, Tiled, holds, remove}
use smpl_osv.Heap.Tiling.{
  Tiled-first_fit, Tiled-top, Tiled-free, used_block, two_at, tile-le, separate,
}
use smpl_osv.Heap.{Heap, ok, panicked, heap_start, ptr, hdr, kmalloc, kfree}

ok_inj : {A : Type 0} (a b : A) (h k : Heap) → ok a h ≡ ok b k → (a ≡ b) × (h ≡ k)
ok_inj a b h k e = (cc, cc)

ok≢panicked : {A : Type 0} (a : A) (h : Heap) → ok a h ≡ panicked → ⊥
ok≢panicked a h e = cc

-- What a request leaves where it is served.
abbrev pub Served : Heap → List Seg → ℕ → ℕ → Heap → Type 0
Served h us want mem h' =
    (cs : List Seg) × Tiled h' ((hdr mem, want) ∷ us) cs
    × (h'.end ≡ h.end)
    × (ptr (hdr mem) ≡ mem)
    × (h'.blocks 0 ≡ h.blocks 0)

Served-at :
    (h h' h'' : Heap) (us cs : List Seg) (want mem a : ℕ)
    → kmalloc want h ≡ ok mem h'
    → kmalloc want h ≡ ok (ptr a) h''
    → a + header_size < 2 ^ 64
    → Tiled h'' ((a, want) ∷ us) cs
    → h''.end ≡ h.end
    → h''.blocks 0 ≡ h.blocks 0
    → Served h us want mem h'
Served-at h h' h'' us cs want mem a run run' room t e null =
    let (p, q) = ok_inj (ptr a) mem h'' h' (sym run' ∙ run) in
    let back : a ≡ hdr mem = sym (hdr-ptr a room) ∙ ap hdr p in
    subst₂
      (λ k b.
        (cs : List Seg) × Tiled k ((b, want) ∷ us) cs
        × (k.end ≡ h.end)
        × (ptr b ≡ mem)
        × (k.blocks 0 ≡ h.blocks 0))
      q back (cs, t, e, p, null)

pub malloc-Served :
    (h h' : Heap) (us bs : List Seg) (want mem : ℕ)
    → Tiled h us bs
    → h.end + want + header_size < 2 ^ 64
    → kmalloc want h ≡ ok mem h'
    → Served h us want mem h'
malloc-Served h h' us bs want mem t w run = elim (Option-cases (first_fit want bs)) [
  | inr ((a, cs), e) ↦
      let (h'', run', t', end', null, room) = Tiled-first_fit h want a us bs cs t (omega arith) e in
      Served-at h h' h'' us cs want mem a run run' room t' end' null
  | inl e ↦ elim (Bool-cases (leb (h.top + want + header_size) h.end)) [
    | inl fits ↦
        let (h'', run', t', end', null) = Tiled-top h want us bs t (leb→le _ _ fits) e in
        Served-at h h' h'' us bs want mem h.top run run'
          (omega (arith, leb→le _ _ fits, t.end_fits)) t' end' null
    | inr full ↦
        let over : h.end < h.top + want + header_size = ground arith in
        absurd (
          ok≢panicked mem h'
            (sym run ∙ kmalloc_full h want bs t.wf over (omega (arith, t.below_end)) e))
  ]
]

free-Tiled :
    (h h' : Heap) (us bs : List Seg) (a s : ℕ)
    → Tiled h us bs
    → holds a s us ≡ true
    → kfree (ptr a) h ≡ ok tt h'
    → Tiled h' (remove a s us) (coalesce (insert a s bs)) × (h'.end ≡ h.end)
free-Tiled h h' us bs a s t held run =
    let (h'', run', t', end', _) = Tiled-free h a s us bs t held in
    let same = (ok_inj tt tt h'' h' (sym run' ∙ run)).1 in
    subst (λ k. Tiled k (remove a s us) (coalesce (insert a s bs)) × (k.end ≡ h.end)) same
      (t', end')

abbrev pub IsTiled : System → Type 0
IsTiled s = (bs : List Seg) × Tiled s.heap s.used bs

Step-IsTiled : {s t : System} → Step s t → IsTiled s → IsTiled t
Step-IsTiled (malloc {h} {h'} {us} want mem w run) (bs, t) =
    let (cs, t', _, _, _) = malloc-Served h h' us bs want mem t w run in (cs, t')
Step-IsTiled (free {h} {h'} {us} a s held run) (bs, t) =
    (coalesce (insert a s bs), (free-Tiled h h' us bs a s t held run).0)

-- From a tiled heap every sequence of requests and of releases of held blocks leads to tiled heaps:
-- the list of free blocks is well linked and in address order, each byte between the start and the
-- top lies in exactly one block in use or free segment, and each header in use holds its size.
pub Reach-IsTiled : {s t : System} → IsTiled s → Reach s t → IsTiled t
Reach-IsTiled i here = i
Reach-IsTiled i (next r st) = Step-IsTiled st (Reach-IsTiled i r)

-- Two blocks that are held at once never share a byte, headers included, and lie between the start
-- and the top of the heap.
pub Reach-disjoint :
    {s t : System} (a n b m : ℕ)
    → IsTiled s
    → Reach s t
    → holds a n t.used ≡ true
    → holds b m (remove a n t.used) ≡ true
    → ((seg_end a n ≤ b) ⊎ (seg_end b m ≤ a)) × (heap_start ≤ a) × (seg_end a n ≤ t.heap.top)
Reach-disjoint {t} a n b m i r held held' =
    let (bs, tiled) = Reach-IsTiled i r in
    let (low, high, apart) = used_block t.heap t.used bs a n tiled held in
    let twice = λ (x : ℕ). two_at x a n b m t.used held held' in
    let once = λ (x : ℕ). tile-le t.heap t.used bs x tiled in
    (separate a n b m (λ x. omega (arith, twice x, once x)), low, high)

-- On a tiled heap `kmalloc` always ends where the addresses do not wrap: the request is served, or
-- it panics because no free segment serves and there is no room at the top.
pub kmalloc_total :
    (h : Heap) (want : ℕ) (us bs : List Seg)
    → Tiled h us bs
    → h.end + want + header_size < 2 ^ 64
    → ((mem : ℕ) × (h' : Heap) × (kmalloc want h ≡ ok mem h'))
      ⊎ ((kmalloc want h ≡ panicked)
          × (first_fit want bs ≡ none)
          × (h.end < h.top + want + header_size))
kmalloc_total h want us bs t w = elim (Option-cases (first_fit want bs)) [
  | inr ((a, cs), e) ↦
      let (h', run, _, _, _, _) = Tiled-first_fit h want a us bs cs t (omega arith) e in
      inl (ptr a, h', run)
  | inl e ↦ elim (Bool-cases (leb (h.top + want + header_size) h.end)) [
    | inl fits ↦
        let (h', run, _, _, _) = Tiled-top h want us bs t (leb→le _ _ fits) e in
        inl (ptr h.top, h', run)
    | inr full ↦
        let over : h.end < h.top + want + header_size = ground arith in
        inr (kmalloc_full h want bs t.wf over (omega (arith, t.below_end)) e, e, over)
  ]
]
