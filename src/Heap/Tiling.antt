-- ===== src/Heap/Tiling.antt =====
-- Requests and releases keep the heap of heap.c tiled.
use mathlib.Core.Path.{subst}
use smpl_osv.Base.{
  ℕ, ◌+◌, ◌^◌, ◌≤◌, ◌<◌, ◌≡◌, refl, sym, ap, ◌∙◌, ◌≢◌, ◌⊎◌, some, none, true, ◌&&◌, List, ◌∷◌,
  arith, ltb, leb, if◌then◌else◌,
}
use smpl_osv.Heap.Block.{header_size}
use smpl_osv.Heap.Spec.{Seg, seg_end, within, cover, first_fit, insert, coalesce}
use smpl_osv.Heap.Chain.{lo-le-hi}
use smpl_osv.Heap.Free.{cover-insert}
use smpl_osv.Heap.Release.{kfree-coalesce}
use smpl_osv.Heap.Merge.{NullPrev}
use smpl_osv.Heap.Kmalloc.{kmalloc-first_fit}
use smpl_osv.Heap.Bump.{kmalloc_at_top}
use smpl_osv.Heap.Cover.{one_if, cover-first_fit, cover-coalesce, Sorted-insert}
use smpl_osv.Heap.System.{
  Tiled, in_heap, holds, remove, cover-remove, holds-size, All-remove, All-kept,
}
use smpl_osv.Heap.{Heap, ok, heap_start, ptr, kmalloc, kfree}

cover-pos : (x a s : ℕ) (us : List Seg) → within x a s ≡ true → 0 < cover x ((a, s) ∷ us)
unfolding cover
cover-pos x a s us h = ground arith

cover-cons : (x a s : ℕ) (us : List Seg) → cover x ((a, s) ∷ us) ≡ one_if x a s + cover x us
unfolding cover
cover-cons x a s us = refl

within_self : (a s : ℕ) → within a a s ≡ true
within_self a s = ground arith

one_if_self : (a s : ℕ) → one_if a a s ≡ 1
one_if_self a s = ground arith

one_if-last : (a s : ℕ) → one_if (a + 26 + s) a s ≡ 1
one_if-last a s = ground arith

in_heap_range : (h : Heap) (x : ℕ) → in_heap h x ≢ 0 → (heap_start ≤ x) × (x < h.top)
in_heap_range h x e = ground arith

in_heap_le : (h : Heap) (x : ℕ) → in_heap h x ≤ 1
in_heap_le h x = ground arith

-- A header in use lies in the heap and in no free segment.
used_apart :
    (h : Heap) (us bs : List Seg) (b : ℕ)
    → Tiled h us bs
    → cover b us ≢ 0
    → (cover b bs ≡ 0) × (heap_start ≤ b) × (b < h.top)
used_apart h us bs b t c = ground (arith, t.tiles b)

pub Tiled-first_fit :
    (h : Heap) (want a : ℕ) (us bs cs : List Seg)
    → Tiled h us bs
    → want + header_size < 2 ^ 64
    → first_fit want bs ≡ some (a, cs)
    → (h' : Heap) × (kmalloc want h ≡ ok (ptr a) h')
      × Tiled h' ((a, want) ∷ us) cs
      × (h'.end ≡ h.end)
      × (h'.blocks 0 ≡ h.blocks 0)
      × (a + header_size < 2 ^ 64)
Tiled-first_fit h want a us bs cs t w e =
    let (h', run, given, top) = kmalloc-first_fit h want a bs cs t.wf w e in
    let a_free : cover a bs ≢ 0 =
      omega (arith, cover-first_fit a want a bs cs e, one_if_self a want) in
    let last = a + 26 + want in
    let inside =
      in_heap_range h last
        (omega (arith, t.tiles last, cover-first_fit last want a bs cs e, one_if-last a want)) in
    (
      h',
      run,
      record {
        wf = given.wf;
        tiles = λ x.
            omega (arith, cover-cons x a want us, cover-first_fit x want a bs cs e, t.tiles x)
            ∙ ap (λ k. if leb heap_start x && ltb x k then 1 else 0) (sym top);
        sizes = (
          given.size,
          All-kept h h' us
              (λ b c.
                let out = used_apart h us bs b t c in
                given.same b out.0 (omega arith)
                  (λ z. a_free (subst (λ k. cover k bs ≡ 0) z out.0)))
              t.sizes,
        );
        below_end = omega (arith, given.same_end, t.below_end);
        end_fits = omega (arith, given.same_end, t.end_fits);
      },
      given.same_end,
      given.null,
      omega (arith, inside.1, t.wf.top_fits),
    )

pub Tiled-top :
    (h : Heap) (want : ℕ) (us bs : List Seg)
    → Tiled h us bs
    → h.top + want + header_size ≤ h.end
    → first_fit want bs ≡ none
    → (h' : Heap) × (kmalloc want h ≡ ok (ptr h.top) h')
      × Tiled h' ((h.top, want) ∷ us) bs
      × (h'.end ≡ h.end)
      × (h'.blocks 0 ≡ h.blocks 0)
Tiled-top h want us bs t fits e =
    let (h', run, given, top) = kmalloc_at_top h want bs t.wf fits t.end_fits e in
    let low = lo-le-hi heap_start h.top bs t.wf.sorted in
    let grown : (x : ℕ)
        → one_if x h.top want + in_heap h x
          ≡ (if leb heap_start x && ltb x (seg_end h.top want) then 1 else 0) =
      λ x. ground arith in
    (
      h',
      run,
      record {
        wf = given.wf;
        tiles = λ x.
            omega (arith, cover-cons x h.top want us, t.tiles x, grown x)
            ∙ ap (λ k. if leb heap_start x && ltb x k then 1 else 0) (sym top);
        sizes = (
          given.size,
          All-kept h h' us
              (λ b c.
                let out = used_apart h us bs b t c in
                given.same b out.0 (omega arith) (omega arith))
              t.sizes,
        );
        below_end = omega (arith, given.same_end, top);
        end_fits = omega (arith, given.same_end, t.end_fits);
      },
      given.same_end,
      given.null,
    )

-- A block in use lies in the heap with all its bytes, and shares none with the free segments.
pub used_block :
    (h : Heap) (us bs : List Seg) (a s : ℕ)
    → Tiled h us bs
    → holds a s us ≡ true
    → (heap_start ≤ a) × (seg_end a s ≤ h.top) × ((x : ℕ) → one_if x a s + cover x bs ≤ 1)
used_block h us bs a s t held =
    let last = a + 26 + s in
    let low =
      in_heap_range h a (omega (arith, t.tiles a, cover-remove a a s us held, one_if_self a s)) in
    let high =
      in_heap_range h last
        (omega (arith, t.tiles last, cover-remove last a s us held, one_if-last a s)) in
    (
      low.0,
      omega (arith, high.1),
      λ x. omega (arith, t.tiles x, cover-remove x a s us held, in_heap_le h x),
    )

pub two_at :
    (x a s b t : ℕ) (us : List Seg)
    → holds a s us ≡ true
    → holds b t (remove a s us) ≡ true
    → one_if x a s + one_if x b t ≤ cover x us
two_at x a s b t us h k =
    omega (arith, cover-remove x a s us h, cover-remove x b t (remove a s us) k)

pub tile-le : (h : Heap) (us bs : List Seg) (x : ℕ) → Tiled h us bs → cover x us ≤ 1
tile-le h us bs x t = omega (arith, t.tiles x, in_heap_le h x)

-- Segments with no common byte lie one behind the other.
pub separate :
    (a s b t : ℕ)
    → ((x : ℕ) → one_if x a s + one_if x b t ≤ 1)
    → (seg_end a s ≤ b) ⊎ (seg_end b t ≤ a)
separate a s b t apart = ground (arith, apart a, apart b)

pub Tiled-free :
    (h : Heap) (a s : ℕ) (us bs : List Seg)
    → Tiled h us bs
    → holds a s us ≡ true
    → (h' : Heap) × (kfree (ptr a) h ≡ ok tt h')
      × Tiled h' (remove a s us) (coalesce (insert a s bs))
      × (h'.end ≡ h.end)
      × NullPrev h.blocks h'.blocks
Tiled-free h a s us bs t held =
    let (low, high, apart) = used_block h us bs a s t held in
    let fits = Sorted-insert heap_start h.top a s bs t.wf.sorted low high apart in
    let (h', run, freed) = kfree-coalesce h a s bs t.wf fits (holds-size h a s us held t.sizes) in
    (
      h',
      run,
      record {
        wf = freed.wf;
        tiles = λ x.
            omega (
              arith,
              cover-remove x a s us held,
              cover-coalesce x (insert a s bs),
              cover-insert x a s bs,
              t.tiles x,
            )
            ∙ ap (λ k. if leb heap_start x && ltb x k then 1 else 0) (sym freed.same_top);
        sizes =
            All-kept h h' (remove a s us)
              (λ b c.
                let tile : (cover b (insert a s bs) ≡ 0) × (b ≢ 0) =
                  ground (arith, t.tiles b, cover-remove b a s us held, cover-insert b a s bs) in
                freed.same b tile.0 tile.1)
              (All-remove h a s us t.sizes);
        below_end = omega (arith, freed.same_top, freed.same_end, t.below_end);
        end_fits = omega (arith, freed.same_end, t.end_fits);
      },
      freed.same_end,
      freed.null,
    )
