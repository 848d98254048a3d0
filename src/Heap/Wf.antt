-- ===== src/Heap/Wf.antt =====
-- Well-formed heaps, and `merge_blocks` of heap.c on them.
use smpl_osv.Base.{
  ℕ, suc, ◌+◌, ◌^◌, ◌≤◌, ◌<◌, ◌≡◌, refl, sym, ap, ◌∙◌, some, List, [], ◌∷◌, arith, length, ◌==◌,
  inl, inr, ==_iff, Bool-cases,
}
use smpl_osv.Heap.Block.{Blocks, header_size}
use smpl_osv.Heap.Spec.{Seg, seg_end, first, Chain, Sorted, merge_onto, coalesce}
use smpl_osv.Heap.Chain.{length-Sorted, Sorted-weaken}
use smpl_osv.Heap.Merge
use smpl_osv.Heap.Merge.{merge_from-merge_onto, Untouched, NullPrev}
use smpl_osv.Heap.{Heap, ok, heap_start, rounds, merge_from, merge_blocks}

-- The list lies below the top of the heap, linked and in order, and the top does not wrap.
pub record IsWf (h : Heap) (bs : List Seg) : Type 0 where
  pub chain : Chain h.blocks 0 bs
  pub head : h.free_list ≡ first bs
  pub sorted : Sorted heap_start h.top bs
  pub top_fits : h.top < 2 ^ 64

-- The result of freeing: a well-formed heap over the segments, with the headers elsewhere as
-- before, and at address 0 at most another `prev`: `merge_blocks` writes it where it absorbs the
-- last block.
pub record Freed (h : Heap) (bs : List Seg) (cs : List Seg) (h' : Heap) : Type 0 where
  pub wf : IsWf h' cs
  pub same_top : h'.top ≡ h.top
  pub same_end : h'.end ≡ h.end
  pub same : Untouched bs h.blocks h'.blocks
  pub null : NullPrev h.blocks h'.blocks

pub Sorted-merge_onto :
    (lo hi a s : ℕ) (bs : List Seg)
    → lo ≤ a
    → Sorted (seg_end a s) hi bs
    → Sorted lo hi (merge_onto a s bs)
unfolding merge_onto
Sorted-merge_onto lo hi a s [] l o = (l, o)
Sorted-merge_onto lo hi a s ((b, t) ∷ bs) l o = elim (Bool-cases (seg_end a s == b)) [
  | inl touch ↦
      let e : seg_end a s ≡ b = (==_iff (seg_end a s) b).0 touch in
      rw touch (
        Sorted-merge_onto lo hi a (s + t + header_size) bs l
          (Sorted-weaken (seg_end b t) (seg_end a (s + t + header_size)) hi bs (omega arith) o.1))
  | inr gap ↦ rw gap (l, Sorted-merge_onto (seg_end a s) hi b t bs o.0 o.1)
]

merge_blocks-run :
    (fuel a : ℕ) (h : Heap) (m : Blocks)
    → h.free_list ≡ a
    → merge_from fuel a h.blocks ≡ some m
    → merge_blocks fuel h ≡ ok tt (record h { blocks = m })
unfolding merge_blocks
merge_blocks-run fuel a h m e run =
    let run' : merge_from fuel h.free_list h.blocks ≡ some m =
      ap (λ b. merge_from fuel b h.blocks) e ∙ run in
    rw (run', merge_blocks)

pub merge_blocks-Wf :
    (h : Heap) (a s : ℕ) (bs : List Seg)
    → Chain h.blocks 0 ((a, s) ∷ bs)
    → h.free_list ≡ a
    → Sorted heap_start h.top ((a, s) ∷ bs)
    → h.top < 2 ^ 64
    → (h' : Heap) × (merge_blocks (rounds h) h ≡ ok tt h')
      × Freed h ((a, s) ∷ bs) (coalesce ((a, s) ∷ bs)) h'
unfolding coalesce
merge_blocks-Wf h a s bs c head o w =
    let many = length-Sorted heap_start h.top ((a, s) ∷ bs) o in
    let enough : suc (length bs) < rounds h = omega arith in
    let (m', run, chain, same, null) =
      merge_from-merge_onto (rounds h) h.blocks 0 h.top a s bs enough (omega (arith, o.0)) o.1 w
        c in
    (
      record h { blocks = m' },
      merge_blocks-run (rounds h) a h m' head run,
      record {
        wf = record {
          chain = chain;
          head = head ∙ sym (Merge.first-merge_onto a s bs);
          sorted = Sorted-merge_onto heap_start h.top a s bs o.0 o.1;
          top_fits = w;
        };
        same_top = refl;
        same_end = refl;
        same = same;
        null = null;
      },
    )
