-- ===== src/Heap/Tests.antt =====
-- Runs of heap.c, and its theorems at a small heap.
use smpl_osv.Base.{ℕ, ◌+◌, ◌%◌, ◌≡◌, refl, none, List, [], ◌∷◌, ◌≤◌, ◌<◌, ◌⊎◌, arith, update}
use smpl_osv.Heap.Block.{Blocks, header_size, set_prev, set_next, set_magic, set_size}
use smpl_osv.Heap.Spec.{Seg, seg_end, cover, first_fit, insert, coalesce}
use smpl_osv.Heap.Wf.{IsWf, Freed}
use smpl_osv.Heap.Release.{kfree-coalesce}
use smpl_osv.Heap.Kmalloc.{Given, kmalloc-first_fit}
use smpl_osv.Heap.Bump.{kmalloc_at_top}
use smpl_osv.Heap.Realloc.{Reallocated, krealloc, krealloc-Moved}
use smpl_osv.Libc.{Bytes}
use smpl_osv.Heap.System.{Tiled, System, malloc, Reach, here, next, holds, remove}
use smpl_osv.Heap.Reachable.{IsTiled, Reach-IsTiled, Reach-disjoint, kmalloc_total}
use smpl_osv.Heap.{Heap, ok, panicked, heap_start, ptr, write_new, kmalloc, kfree}

abbrev no_blocks : Blocks
no_blocks _ = record { magic = []; next = 0; prev = 0; size = 0 }

-- A heap of 4096 bytes before the first request.
abbrev fresh : Heap
fresh = record { blocks = no_blocks; top = heap_start; end = heap_start + 4096; free_list = 0 }

abbrev fresh_system : System
fresh_system = record { heap = fresh; used = [] }

fresh-IsTiled : IsTiled fresh_system
unfolding cover
fresh-IsTiled = (
  [],
  record {
    wf = record { chain = tt; head = refl; sorted = omega arith; top_fits = omega arith };
    tiles = λ x. ground arith;
    sizes = tt;
    below_end = omega arith;
    end_fits = omega arith;
  },
)

-- After a request of ten bytes.
abbrev one_block : Heap
one_block = record fresh { blocks = write_new heap_start 10 no_blocks; top = heap_start + 37 }

-- And after one of twenty.
abbrev two_blocks : Heap
two_blocks = record one_block {
  blocks = write_new (heap_start + 37) 20 one_block.blocks;
  top = heap_start + 84;
}

first_request : kmalloc 10 fresh ≡ ok (heap_start + 27) one_block
unfolding kmalloc
first_request = refl

second_request : kmalloc 20 one_block ≡ ok (heap_start + 64) two_blocks
unfolding kmalloc
second_request = refl

abbrev two_held : System
two_held = record { heap = two_blocks; used = (heap_start + 37, 20) ∷ (heap_start, 10) ∷ [] }

two_requests : Reach fresh_system two_held
two_requests =
    next (next here (malloc 10 (heap_start + 27) (omega arith) first_request))
      (malloc 20 (heap_start + 64) (omega arith) second_request)

Reach-IsTiled_example : IsTiled two_held
Reach-IsTiled_example = Reach-IsTiled fresh-IsTiled two_requests

Reach-disjoint_example :
    ((seg_end heap_start 10 ≤ heap_start + 37) ⊎ (seg_end (heap_start + 37) 20 ≤ heap_start))
    × (heap_start ≤ heap_start)
    × (seg_end heap_start 10 ≤ two_blocks.top)
unfolding holds remove
Reach-disjoint_example =
    Reach-disjoint heap_start 10 (heap_start + 37) 20 fresh-IsTiled two_requests refl refl

kmalloc_total_example :
    ((mem : ℕ) × (h' : Heap) × (kmalloc 5000 fresh ≡ ok mem h'))
    ⊎ ((kmalloc 5000 fresh ≡ panicked)
        × (first_fit 5000 [] ≡ none)
        × (fresh.end < fresh.top + 5000 + header_size))
unfolding fresh-IsTiled
kmalloc_total_example = kmalloc_total fresh 5000 [] [] fresh-IsTiled.1 (omega arith)

-- A heap with a free block of 100 bytes at the start and nothing behind it.
abbrev with_hole : Heap
with_hole = record {
  blocks = update no_blocks heap_start (record { magic = []; next = 0; prev = 0; size = 100 });
  top = heap_start + 127;
  end = heap_start + 4096;
  free_list = heap_start;
}

abbrev hole : List Seg
hole = (heap_start, 100) ∷ []

with_hole-IsWf : IsWf with_hole hole
unfolding update
with_hole-IsWf = record {
  chain = (refl, refl, refl, tt);
  head = refl;
  sorted = (omega arith, omega arith);
  top_fits = omega arith;
}

kmalloc-first_fit_example :
    (h' : Heap) × (kmalloc 10 with_hole ≡ ok (heap_start + 27) h')
    × Given with_hole 10 heap_start hole ((heap_start + 37, 63) ∷ []) h'
    × (h'.top ≡ heap_start + 127)
unfolding first_fit
kmalloc-first_fit_example =
    kmalloc-first_fit with_hole 10 heap_start hole ((heap_start + 37, 63) ∷ []) with_hole-IsWf
      (omega arith) refl

kmalloc_at_top_example :
    (h' : Heap) × (kmalloc 80 with_hole ≡ ok (heap_start + 154) h')
    × Given with_hole 80 (heap_start + 127) hole hole h'
    × (h'.top ≡ heap_start + 234)
unfolding first_fit
kmalloc_at_top_example =
    kmalloc_at_top with_hole 80 hole with_hole-IsWf (omega arith) (omega arith) refl

-- The same heap with a block of 10 bytes in use right behind the free one.
abbrev with_used : Heap
with_used = record with_hole {
  blocks =
      update with_hole.blocks (heap_start + 127)
        (record { magic = []; next = 0; prev = 0; size = 10 });
  top = heap_start + 164;
}

kfree-coalesce_example :
    (h' : Heap) × (kfree (heap_start + 154) with_used ≡ ok tt h')
    × Freed with_used (insert (heap_start + 127) 10 hole) ((heap_start, 137) ∷ []) h'
unfolding update insert coalesce
kfree-coalesce_example =
    kfree-coalesce with_used (heap_start + 127) 10 hole
      (record {
        chain = (refl, refl, refl, tt);
        head = refl;
        sorted = (omega arith, omega arith);
        top_fits = omega arith;
      })
      (omega arith, (omega arith, omega arith)) refl

abbrev counted : Bytes
counted i = i % 256

one_block-Tiled : Tiled one_block ((heap_start, 10) ∷ []) []
unfolding cover write_new set_prev update set_next set_magic set_size
one_block-Tiled = record {
  wf = record { chain = tt; head = refl; sorted = omega arith; top_fits = omega arith };
  tiles = λ x. ground arith;
  sizes = (refl, tt);
  below_end = omega arith;
  end_fits = omega arith;
}

krealloc-Moved_example :
    Reallocated one_block ((heap_start, 10) ∷ []) counted heap_start 10 20
    ⊎ ((krealloc (ptr heap_start) 20 counted one_block ≡ panicked)
        × (first_fit 20 [] ≡ none)
        × (one_block.end < one_block.top + 20 + header_size))
unfolding holds
krealloc-Moved_example =
    krealloc-Moved one_block ((heap_start, 10) ∷ []) [] counted heap_start 10 20 one_block-Tiled
      refl (omega arith)
