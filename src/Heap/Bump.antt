-- ===== src/Heap/Bump.antt =====
-- `kmalloc` of heap.c where no free block serves: a new block at the top, or a panic.
use smpl_osv.Base.{
  ℕ, ◌+◌, ◌^◌, ◌≤◌, ◌<◌, ◌≡◌, refl, ap, ◌∙◌, ◌≢◌, none, some, List, [], ◌∷◌, true, false, arith,
  ltb, update,
}
use smpl_osv.Base.Bits.{u64}
use smpl_osv.Heap.Block.{Memblock, Blocks, header_size, set_next, set_prev, set_size, set_magic}
use smpl_osv.Heap.Spec.{Seg, seg_end, first_fit}
use smpl_osv.Heap.Chain.{lo-le-hi, length-Sorted, Chain-frame, Sorted-raise}
use smpl_osv.Heap.Wf.{IsWf}
use smpl_osv.Heap.Search.{find_from-none}
use smpl_osv.Heap.Kmalloc.{Given, kmalloc-bump}
use smpl_osv.Heap.{Heap, ok, panicked, heap_start, ptr, rounds, find_from, write_new, bump, kmalloc}

-- The header that a new block at the top gets.
abbrev pub new_header : ℕ → Memblock
new_header want = record {
  magic = b'M' ∷ b'E' ∷ b'M' ∷ [];
  next = 0xaaaaaaaabbbbbbbb;
  prev = 0xccccccccdddddddd;
  size = want;
}

bump-fits :
    (want : ℕ) (h : Heap)
    → h.top + want + header_size ≤ h.end
    → h.end < 2 ^ 64
    → (m : Blocks) × (bump want h
        ≡ ok (ptr h.top) (record h { blocks = m; top = u64 (h.top + header_size + want) }))
      × (m h.top ≡ new_header want)
      × ((x : ℕ) → x ≢ h.top → m x ≡ h.blocks x)
unfolding bump set_next set_prev set_size set_magic update
bump-fits want h fits w =
    let go : ltb h.end (u64 (h.top + want + header_size)) ≡ false = ground arith in
    (write_new h.top want h.blocks, rw go refl, ground arith, λ x ne. ground arith)

bump-full :
    (want : ℕ) (h : Heap)
    → h.end < h.top + want + header_size
    → h.top + want + header_size < 2 ^ 64
    → bump want h ≡ panicked
unfolding bump
bump-full want h full w =
    let stop : ltb h.end (u64 (h.top + want + header_size)) ≡ true = ground arith in rw stop

search_none :
    (h : Heap) (want : ℕ) (bs : List Seg)
    → IsWf h bs
    → want + header_size < 2 ^ 64
    → first_fit want bs ≡ none
    → find_from (rounds h) want h.free_list h.blocks ≡ some (0, h.blocks)
search_none h want bs wf k e =
    let many = length-Sorted heap_start h.top bs wf.sorted in
    ap (λ b. find_from (rounds h) want b h.blocks) wf.head
    ∙ find_from-none (rounds h) h.blocks 0 heap_start h.top want bs (omega arith) (omega arith)
        wf.sorted k wf.chain e

-- Where no free segment serves and the block fits below the end of the heap, `kmalloc` puts it at
-- the top and raises the top behind it; the free list and all other headers stay.
pub kmalloc_at_top :
    (h : Heap) (want : ℕ) (bs : List Seg)
    → IsWf h bs
    → h.top + want + header_size ≤ h.end
    → h.end < 2 ^ 64
    → first_fit want bs ≡ none
    → (h' : Heap) × (kmalloc want h ≡ ok (ptr h.top) h')
      × Given h want h.top bs bs h'
      × (h'.top ≡ seg_end h.top want)
kmalloc_at_top h want bs wf fits w e =
    let low = lo-le-hi heap_start h.top bs wf.sorted in
    let (m, run, new, other) = bump-fits want h fits w in
    let top' : u64 (h.top + header_size + want) ≡ seg_end h.top want = omega arith in
    (
      record h { blocks = m; top = u64 (h.top + header_size + want) },
      kmalloc-bump want h h.blocks (search_none h want bs wf (omega arith) e) ∙ run,
      record {
        wf = record {
          chain =
              Chain-frame h.blocks m 0 heap_start h.top bs wf.sorted
                (λ x l u. other x (omega arith)) wf.chain;
          head = wf.head;
          sorted = Sorted-raise heap_start h.top _ bs (omega arith) wf.sorted;
          top_fits = omega arith;
        };
        size = ap (λ r. r.size) new;
        same_end = refl;
        same = λ x u z ne. other x ne;
        null = other 0 (omega arith);
      },
      top',
    )

-- Where no free segment serves and the block does not fit below the end of the heap, `kmalloc`
-- panics, as long as top, size and header together do not wrap.
pub kmalloc_full :
    (h : Heap) (want : ℕ) (bs : List Seg)
    → IsWf h bs
    → h.end < h.top + want + header_size
    → h.top + want + header_size < 2 ^ 64
    → first_fit want bs ≡ none
    → kmalloc want h ≡ panicked
kmalloc_full h want bs wf full w e =
    kmalloc-bump want h h.blocks (search_none h want bs wf (omega arith) e)
    ∙ bump-full want h full w
