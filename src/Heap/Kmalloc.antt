-- ===== src/Heap/Kmalloc.antt =====
-- `kmalloc` of heap.c against the list of segments: first fit, else a new block at the top.
use smpl_osv.Base.{
  ℕ, ◌+◌, ◌-◌, ◌^◌, ◌<◌, ◌≡◌, refl, sym, ap, ◌∙◌, ◌≢◌, some, List, [], ◌∷◌, true, false, arith,
  ◌==◌, inl, inr, Bool-cases, ==_iff, ==_ne,
}
use smpl_osv.Heap.Block.{Blocks, header_size}
use smpl_osv.Heap.Spec.{Seg, seg_end, first, Sorted, cover, first_fit}
use smpl_osv.Heap.Chain.{length-Sorted, Sorted-weaken}
use smpl_osv.Heap.Wf.{IsWf}
use smpl_osv.Heap.Alloc.{Taken}
use smpl_osv.Heap.Search.{
  find_from-Finds, first_fit-exact, first_fit-split, first_fit-later, round-cases,
}
use mathlib.Core.Path.{subst}
use smpl_osv.Heap.{Heap, ok, heap_start, ptr, rounds, find_from, unlink, take_block, bump, kmalloc}

kmalloc-take :
    (want a : ℕ) (h : Heap) (m : Blocks)
    → a ≢ 0
    → find_from (rounds h) want h.free_list h.blocks ≡ some (a, m)
    → kmalloc want h ≡ take_block a m h
unfolding kmalloc
kmalloc-take want a h m z run = rw (run, kmalloc) (rw (==_ne a 0 z))

pub kmalloc-bump :
    (want : ℕ) (h : Heap) (m : Blocks)
    → find_from (rounds h) want h.free_list h.blocks ≡ some (0, m)
    → kmalloc want h ≡ bump want (record h { blocks = m })
unfolding kmalloc
kmalloc-bump want h m run = rw (run, kmalloc)

take_first :
    (a n : ℕ) (m : Blocks) (h : Heap)
    → h.free_list ≡ a
    → (unlink a m a).next ≡ n
    → take_block a m h ≡ ok (ptr a) (record h { blocks = unlink a m; free_list = n })
unfolding take_block
take_first a n m h e next = let e' : (a == h.free_list) ≡ true = ground arith in rw e' (rw next)

take_later :
    (a : ℕ) (m : Blocks) (h : Heap)
    → h.free_list ≢ a
    → take_block a m h ≡ ok (ptr a) (record h { blocks = unlink a m })
unfolding take_block
take_later a m h e = let e' : (a == h.free_list) ≡ false = ground arith in rw e'

pub Sorted-first_fit :
    (lo hi want a : ℕ) (bs cs : List Seg)
    → Sorted lo hi bs
    → first_fit want bs ≡ some (a, cs)
    → Sorted lo hi cs
Sorted-first_fit lo hi want a [] cs o e = absurd (unfold first_fit in cc)
Sorted-first_fit lo hi want a ((b, t) ∷ bs) cs o e = elim (round-cases want t) [
  | inl exact ↦
      let same : bs ≡ cs = cc (first_fit-exact want b t bs exact) in
      subst (Sorted lo hi) same (Sorted-weaken (seg_end b t) lo hi bs (omega (arith, o.0)) o.1)
  | inr (inl fits) ↦
      let same : (seg_end b want, t - want - header_size) ∷ bs ≡ cs =
        cc (first_fit-split want b t bs fits) in
      subst (Sorted lo hi) same
        (omega (arith, o.0), Sorted-weaken (seg_end b t) _ hi bs (omega arith) o.1)
  | inr (inr (ne, small)) ↦
      let (ds, e', shape) = first_fit-later want b t a bs cs ne small e in
      subst (Sorted lo hi) (sym shape) (o.0, Sorted-first_fit (seg_end b t) hi want a bs ds o.1 e')
]

-- A well-formed heap in which the block at `a` has been given out with `want` bytes.
pub record Given (h : Heap) (want a : ℕ) (bs cs : List Seg) (h' : Heap) : Type 0 where
  pub wf : IsWf h' cs
  pub size : (h'.blocks a).size ≡ want
  pub same_end : h'.end ≡ h.end
  pub same : (x : ℕ) → cover x bs ≡ 0 → x ≢ 0 → x ≢ a → h'.blocks x ≡ h.blocks x
  pub null : h'.blocks 0 ≡ h.blocks 0

kmalloc-Taken :
    (want a : ℕ) (h : Heap) (m1 : Blocks) (bs cs : List Seg)
    → IsWf h bs
    → 0 < a
    → kmalloc want h ≡ take_block a m1 h
    → Sorted heap_start h.top cs
    → Taken h.blocks 0 want bs a cs (unlink a m1)
    → (h' : Heap) × (kmalloc want h ≡ ok (ptr a) h') × Given h want a bs cs h' × (h'.top ≡ h.top)
kmalloc-Taken want a h m1 bs cs wf pos run o taken = elim (Bool-cases (first bs == a)) [
  | inl e ↦
      let at = (==_iff (first bs) a).0 e in
      (
        record h { blocks = unlink a m1; free_list = first cs },
        run ∙ take_first a (first cs) m1 h (wf.head ∙ at) (taken.was_first at),
        record {
          wf = record { chain = taken.chain; head = refl; sorted = o; top_fits = wf.top_fits };
          size = taken.size;
          same_end = refl;
          same = λ x u z ne. taken.same x u z z;
          null = taken.null;
        },
        refl,
      )
  | inr e ↦
      let away : first bs ≢ a = λ z. cc ((==_iff (first bs) a).1 z) in
      (
        record h { blocks = unlink a m1 },
        run ∙ take_later a m1 h (λ z. away (sym wf.head ∙ z)),
        record {
          wf = record {
            chain = taken.chain;
            head = wf.head ∙ sym (taken.was_later away);
            sorted = o;
            top_fits = wf.top_fits;
          };
          size = taken.size;
          same_end = refl;
          same = λ x u z ne. taken.same x u z z;
          null = taken.null;
        },
        refl,
      )
]

-- Where a free segment serves, `kmalloc` gives out the first one that fits exactly or is larger by
-- more than a header, cut to size; the rest of the list, the top and all headers outside the list
-- stay, and nothing is written through NULL. The heap is well formed and the size does not wrap
-- with its header.
pub kmalloc-first_fit :
    (h : Heap) (want a : ℕ) (bs cs : List Seg)
    → IsWf h bs
    → want + header_size < 2 ^ 64
    → first_fit want bs ≡ some (a, cs)
    → (h' : Heap) × (kmalloc want h ≡ ok (ptr a) h') × Given h want a bs cs h' × (h'.top ≡ h.top)
kmalloc-first_fit h want a bs cs wf k e =
    let many = length-Sorted heap_start h.top bs wf.sorted in
    let (m1, run, above, taken) =
      find_from-Finds (rounds h) h.blocks 0 heap_start h.top want bs a cs (omega arith)
        (omega arith) (omega arith) wf.sorted wf.top_fits k wf.chain (λ z. absurd (z refl)) e in
    let run' = ap (λ b. find_from (rounds h) want b h.blocks) wf.head ∙ run in
    kmalloc-Taken want a h m1 bs cs wf (omega arith) (kmalloc-take want a h m1 (omega arith) run')
      (Sorted-first_fit heap_start h.top want a bs cs wf.sorted e) taken
