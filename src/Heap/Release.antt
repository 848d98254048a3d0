-- ===== src/Heap/Release.antt =====
-- `kfree` of heap.c against the list of segments: insertion in address order, then coalescing.
use smpl_osv.Base.{
  ℕ, ◌<◌, ◌≡◌, refl, ap, ◌∙◌, ◌≢◌, List, [], ◌∷◌, arith, ltb, inl, inr, update, Bool-cases, ltb→lt,
}
use smpl_osv.Heap.Block.{Blocks, set_next, set_prev}
use smpl_osv.Heap.Spec.{Seg, seg_end, Chain, Sorted, cover, insert, coalesce}
use smpl_osv.Heap.Chain.{cover-head, cover-tail, lo-le-hi, length-Sorted, Chain-set_prev}
use smpl_osv.Heap.Insert.{find_parent-Placed, lo-le-insert}
use smpl_osv.Heap.Free.{hdr-ptr, kfree-empty, kfree-front, kfree-behind, cover-insert, insert-end}
use smpl_osv.Heap.Merge.{NullPrev-same, NullPrev-trans}
use smpl_osv.Heap.Wf.{IsWf, Freed, merge_blocks-Wf}
use smpl_osv.Heap.{Heap, ok, heap_start, ptr, rounds, insert_after, insert_front, kfree}

not_covered : (x a s : ℕ) (bs : List Seg) → cover x (insert a s bs) ≡ 0 → (x ≢ a) × (cover x bs ≡ 0)
not_covered x a s bs h =
    (ground (arith, cover-insert x a s bs), omega (arith, cover-insert x a s bs))

module _ (m : Blocks) (a b : ℕ) (apart : a ≢ b) where
  insert_front_self : insert_front b a m a ≡ record (m a) { next = b; prev = 0 }
  unfolding insert_front set_next set_prev update
  insert_front_self = ground arith

  insert_front_next : insert_front b a m b ≡ record (m b) { prev = a }
  unfolding insert_front set_next set_prev update
  insert_front_next = ground arith

  insert_front_other : (x : ℕ) → x ≢ a → x ≢ b → insert_front b a m x ≡ m x
  unfolding insert_front set_next set_prev update
  insert_front_other x p q = ground arith

lone_self :
    (m : Blocks) (a : ℕ) → set_next a 0 (set_prev a 0 m) a ≡ record (m a) { next = 0; prev = 0 }
unfolding set_next set_prev update
lone_self m a = ground arith

lone_other : (m : Blocks) (a x : ℕ) → x ≢ a → set_next a 0 (set_prev a 0 m) x ≡ m x
unfolding set_next set_prev update
lone_other m a x h = ground arith

-- What `kfree` promises of a block with the header at `a`.
abbrev pub Released : Heap → ℕ → ℕ → List Seg → Type 0
Released h a s bs =
    (h' : Heap) × (kfree (ptr a) h ≡ ok tt h')
    × Freed h (insert a s bs) (coalesce (insert a s bs)) h'

kfree_empty-Released :
    (h : Heap) (a s : ℕ)
    → IsWf h []
    → Sorted heap_start h.top (insert a s [])
    → (h.blocks a).size ≡ s
    → Released h a s []
unfolding insert coalesce cover
kfree_empty-Released h a s wf o size =
    let self = lone_self h.blocks a in
    (
      record h { blocks = set_next a 0 (set_prev a 0 h.blocks); free_list = a },
      kfree-empty h (ptr a) a (hdr-ptr a (omega (arith, wf.top_fits))) wf.head,
      record {
        wf = record {
          chain = (ap (λ r. r.size) self ∙ size, ap (λ r. r.prev) self, ap (λ r. r.next) self, tt);
          head = refl;
          sorted = o;
          top_fits = wf.top_fits;
        };
        same_top = refl;
        same_end = refl;
        same = λ x u z. lone_other h.blocks a x (cover-head x a s [] u);
        null =
            NullPrev-same h.blocks (set_next a 0 (set_prev a 0 h.blocks))
              (lone_other h.blocks a 0 (omega (arith, o.0)));
      },
    )

-- The merge leaves alone what lies outside the segments, and so did the insertion.
Freed-trans :
    (h g : Heap) (bs cs : List Seg)
    → g.top ≡ h.top
    → g.end ≡ h.end
    → ((x : ℕ) → cover x bs ≡ 0 → x ≢ 0 → g.blocks x ≡ h.blocks x)
    → g.blocks 0 ≡ h.blocks 0
    → (h' : Heap) → Freed g bs cs h'
    → Freed h bs cs h'
Freed-trans h g bs cs t e same null h' f = record {
  wf = f.wf;
  same_top = f.same_top ∙ t;
  same_end = f.same_end ∙ e;
  same = λ x u z. f.same x u z ∙ same x u z;
  null = NullPrev-trans h.blocks g.blocks h'.blocks (NullPrev-same h.blocks g.blocks null) f.null;
}

kfree_front-Released :
    (h : Heap) (a s b t : ℕ) (bs : List Seg)
    → a < b
    → insert a s ((b, t) ∷ bs) ≡ (a, s) ∷ (b, t) ∷ bs
    → IsWf h ((b, t) ∷ bs)
    → Sorted heap_start h.top ((a, s) ∷ (b, t) ∷ bs)
    → (h.blocks a).size ≡ s
    → Released h a s ((b, t) ∷ bs)
kfree_front-Released h a s b t bs l front wf o size =
    let g = record h { blocks = insert_front b a h.blocks; free_list = a } in
    let top = lo-le-hi (seg_end b t) h.top bs o.1.1 in
    let self = insert_front_self h.blocks a b (omega arith) in
    let next = insert_front_next h.blocks a b (omega arith) in
    let other = insert_front_other h.blocks a b (omega arith) in
    let chain : Chain g.blocks 0 ((a, s) ∷ (b, t) ∷ bs) = (
      ap (λ r. r.size) self ∙ size,
      ap (λ r. r.prev) self,
      ap (λ r. r.next) self,
      Chain-set_prev h.blocks g.blocks 0 a b h.top ((b, t) ∷ bs) (omega arith) (omega arith, o.1.1)
          (λ _. next) (λ x lx nx. other x (omega arith) nx) wf.chain,
    ) in
    let (h', run, freed) = merge_blocks-Wf g a s ((b, t) ∷ bs) chain refl o wf.top_fits in
    (
      h',
      kfree-front h (ptr a) a b (hdr-ptr a (omega (arith, wf.top_fits))) wf.head (omega arith) l
          ∙ run,
      rw front (
          Freed-trans h g ((a, s) ∷ (b, t) ∷ bs) _ refl refl
            (λ x u z.
              other x (cover-head x a s ((b, t) ∷ bs) u)
                (cover-head x b t bs (cover-tail x a s ((b, t) ∷ bs) u)))
            (other 0 (omega (arith, o.0)) (omega arith)) h' freed),
    )

kfree_behind-Released :
    (h : Heap) (a s b t : ℕ) (bs : List Seg)
    → b < a
    → insert a s ((b, t) ∷ bs) ≡ (b, t) ∷ insert a s bs
    → IsWf h ((b, t) ∷ bs)
    → Sorted heap_start h.top ((b, t) ∷ insert a s bs)
    → (h.blocks a).size ≡ s
    → Released h a s ((b, t) ∷ bs)
kfree_behind-Released h a s b t bs l on wf o size =
    let many = length-Sorted heap_start h.top ((b, t) ∷ bs) wf.sorted in
    let top = lo-le-hi (seg_end b t) h.top bs wf.sorted.1 in
    let a_end = insert-end a s (seg_end b t) h.top bs o.1 in
    let pos : 0 < b = omega (arith, o.0) in
    let (q, found, placed) =
      find_parent-Placed (rounds h) h.blocks b (seg_end b t) h.top a s bs (omega arith) pos
        (omega arith) o.1 wf.sorted.1 wf.chain.2 size wf.chain.3 in
    let g = record h { blocks = insert_after q a h.blocks } in
    let new = placed.parent in
    let chain : Chain g.blocks 0 ((b, t) ∷ insert a s bs) = (
      ap (λ r. r.size) new ∙ wf.chain.0,
      ap (λ r. r.prev) new ∙ wf.chain.1,
      ap (λ r. r.next) new,
      placed.chain,
    ) in
    let (h', run, freed) = merge_blocks-Wf g b t (insert a s bs) chain wf.head o wf.top_fits in
    (
      h',
      kfree-behind h (ptr a) a b q (hdr-ptr a (omega (arith, wf.top_fits))) wf.head (omega arith)
            (omega arith) found
          ∙ run,
      rw on (
          Freed-trans h g ((b, t) ∷ insert a s bs) _ refl refl
            (λ x u z.
              let (x≢a, out) = not_covered x a s bs (cover-tail x b t (insert a s bs) u) in
              placed.same x out z x≢a (cover-head x b t (insert a s bs) u))
            placed.null h' freed),
    )

-- Freeing the block at `a` gives a well-formed heap whose segments are the old ones with this one
-- inserted in address order and touching ones joined. The top and the end stay, and so do the
-- headers outside these segments, but for the field `prev` of a header at address 0, which
-- `merge_blocks` writes through NULL where it absorbs the last block; that page is taken to be
-- mapped, as `init_paging` maps it. The heap is well formed, the block fits between its segments,
-- and its header holds its size.
pub kfree-coalesce :
    (h : Heap) (a s : ℕ) (bs : List Seg)
    → IsWf h bs
    → Sorted heap_start h.top (insert a s bs)
    → (h.blocks a).size ≡ s
    → (h' : Heap) × (kfree (ptr a) h ≡ ok tt h')
      × Freed h (insert a s bs) (coalesce (insert a s bs)) h'
kfree-coalesce h a s [] wf o size = kfree_empty-Released h a s wf o size
kfree-coalesce h a s ((b, t) ∷ bs) wf o size = elim (Bool-cases (ltb a b)) [
  | inl before ↦
      let front : insert a s ((b, t) ∷ bs) ≡ (a, s) ∷ (b, t) ∷ bs = unfold insert in rw before in
      kfree_front-Released h a s b t bs (ltb→lt a b before) front wf (rw front at o) size
  | inr after ↦
      let on : insert a s ((b, t) ∷ bs) ≡ (b, t) ∷ insert a s bs = unfold insert in rw after in
      let o' = rw on at o in
      let behind = lo-le-insert a s (seg_end b t) h.top bs o'.1 in
      kfree_behind-Released h a s b t bs (omega arith) on wf o' size
]
