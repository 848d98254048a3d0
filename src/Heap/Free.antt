-- ===== src/Heap/Free.antt =====
-- The three ways in which `kfree` of heap.c links a block in, and where insertion puts it.
use smpl_osv.Base.{
  ℕ, ◌+◌, ◌^◌, ◌≤◌, ◌<◌, ◌≡◌, refl, ◌≢◌, some, true, false, List, [], ◌∷◌, arith, ◌==◌, ltb, inl,
  inr, if◌then◌else◌, Bool-cases,
}
use smpl_osv.Heap.Block.{header_size, set_next, set_prev}
use smpl_osv.Heap.Spec.{Seg, seg_end, Sorted, within, cover, insert}
use smpl_osv.Heap.Chain.{lo-le-hi}
use smpl_osv.Heap.{
  Heap, ok, ptr, hdr, rounds, insert_after, insert_front, find_parent, merge_blocks, kfree,
}

pub hdr-ptr : (a : ℕ) → a + header_size < 2 ^ 64 → hdr (ptr a) ≡ a
hdr-ptr a h = omega arith

pub kfree-empty :
    (h : Heap) (mem a : ℕ)
    → hdr mem ≡ a
    → h.free_list ≡ 0
    → kfree mem h
      ≡ ok tt (record h { blocks = set_next a 0 (set_prev a 0 h.blocks); free_list = a })
unfolding kfree
kfree-empty h mem a e z = rw (z, e)

pub kfree-front :
    (h : Heap) (mem a b : ℕ)
    → hdr mem ≡ a
    → h.free_list ≡ b
    → b ≢ 0
    → a < b
    → kfree mem h
      ≡ merge_blocks (rounds h) (record h { blocks = insert_front b a h.blocks; free_list = a })
unfolding kfree
kfree-front h mem a b e fl nz l =
    let nz' : (h.free_list == 0) ≡ false = ground arith in
    let l' : ltb (hdr mem) h.free_list ≡ true = ground arith in rw (nz', l', e, fl)

pub kfree-behind :
    (h : Heap) (mem a b q : ℕ)
    → hdr mem ≡ a
    → h.free_list ≡ b
    → b ≢ 0
    → b ≤ a
    → find_parent (rounds h) b a h.blocks ≡ some q
    → kfree mem h ≡ merge_blocks (rounds h) (record h { blocks = insert_after q a h.blocks })
unfolding kfree
kfree-behind h mem a b q e fl nz l run =
    let nz' : (h.free_list == 0) ≡ false = ground arith in
    let l' : ltb (hdr mem) h.free_list ≡ false = ground arith in
    let run' : find_parent (rounds h) h.free_list (hdr mem) h.blocks ≡ some q = rw (e, fl) run in
    rw (nz', l', run', kfree) (rw e)

pub cover-insert :
    (x a s : ℕ) (bs : List Seg)
    → cover x (insert a s bs) ≡ (if within x a s then 1 else 0) + cover x bs
unfolding cover insert
cover-insert x a s [] = refl
cover-insert x a s ((b, t) ∷ bs) = elim (Bool-cases (ltb a b)) [
  | inl h ↦ rw h
  | inr h ↦ rw h (omega (arith, cover-insert x a s bs))
]

pub insert-end :
    (a s lo hi : ℕ) (bs : List Seg) → Sorted lo hi (insert a s bs) → (lo ≤ a) × (seg_end a s ≤ hi)
unfolding insert
insert-end a s lo hi [] o = o
insert-end a s lo hi ((b, t) ∷ bs) o = elim (Bool-cases (ltb a b)) [
  | inl h ↦ let o' = rw h at o in (o'.0, lo-le-hi (seg_end a s) hi ((b, t) ∷ bs) o'.1)
  | inr h ↦
      let o' = rw h at o in
      let ih = insert-end a s (seg_end b t) hi bs o'.1 in (omega (arith, o'.0), ih.1)
]
