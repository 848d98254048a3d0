-- ===== src/Heap.antt =====
-- The kernel heap, src/kernel/src/mem/heap.c: a bump pointer, and an address-ordered doubly linked
-- list of free blocks that are split and merged. Memory is seen through the headers: a function
-- from an address to the `memblock` that is read there. The loops run on fuel that the addresses
-- bound.
pub mod Block
pub mod Spec
pub mod Chain
pub mod Merge
pub mod Insert
pub mod Wf
pub mod Free
pub mod Release
pub mod Cut
pub mod Alloc
pub mod Search
pub mod Kmalloc
pub mod Bump
pub mod Cover
pub mod System
pub mod Tiling
pub mod Reachable
pub mod Realloc
mod Tests
use smpl_osv.Base.{
  ℕ, zero, suc, ◌+◌, ◌-◌, ◌*◌, ◌/◌, ◌%◌, ◌^◌, Bool, ◌&&◌, not, Option, none, some, List, [], ◌∷◌,
  ltb, ◌==◌, if◌then◌else◌,
}
use smpl_osv.Base.Bits.{u64}
use smpl_osv.Heap.Block.{Memblock, Blocks, header_size, set_next, set_prev, set_size, set_magic}

abbrev pub heap_start : ℕ
heap_start = 0xb00000

-- The static variables `heap_top`, `heap_end` and `free_list`, and the headers in memory.
pub record Heap : Type 0 where
  pub blocks : Blocks
  pub top : ℕ
  pub end : ℕ
  pub free_list : ℕ

-- `PTR` and `HDR`.
abbrev pub ptr : ℕ → ℕ
ptr block = u64 (block + header_size)

abbrev pub hdr : ℕ → ℕ
hdr mem = u64 (mem + 2 ^ 64 - header_size)

-- The part of `find_free_block` that cuts a block of `size` bytes off the front of a larger one:
-- the headers of the two parts, then the links.
pub write_headers : ℕ → ℕ → ℕ → Blocks → Blocks
write_headers block new_block size m =
    let o_size = (m block).size in
    let m1 = set_magic new_block (set_size block size m) in
    set_size new_block (u64 (o_size + 2 ^ 65 - size - header_size)) m1

pub link_behind : ℕ → ℕ → Blocks → Blocks
link_behind block new_block m =
    let next = (m block).next in
    let m1 = if next == 0 then m else set_prev next new_block m in
    let m2 = set_next new_block (m1 block).next m1 in
    set_next block new_block (set_prev new_block block m2)

pub split : ℕ → ℕ → Blocks → Blocks
unfolding write_headers link_behind
split block size m =
    let new_block = u64 (ptr block + size) in
    link_behind block new_block (write_headers block new_block size m)

-- The loop of `find_free_block`; 0 is NULL, and `none` means that the fuel ran out.
pub find_from : ℕ → ℕ → ℕ → Blocks → Option (ℕ × Blocks)
find_from zero size block m = none
find_from (suc fuel) size block m =
    let rest = find_from fuel size (m block).next m in
    if block == 0
    then some (0, m)
    else if (m block).size == size
    then some (block, m)
    else if ltb (u64 (size + header_size)) (m block).size
    then some (block, split block size m)
    else rest

-- The three branches of `kmalloc` that take a block out of the list.
pub unlink : ℕ → Blocks → Blocks
unlink block m =
    let next = (m block).next in
    let prev = (m block).prev in
    if not (next == 0) && not (prev == 0)
    then (let m1 = set_next prev next m in set_prev (m1 block).next (m1 block).prev m1)
    else if not (prev == 0)
    then set_next prev 0 m
    else if not (next == 0)
    then set_prev next 0 m
    else m

-- `panicked` is the call of `panic`, which halts the machine.
pub data Result (A : Type 0) : Type 0 where
  ok : A → Heap → Result A
  panicked : Result A
  out_of_fuel : Result A

-- A block takes at least its header, so this is more than the number of blocks below the top.
abbrev pub rounds : Heap → ℕ
rounds h = (h.top - heap_start) / header_size + 2

-- `kmalloc` where no free block serves: a new block at the top.
pub write_new : ℕ → ℕ → Blocks → Blocks
write_new block size m =
    let m1 = set_magic block (set_size block size m) in
    set_prev block 0xccccccccdddddddd (set_next block 0xaaaaaaaabbbbbbbb m1)

pub bump : ℕ → Heap → Result ℕ
unfolding write_new
bump size h =
    if ltb h.end (u64 (h.top + size + header_size))
    then panicked
    else ok (ptr h.top) (record h {
      blocks = write_new h.top size h.blocks;
      top = u64 (h.top + header_size + size);
    })

-- `kmalloc` where a free block serves.
pub take_block : ℕ → Blocks → Heap → Result ℕ
unfolding unlink
take_block block m h =
    let m' = unlink block m in
    let first = if block == h.free_list then (m' block).next else h.free_list in
    ok (ptr block) (record h { blocks = m'; free_list = first })

pub kmalloc : ℕ → Heap → Result ℕ
unfolding find_from split bump take_block
kmalloc size h = elim (find_from (rounds h) size h.free_list h.blocks) [
  | none ↦ out_of_fuel
  | some (block, m) ↦
      if block == 0 then bump size (record h { blocks = m }) else take_block block m h
]

-- The two loops of `merge_blocks`: while the next block begins where this one ends it is absorbed.
-- The write to `prev` of the new next block is made at address 0 too.
pub absorb : ℕ → Blocks → Blocks
absorb block m =
    let m1 = set_size block (u64 ((m block).size + (m (m block).next).size + header_size)) m in
    let m2 = set_next block (m1 (m1 block).next).next m1 in set_prev (m2 block).next block m2

pub merge_from : ℕ → ℕ → Blocks → Option Blocks
merge_from zero block m = none
merge_from (suc fuel) block m =
    let on = merge_from fuel (m block).next m in
    let again = merge_from fuel block (absorb block m) in
    if block == 0
    then some m
    else if u64 (ptr block + (m block).size) == (m block).next
    then again
    else on

-- The loop of `kfree` that looks for the block to insert behind.
pub find_parent : ℕ → ℕ → ℕ → Blocks → Option ℕ
find_parent zero parent block m = none
find_parent (suc fuel) parent block m =
    let on = find_parent fuel (m parent).next block m in
    if not ((m parent).next == 0) && ltb (m parent).next block then on else some parent

pub insert_after : ℕ → ℕ → Blocks → Blocks
insert_after parent block m =
    if (m parent).next == 0
    then (let m1 = set_next parent block m in set_next block 0 (set_prev block parent m1))
    else let m1 = set_prev (m parent).next block m in
      let m2 = set_next block (m1 parent).next m1 in
      set_prev block parent (set_next parent block m2)

pub insert_front : ℕ → ℕ → Blocks → Blocks
insert_front front block m = set_prev front block (set_prev block 0 (set_next block front m))

-- `merge_blocks`, at the end of `kfree`.
pub merge_blocks : ℕ → Heap → Result (Unit {0})
unfolding merge_from absorb
merge_blocks fuel h = elim (merge_from fuel h.free_list h.blocks) [
  | none ↦ out_of_fuel
  | some m ↦ ok tt (record h { blocks = m })
]

pub kfree : ℕ → Heap → Result (Unit {0})
unfolding find_parent insert_after insert_front merge_blocks
kfree mem h =
    let block = hdr mem in
    if h.free_list == 0
    then ok tt
        (record h { blocks = set_next block 0 (set_prev block 0 h.blocks); free_list = block })
    else if ltb block h.free_list
    then merge_blocks (rounds h)
        (record h { blocks = insert_front h.free_list block h.blocks; free_list = block })
    else elim (find_parent (rounds h) h.free_list block h.blocks) [
      | none ↦ out_of_fuel
      | some parent ↦
          merge_blocks (rounds h) (record h { blocks = insert_after parent block h.blocks })
    ]
