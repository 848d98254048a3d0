-- ===== src/Paging/Kalloc.antt =====
-- `kalloc_f`, `kalloc` and `init_heap` of src/kernel/src/mem/heap.c: pages mapped to frames of
-- `falloc`.
use smpl_osv.Base.{ℕ, zero, suc, ◌+◌, ◌*◌, ◌/◌, Option, some}
use smpl_osv.Base.Bits.{u32, u64}
use smpl_osv.Pmm.{falloc}
use smpl_osv.Heap.{Heap, heap_start}
use smpl_osv.Paging.{Paging, ◌>>=◌, mapf}

-- The last `n` rounds of the loop, whose index has 32 bits, from page `i` on.
pub map_pages : ℕ → ℕ → ℕ → ℕ → Paging → Option Paging
map_pages zero i start flags s = some s
map_pages (suc n) i start flags s = do
  let (frame, pmm) = falloc s.pmm
  s' ← mapf frame (u64 (start + u32 (i * 4096))) flags (record s { pmm = pmm })
  map_pages n (suc i) start flags s'

pub kalloc_f : ℕ → ℕ → ℕ → Paging → Option (ℕ × Paging)
unfolding map_pages
kalloc_f start size flags s = do s' ← map_pages size 0 start flags s; some (start, s')

pub kalloc : ℕ → ℕ → Paging → Option (ℕ × Paging)
unfolding kalloc_f
kalloc start size s = kalloc_f start size 2 s

pub init_heap : ℕ → Heap → Paging → Option (Heap × Paging)
unfolding kalloc_f
init_heap size h s = do
  (_, s') ← kalloc_f heap_start (size / 4096) 0x102 s
  some (record h { end = u64 (heap_start + size * 4096) }, s')
