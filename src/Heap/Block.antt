-- ===== src/Heap/Block.antt =====
-- `struct memblock` of src/kernel/include/memory.h, and writes to the fields of a header in memory.
use smpl_osv.Base.{ℕ, List, [], ◌∷◌, update}

-- `struct memblock`, packed: 3 + 8 + 8 + 8 bytes.
pub record Memblock : Type 0 where
  pub magic : List ℕ
  pub next : ℕ
  pub prev : ℕ
  pub size : ℕ

abbrev pub Blocks : Type 0
Blocks = ℕ → Memblock

abbrev pub header_size : ℕ
header_size = 27

-- Writes to one field of a header.
unfoldable pub set_next : ℕ → ℕ → Blocks → Blocks
set_next a v m = update m a (record (m a) { next = v })

unfoldable pub set_prev : ℕ → ℕ → Blocks → Blocks
set_prev a v m = update m a (record (m a) { prev = v })

unfoldable pub set_size : ℕ → ℕ → Blocks → Blocks
set_size a v m = update m a (record (m a) { size = v })

unfoldable pub set_magic : ℕ → Blocks → Blocks
set_magic a m = update m a (record (m a) { magic = b'M' ∷ b'E' ∷ b'M' ∷ [] })
