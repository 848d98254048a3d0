-- ===== src/Paging.antt =====
-- The page tables of the kernel, src/kernel/src/mem/paging.c. Memory is the frames of Mmu; the
-- tables below the first are read and written through the recursive entry 511, so through the walk
-- of the processor, and `none` is a page fault or what C leaves undefined. The caching of page
-- tables is left out.
pub mod Index
pub mod Entries
pub mod Tree
pub mod Ensure
pub mod Steps
pub mod Mapped
pub mod Unmap
pub mod Start
pub mod Kalloc
mod Tests
use smpl_osv.Base.{
  ℕ, zero, suc, ◌+◌, ◌*◌, ◌/◌, ◌%◌, ◌^◌, Bool, true, false, Option, none, some, not, ◌==◌,
  if◌then◌else◌, ltb, bit_and, bit_or, update,
}
use smpl_osv.Base.Bits.{u16, u32, u64, shl, shr}
use smpl_osv.Pmm.{Pmm, falloc}
use smpl_osv.Mmu.{Frames, store, walk}

infixl 5 ◌>>=◌
abbrev pub ◌>>=◌ {ℓ κ} : {A : Type ℓ} {B : Type κ} → Option A → (A → Option B) → Option B
none >>= f = none
some a >>= f = f a

-- Memory, the table that the processor uses, the frame of `current_pml4`, and the free frames.
pub record Paging : Type 0 where
  pub frames : Frames
  pub cr3 : ℕ
  pub current : ℕ
  pub pmm : Pmm

-- The four indices that `mapf`, `unmap` and `to_physical` take from an address.
abbrev pub pml4_idx : ℕ → ℕ
pml4_idx virtual = bit_and (shr (u32 (shr virtual 32)) 7) 0x1FF

abbrev pub pdp_idx : ℕ → ℕ
pdp_idx virtual =
    let v_hi = u32 (shr virtual 32) in
    let v_lo = u32 virtual in bit_or (bit_and (u32 (shl v_hi 2)) 0x1FC) (bit_and (shr v_lo 30) 0x3)

abbrev pub pd_idx : ℕ → ℕ
pd_idx virtual = bit_and (shr (u32 virtual) 21) 0x1FF

abbrev pub pt_idx : ℕ → ℕ
pt_idx virtual = bit_and (shr (u32 virtual) 12) 0x1FF

abbrev pub pdp_mapping : ℕ → ℕ
pdp_mapping i = 0xFFFFFFFFFFE00000 + 0x1000 * i

abbrev pub pd_mapping : ℕ → ℕ → ℕ
pd_mapping i j = 0xFFFFFFFFC0000000 + 0x200000 * i + 0x1000 * j

-- The product with the first index is one of `int` and overflows from 2 on.
abbrev pub pt_mapping : ℕ → ℕ → ℕ → Option ℕ
pt_mapping i j k =
    if ltb i 2 then some (0xFFFFFF8000000000 + 0x40000000 * i + 0x200000 * j + 0x1000 * k) else none

-- The frame and the index of the word at an address.
abbrev pub locate : Paging → ℕ → Option (ℕ × ℕ)
locate s virtual = do
  address ← walk s.frames s.cr3 virtual
  some (address / 2 ^ 12, address % 2 ^ 12 / 8)

abbrev pub is_present : ℕ → Bool
is_present e = e % 2 == 1

-- What `mapf` does at each of the upper three levels: a missing table is allocated and cleared
-- through the window that the recursive entry opens on it; a table at hand gets the new flags.
pub ensure : ℕ × ℕ → ℕ → ℕ → Paging → Option Paging
ensure place window flags s =
    let e = s.frames place.0 place.1 in
    let kept = bit_or (bit_and e 0xFFFFFFFFFFFFF001) flags in
    let (frame, pmm) = falloc s.pmm in
    let fresh = bit_or (bit_or frame 1) flags in
    let linked = record s { frames = store place.0 place.1 fresh s.frames; pmm = pmm } in
    if is_present e then some (record s { frames = store place.0 place.1 kept s.frames }) else do
      table ← locate linked window
      let cleared =
          update linked.frames table.0 (λ j. if ltb j 512 then 0 else linked.frames table.0 j)
      some (record linked { frames = cleared })

pub mapf : ℕ → ℕ → ℕ → Paging → Option Paging
unfolding ensure store
mapf physical virtual flags s =
    let i4 = pml4_idx virtual in
    let i3 = pdp_idx virtual in
    let i2 = pd_idx virtual in
    let i1 = pt_idx virtual in
    do
      s1 ← ensure (s.current, i4) (pdp_mapping i4) flags s
      place3 ← locate s1 (pdp_mapping i4 + 8 * i3)
      s2 ← ensure place3 (pd_mapping i4 i3) flags s1
      place2 ← locate s2 (pd_mapping i4 i3 + 8 * i2)
      window ← pt_mapping i4 i3 i2
      s3 ← ensure place2 window flags s2
      place1 ← locate s3 (window + 8 * i1)
      some (record s3 {
        frames = store place1.0 place1.1 (bit_or (bit_or physical 1) flags) s3.frames;
      })

pub map : ℕ → ℕ → Paging → Option Paging
unfolding mapf
map physical virtual s = mapf physical virtual 2 s

-- Whether the entry at each of the upper levels is present, then the place of the last.
pub find_entry : ℕ → Paging → Option (Option (ℕ × ℕ))
find_entry virtual s =
    let i4 = pml4_idx virtual in
    let i3 = pdp_idx virtual in
    let i2 = pd_idx virtual in
    if not (is_present (s.frames s.current i4)) then some none else do
      place3 ← locate s (pdp_mapping i4 + 8 * i3)
      if not (is_present (s.frames place3.0 place3.1)) then some none else do
        place2 ← locate s (pd_mapping i4 i3 + 8 * i2)
        if not (is_present (s.frames place2.0 place2.1)) then some none else do
          window ← pt_mapping i4 i3 i2
          place1 ← locate s (window + 8 * pt_idx virtual)
          some (some place1)

pub unmap : ℕ → Paging → Option Paging
unfolding find_entry store
unmap virtual s = do
  found ← find_entry virtual s
  some (elim found [
    | some place ↦ record s { frames = store place.0 place.1 0 s.frames }
    | none ↦ s
  ])

pub to_physical : ℕ → Paging → Option ℕ
unfolding find_entry
to_physical virtual s = do
  found ← find_entry virtual s
  some (elim found [
    | some place ↦
        (let e = s.frames place.0 place.1 in if is_present e then bit_and e 0xFFFFF000 else 0)
    | none ↦ 0
  ])
