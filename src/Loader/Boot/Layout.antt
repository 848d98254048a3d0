-- ===== src/Loader/Boot/Layout.antt =====
-- Multiboot tags as a boot loader lays them out, and what is to be learned from them.
use smpl_osv.Base.{
  ℕ, ◌+◌, ◌*◌, ◌/◌, ◌^◌, ◌≤◌, ◌<◌, ◌≡◌, ◌≢◌, List, [], ◌∷◌, ◌++◌, length, if◌then◌else◌,
}
use smpl_osv.Base.Bits.{u8, u32, u64}
use smpl_osv.Libc.{Bytes, string_eq}
use smpl_osv.Libc.Cstr.{IsCstr}
use smpl_osv.Elf.{le32, le64}
use smpl_osv.Pmm.Boot.{Region}

-- An entry of the memory map: address, length, type.
pub record Entry : Type 0 where
  pub addr : ℕ
  pub len : ℕ
  pub type : ℕ

pub data Tag : Type 0 where
  mmap_tag : ℕ → List Entry → Tag
  module_tag : ℕ → ℕ → List ℕ → Tag
  framebuffer_tag : ℕ → Tag
  other_tag : ℕ → Tag

abbrev pub entries_size : ℕ → List Entry → ℕ
entries_size s [] = 0
entries_size s (e ∷ es) = s + entries_size s es

abbrev pub IsEntries : Bytes → ℕ → ℕ → List Entry → Type 0
IsEntries m s at [] = Unit
IsEntries m s at (e ∷ es) =
    (le64 m at ≡ e.addr)
    × (le64 m (at + 8) ≡ e.len)
    × (le32 m (at + 16) ≡ e.type)
    × IsEntries m s (at + s) es

-- What stands at a tag, of `size` bytes, for names shorter than `bound`.
abbrev pub IsTag : Bytes → ℕ → ℕ → ℕ → Tag → Type 0
IsTag m bound at size (mmap_tag s es) =
    (le32 m at ≡ 6)
    × (le32 m (at + 8) ≡ s)
    × (1 ≤ s)
    × (size ≡ 16 + entries_size s es)
    × IsEntries m s (at + 16) es
IsTag m bound at size (module_tag start end name) =
    (le32 m at ≡ 3)
    × (le32 m (at + 8) ≡ start)
    × (le32 m (at + 12) ≡ end)
    × IsCstr m (at + 16) name
    × (length name < bound)
IsTag m bound at size (framebuffer_tag addr) = (le32 m at ≡ 8) × (le64 m (at + 8) ≡ addr)
IsTag m bound at size (other_tag type) =
    (le32 m at ≡ type) × (type ≢ 0) × (type ≢ 3) × (type ≢ 6) × (type ≢ 8)

-- Tags one after the other at multiples of 8, and the tag of type 0 behind them, below 4 GiB.
abbrev pub IsTags : Bytes → ℕ → ℕ → List Tag → Type 0
IsTags m bound at [] = le32 m at ≡ 0
IsTags m bound at (t ∷ ts) =
    (size : ℕ) × (le32 m (at + 4) ≡ size)
    × (at + size + 7 < 2 ^ 32)
    × IsTag m bound at size t
    × IsTags m bound (at + (size + 7) / 8 * 8) ts

abbrev pub region_of : Entry → Region
region_of e = record { start = e.addr; end = u64 (e.addr + e.len); type = u8 e.type }

abbrev pub regions_of : List Entry → List Region
regions_of [] = []
regions_of (e ∷ es) = region_of e ∷ regions_of es

-- What a tag tells: the regions of a memory map, in order; the start of a module of a name and the
-- address of a framebuffer, or what is given.
abbrev pub tag_regions : Tag → List Region
tag_regions (mmap_tag s es) = regions_of es
tag_regions (module_tag start end n) = []
tag_regions (framebuffer_tag addr) = []
tag_regions (other_tag type) = []

abbrev pub tag_module : List ℕ → Tag → ℕ → ℕ
tag_module name (mmap_tag s es) d = d
tag_module name (module_tag start end n) d = if string_eq n name then start else d
tag_module name (framebuffer_tag addr) d = d
tag_module name (other_tag type) d = d

abbrev pub tag_framebuffer : Tag → ℕ → ℕ
tag_framebuffer (mmap_tag s es) d = d
tag_framebuffer (module_tag start end n) d = d
tag_framebuffer (framebuffer_tag addr) d = u32 addr
tag_framebuffer (other_tag type) d = d

-- The regions of all memory maps; the last module of a name and the last framebuffer.
abbrev pub all_regions : List Tag → List Region
all_regions [] = []
all_regions (t ∷ ts) = tag_regions t ++ all_regions ts

abbrev pub last_module : List ℕ → List Tag → ℕ → ℕ
last_module name [] d = d
last_module name (t ∷ ts) d = last_module name ts (tag_module name t d)

abbrev pub last_framebuffer : List Tag → ℕ → ℕ
last_framebuffer [] d = d
last_framebuffer (t ∷ ts) d = last_framebuffer ts (tag_framebuffer t d)

abbrev pub kernel_name : List ℕ
kernel_name = 75 ∷ 69 ∷ 82 ∷ 78 ∷ 69 ∷ 76 ∷ []

abbrev pub initrd_name : List ℕ
initrd_name = 73 ∷ 78 ∷ 73 ∷ 84 ∷ 82 ∷ 68 ∷ []

-- The regions stand in a table from an index on.
abbrev pub Stands : (ℕ → Region) → ℕ → List Region → Type 0
Stands f p [] = Unit
Stands f p (r ∷ rs) = (f p ≡ r) × Stands f (p + 1) rs
