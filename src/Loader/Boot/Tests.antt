-- ===== src/Loader/Boot/Tests.antt =====
-- The theorem on `loader_main` at a memory map with one region and the kernel's module.
use smpl_osv.Base.{ℕ, ◌+◌, ◌≡◌, refl, arith, some, List, [], ◌∷◌}
use smpl_osv.Libc.{Bytes}
use smpl_osv.Libc.Cstr.{IsCstr}
use smpl_osv.Elf.{bytes_of}
use smpl_osv.Pmm.Boot.{Region}
use smpl_osv.Loader.Boot.Layout.{
  Tag, mmap_tag, module_tag, all_regions, initrd_name, kernel_name, IsTags, Stands,
}
use smpl_osv.Loader.Boot.Scanned.{loader_main-regions}
use smpl_osv.Loader.Boot.{Names, Bootinfo, starts, loader_main}

-- The literals are at 100 and 110, the tags from 1008 on: a memory map, a module, the end.
abbrev loaded : Bytes
loaded = bytes_of (
    (100, 75)
    ∷ (101, 69)
    ∷ (102, 82)
    ∷ (103, 78)
    ∷ (104, 69)
    ∷ (105, 76)
    ∷ (110, 73)
    ∷ (111, 78)
    ∷ (112, 73)
    ∷ (113, 84)
    ∷ (114, 82)
    ∷ (115, 68)
    ∷ (1008, 6)
    ∷ (1012, 40)
    ∷ (1016, 24)
    ∷ (1026, 16)
    ∷ (1033, 16)
    ∷ (1040, 1)
    ∷ (1048, 3)
    ∷ (1052, 23)
    ∷ (1057, 5)
    ∷ (1061, 6)
    ∷ (1064, 75)
    ∷ (1065, 69)
    ∷ (1066, 82)
    ∷ (1067, 78)
    ∷ (1068, 69)
    ∷ (1069, 76)
    ∷ [])

abbrev literals : Names
literals = record { kernel = 100; initrd = 110; fuel = 10 }

abbrev tags : List Tag
tags =
    mmap_tag 24 (record { addr = 0x100000; len = 0x1000; type = 1 } ∷ [])
    ∷ module_tag 1280 1536 kernel_name
    ∷ []

abbrev unset : ℕ → Region
unset i = record { start = 0; end = 0; type = 0 }

kernel-IsCstr : IsCstr loaded literals.kernel kernel_name
kernel-IsCstr = omega arith

initrd-IsCstr : IsCstr loaded literals.initrd initrd_name
initrd-IsCstr = omega arith

tags-IsTags : IsTags loaded literals.fuel (1000 + 8) tags
tags-IsTags = (
  40,
  refl,
  omega arith,
  (refl, refl, omega arith, refl, (refl, refl, refl, tt)),
  (23, refl, omega arith, (refl, refl, refl, omega arith, omega arith), refl),
)

loader_main-regions_example :
    (info : Bootinfo) × (loader_main 5 literals 4000 unset 7 1000 0x36d76289 loaded
      ≡ some (starts 1280 info))
    × (info.mem_size ≡ 1)
    × Stands info.memory 0 (all_regions tags)
    × (info.initrd ≡ 0xFFFFFFFF)
    × (info.framebuffer ≡ 7)
loader_main-regions_example =
    loader_main-regions literals loaded kernel-IsCstr initrd-IsCstr 5 4000 7 1000 unset tags
      (omega arith) refl (omega arith) (omega arith) tags-IsTags
