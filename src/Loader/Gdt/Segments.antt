-- ===== src/Loader/Gdt/Segments.antt =====
-- The segments that the loader's descriptor tables describe.
use smpl_osv.Base.{ℕ, ◌+◌, ◌*◌, ◌^◌, ◌<◌, ◌≡◌, List, [], ◌∷◌, arith}
use smpl_osv.Loader.Gdt.{GdtEntry, entry}

-- The base address that the processor reads from a descriptor.
abbrev pub base_of : GdtEntry → ℕ
base_of e = e.base_low + e.base_middle * 2 ^ 16 + e.base_high * 2 ^ 24

pub base_of-entry :
    (base limit access gran : ℕ) → base < 2 ^ 32 → base_of (entry base limit access gran) ≡ base
base_of-entry base limit access gran l = omega arith

-- The null descriptor, the kernel's code and data and the user's code and data.
abbrev pub segments : List GdtEntry
segments =
    entry 0 0 0 0
    ∷ entry 0 0xFFFFFFFF 0x9A 0xAF
    ∷ entry 0 0xFFFFFFFF 0x92 0xCF
    ∷ entry 0 0xFFFFFFFF 0xFA 0xAF
    ∷ entry 0 0xFFFFFFFF 0xF2 0xCF
    ∷ []
