-- ===== src/Elf/Relocs/Tests.antt =====
-- The theorem on relocations at a relative one without a symbol.
use smpl_osv.Base.{[], ◌∷◌}
use smpl_osv.Libc.{Bytes}
use smpl_osv.Elf.{bytes_of, Shdr, read_shdr}

-- A file at 4096 whose section 1 is at offset 512, with a relocation at 8192: type 2, offset 8 and
-- addend 5. The table of relocations says that it is about section 1.
abbrev linked : Bytes
linked =
    bytes_of
      ((4136, 64) ∷ (4249, 2) ∷ (8192, 8) ∷ (8200, 2) ∷ (8208, 5) ∷ (4616, 7) ∷ (6044, 1) ∷ [])

abbrev reltab : Shdr
reltab = read_shdr linked 6000
