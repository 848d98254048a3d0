-- ===== src/Elf/Symbols/Tests.antt =====
-- The theorem on `elf_get_symbol` at a small file.
use smpl_osv.Base.{
  ℕ, zero, suc, ◌+◌, ◌*◌, ◌%◌, ◌^◌, ◌≡◌, refl, ◌≢◌, arith, some, List, [], ◌∷◌, ◌<◌, ◌==◌,
  if◌then◌else◌,
}
use smpl_osv.Libc.{Bytes}
use smpl_osv.Libc.Cstr.{IsCstr}
use smpl_osv.Elf.{bytes_of, elf_str_table, read_sym}
use smpl_osv.Elf.Symbols.{elf_get_symbol}
use mathlib.Core.Path.{subst}
use smpl_osv.Elf.Symbols.Sections.{
  strtab_literal, section_of, IsSymtab, IsStrtab, IsSections, IsLast,
}
use smpl_osv.Elf.Symbols.Search.{IsTable, IsFirst, elf_get_symbol-IsFirst}

-- A file at 4096 with four sections: nothing, the symbols at offset 1024, ".strtab" at 1536 and the
-- names of the sections at 1600. The symbols are one without a name and "x". The literal ".strtab"
-- is at 100, and "x" at 200.
abbrev file : Bytes
file = bytes_of (
    (4136, 64)
    ∷ (4154, 64)
    ∷ (4156, 4)
    ∷ (4158, 3)
    ∷ (4228, 2)
    ∷ (4249, 4)
    ∷ (4256, 48)
    ∷ (4288, 1)
    ∷ (4292, 3)
    ∷ (4313, 6)
    ∷ (4356, 3)
    ∷ (4376, 64)
    ∷ (4377, 6)
    ∷ (5697, 46)
    ∷ (5698, 115)
    ∷ (5699, 116)
    ∷ (5700, 114)
    ∷ (5701, 116)
    ∷ (5702, 97)
    ∷ (5703, 98)
    ∷ (100, 46)
    ∷ (101, 115)
    ∷ (102, 116)
    ∷ (103, 114)
    ∷ (104, 116)
    ∷ (105, 97)
    ∷ (106, 98)
    ∷ (5144, 1)
    ∷ (5633, 120)
    ∷ (200, 120)
    ∷ [])

abbrev wanted : List ℕ
wanted = 120 ∷ []

named :
    (i : ℕ)
    → i < 2
    → (read_sym file (5120 + 24 * i)).st_name ≢ 0
    → IsCstr file ((5632 + (read_sym file (5120 + 24 * i)).st_name) % 2 ^ 64) wanted
named zero lt nz = absurd (nz refl)
named (suc zero) lt nz = (refl, omega arith, refl)
named (suc (suc i)) lt nz = absurd (omega arith)

table : IsTable file 5120 2 5632 200 (λ i. wanted) wanted 20
table = record {
  inside = omega arith;
  sought = (refl, omega arith, refl);
  named = named;
  short = λ i lt. omega arith;
  enough = omega arith;
}

-- The names of the sections.
abbrev section_name : ℕ → List ℕ
section_name k = if k == 2 then strtab_literal else []

abbrev types : ℕ → ℕ
types k = (section_of file 4096 100 5696 4 section_name k).sh_type

named_section :
    (k : ℕ)
    → k < 4
    → types k ≡ 3
    → IsCstr file
        ((5696 + (section_of file 4096 100 5696 4 section_name k).sh_name) % 2 ^ 64)
        (section_name k)
named_section zero lt ty = absurd (omega (arith, ty))
named_section (suc zero) lt ty = absurd (omega (arith, ty))
named_section (suc (suc zero)) lt ty = omega arith
named_section (suc (suc (suc zero))) lt ty = refl
named_section (suc (suc (suc (suc k)))) lt ty = absurd (omega arith)

file-IsSections : IsSections file 4096 100 5696 4 section_name 20
file-IsSections = record {
  sized = refl;
  number = refl;
  few = omega arith;
  inside = omega arith;
  literal = omega arith;
  named = named_section;
  short = λ k lt. ground arith;
  enough = omega arith;
}

file-IsLast-IsSymtab :
    IsLast file 4096 100 5696 4 section_name (IsSymtab file 4096 100 5696 4 section_name) 1
file-IsLast-IsSymtab = (omega arith, refl, later)
  where
    later : (j : ℕ) → 1 < j → j < 4 → types j ≡ 2 → ⊥
    later zero l u ty = absurd (omega arith)
    later (suc zero) l u ty = absurd (omega arith)
    later (suc (suc zero)) l u ty = omega (arith, ty)
    later (suc (suc (suc zero))) l u ty = omega (arith, ty)
    later (suc (suc (suc (suc j)))) l u ty = absurd (omega arith)

file-IsLast-IsStrtab :
    IsLast file 4096 100 5696 4 section_name (IsStrtab file 4096 100 5696 4 section_name) 2
file-IsLast-IsStrtab = (omega arith, (refl, refl), later)
  where
    later : (j : ℕ) → 2 < j → j < 4 → (types j ≡ 3) × (section_name j ≡ strtab_literal) → ⊥
    later j l u (ty, e) =
        let last : j ≡ 3 = omega arith in
        let empty : ◌≡◌ {A = List ℕ} [] strtab_literal =
          subst (λ k. section_name k ≡ strtab_literal) last e in
        cc

elf_get_symbol-IsFirst_example :
    (r : ℕ) × (elf_get_symbol 20 4096 100 200 file ≡ some r)
    × IsFirst file 5120 2 5632 200 (λ i. wanted) wanted r
unfolding elf_str_table
elf_get_symbol-IsFirst_example =
    elf_get_symbol-IsFirst file 20 4096 100 200 4 1 2 2 section_name (λ i. wanted) wanted
      file-IsSections file-IsLast-IsSymtab file-IsLast-IsStrtab (omega arith) (omega arith)
      (omega arith) refl table
