-- ===== src/Elf/Symbols/Sections.antt =====
-- The tables that the first loop of `elf_get_symbol` finds.
use smpl_osv.Base.{
  ℕ, zero, suc, ◌+◌, ◌*◌, ◌^◌, ◌≤◌, ◌<◌, ◌≡◌, refl, sym, ap, ◌∙◌, inl, inr, arith, Bool, true,
  false, some, ◌==◌, ==_iff, if◌then◌else◌, Bool-cases, List, [], ◌∷◌, length, ltb, lt→ltb,
  ltb-false,
}
use mathlib.Core.Path.{subst, ap₂}
use smpl_osv.Base.Bits.{u32, u64}
use smpl_osv.Libc.{Bytes, same_string}
use smpl_osv.Libc.Cstr.{IsCstr}
use smpl_osv.Libc.Scan.{same_string-equal}
use smpl_osv.Elf.{read_ehdr, read_shdr, Shdr}
use smpl_osv.Elf.Symbols.{Found, find_tables}

false-true : false ≡ true → ⊥
false-true e = cc

-- ".strtab".
abbrev pub strtab_literal : List ℕ
strtab_literal = 46 ∷ 115 ∷ 116 ∷ 114 ∷ 116 ∷ 97 ∷ 98 ∷ []

module _ (m : Bytes) (target strtab_name shstrtab n : ℕ) (names : ℕ → List ℕ) where
  abbrev pub header_at : ℕ → ℕ
  header_at k = target + (read_ehdr m target).e_shoff + 64 * k

  abbrev pub section_of : ℕ → Shdr
  section_of k = read_shdr m (header_at k)

  abbrev pub IsSymtab : ℕ → Type 0
  IsSymtab k = (section_of k).sh_type ≡ 2

  -- A string table with the name ".strtab".
  abbrev pub IsStrtab : ℕ → Type 0
  IsStrtab k = ((section_of k).sh_type ≡ 3) × (names k ≡ strtab_literal)

  -- A file with `n` sections of headers of 64 bytes; the names of the string tables are strings.
  pub record IsSections (fuel : ℕ) : Type 0 where
    pub sized : (read_ehdr m target).e_shentsize ≡ 64
    pub number : (read_ehdr m target).e_shnum ≡ n
    pub few : n < 2 ^ 16
    pub inside : target + (read_ehdr m target).e_shoff + 64 * n < 2 ^ 64
    pub literal : IsCstr m strtab_name strtab_literal
    pub named :
        (k : ℕ)
        → k < n
        → (section_of k).sh_type ≡ 3
        → IsCstr m (u64 (shstrtab + (section_of k).sh_name)) (names k)
    pub short : (k : ℕ) → k < n → length (names k) + n < fuel
    pub enough : n < fuel

  -- The last section of a kind.
  abbrev pub IsLast : (ℕ → Type 0) → ℕ → Type 0
  IsLast P k = (k < n) × P k × ((j : ℕ) → k < j → j < n → P j → ⊥)

  module _ (fuel0 : ℕ) (file : IsSections fuel0) where
    -- What one round finds out about the name of its section.
    test_section :
        (fuel k : ℕ)
        → k < n
        → fuel0 ≤ fuel + k
        → (b : Bool) × ((if (section_of k).sh_type == 3
              then same_string fuel (u64 (shstrtab + (section_of k).sh_name)) strtab_name m
              else some false)
            ≡ some b)
          × ((b ≡ true → IsStrtab k) × (b ≡ false → IsStrtab k → ⊥))
    test_section fuel k lt f = elim (Bool-cases ((section_of k).sh_type == 3)) [
      | inr h ↦ (false, rw h refl, (λ e. cc, λ e is. absurd (ground (arith, is.0))))
      | inl h ↦
          let type = (==_iff _ 3).0 h in
          let (b, run, equal) =
            same_string-equal fuel (u64 (shstrtab + (section_of k).sh_name)) strtab_name (names k)
              strtab_literal m (omega (arith, file.short k lt)) (file.named k lt type)
              file.literal in
          (b, rw h run, (λ e. (type, equal.0 e), λ e is. false-true (sym e ∙ equal.1 is.1)))
    ]

    abbrev next_found : ℕ → Bool → Found → Found
    next_found k named found = record {
      sym_shdr = if (section_of k).sh_type == 2 then header_at k else found.sym_shdr;
      symstrtab = if named then u64 (target + (section_of k).sh_offset) else found.symstrtab;
    }

    tables_step :
        (fuel k : ℕ) (b : Bool) (found : Found)
        → k < n
        → (if (section_of k).sh_type == 3
            then same_string (suc fuel) (u64 (shstrtab + (section_of k).sh_name)) strtab_name m
            else some false)
          ≡ some b
        → find_tables (suc fuel) target strtab_name shstrtab (64 * k) found m
          ≡ find_tables fuel target strtab_name shstrtab (64 * suc k) (next_found k b found) m
    unfolding find_tables
    tables_step fuel k b found lt run =
        let inside = file.inside in
        let few = file.few in
        let more : ltb (64 * k) ((read_ehdr m target).e_shentsize * (read_ehdr m target).e_shnum)
            ≡ true =
          ap (λ z. ltb (64 * k) (z * (read_ehdr m target).e_shnum)) file.sized
          ∙ ap (λ z. ltb (64 * k) (64 * z)) file.number
          ∙ lt→ltb (64 * k) (64 * n) (omega arith) in
        let at : u64 (target + u64 ((read_ehdr m target).e_shoff + 64 * k)) ≡ header_at k =
          omega arith in
        let next : u32 (64 * k + (read_ehdr m target).e_shentsize) ≡ 64 * suc k =
          ap (λ z. u32 (64 * k + z)) file.sized ∙ omega arith in
        rw (find_tables, more, at, run, next) refl

    tables_end :
        (fuel k : ℕ) (found : Found)
        → k ≡ n
        → find_tables (suc fuel) target strtab_name shstrtab (64 * k) found m ≡ some found
    unfolding find_tables
    tables_end fuel k found last =
        let stop : ltb (64 * k) ((read_ehdr m target).e_shentsize * (read_ehdr m target).e_shnum)
            ≡ false =
          ap (λ z. ltb (64 * k) (z * (read_ehdr m target).e_shnum)) file.sized
          ∙ ap (λ z. ltb (64 * k) (64 * z)) file.number
          ∙ ltb-false (64 * k) (64 * n) (omega arith) in
        rw (find_tables, stop) refl

    module _ (a b : ℕ) (symtab : IsLast IsSymtab a) (strtab : IsLast IsStrtab b) where
      abbrev pub tables : Found
      tables = record {
        sym_shdr = header_at a;
        symstrtab = u64 (target + (section_of b).sh_offset);
      }

      -- The last tables in front of section `k` are found.
      abbrev FoundBefore : ℕ → Found → Type 0
      FoundBefore k found =
          (a < k → found.sym_shdr ≡ header_at a)
          × (b < k → found.symstrtab ≡ u64 (target + (section_of b).sh_offset))

      symtab_next :
          (k : ℕ) (named : Bool) (found : Found)
          → k < n
          → FoundBefore k found
          → a < suc k
          → (next_found k named found).sym_shdr ≡ header_at a
      symtab_next k named found lt before le = elim (Bool-cases ((section_of k).sh_type == 2)) [
        | inl h ↦ elim (Bool-cases (a == k)) [
          | inl same ↦ rw h (ap header_at (sym ((==_iff a k).0 same)))
          | inr ne ↦ absurd (symtab.2 k (ground arith) lt ((==_iff _ 2).0 h))
        ]
        | inr h ↦ elim (Bool-cases (a == k)) [
          | inl same ↦
              let type = ap (λ i. (section_of i).sh_type) ((==_iff a k).0 same) in
              absurd (ground (arith, type, symtab.1))
          | inr ne ↦ rw h (before.0 (ground arith))
        ]
      ]

      strtab_next :
          (k : ℕ) (named : Bool) (found : Found)
          → k < n
          → (named ≡ true → IsStrtab k) × (named ≡ false → IsStrtab k → ⊥)
          → FoundBefore k found
          → b < suc k
          → (next_found k named found).symstrtab ≡ u64 (target + (section_of b).sh_offset)
      strtab_next k named found lt (yes_named, not_named) before le = elim (Bool-cases named) [
        | inl h ↦ elim (Bool-cases (b == k)) [
          | inl same ↦
              rw h (ap (λ i. u64 (target + (section_of i).sh_offset)) (sym ((==_iff b k).0 same)))
          | inr ne ↦ absurd (strtab.2 k (ground arith) lt (yes_named h))
        ]
        | inr h ↦ elim (Bool-cases (b == k)) [
          | inl same ↦ absurd (not_named h (subst IsStrtab ((==_iff b k).0 same) strtab.1))
          | inr ne ↦ rw h (before.1 (ground arith))
        ]
      ]

      -- `j` sections are left.
      pub find_tables-IsLast :
          (j fuel k : ℕ) (found : Found)
          → j + k ≡ n
          → fuel0 ≤ fuel + k
          → FoundBefore k found
          → find_tables fuel target strtab_name shstrtab (64 * k) found m ≡ some tables
      find_tables-IsLast j zero k found e f before = absurd (omega (arith, file.enough))
      find_tables-IsLast zero (suc fuel) k found e f (sym_found, str_found) =
          tables_end fuel k found (omega arith)
          ∙ ap₂ (λ x y. some (record { sym_shdr = x; symstrtab = y }))
              (sym_found (omega (arith, symtab.0))) (str_found (omega (arith, strtab.0)))
      find_tables-IsLast (suc j) (suc fuel) k found e f before =
          let lt : k < n = omega arith in
          let (named, run, tested) = test_section (suc fuel) k lt f in
          tables_step fuel k named found lt run
          ∙ find_tables-IsLast j fuel (suc k) (next_found k named found) (omega arith) (omega arith)
              (symtab_next k named found lt before, strtab_next k named found lt tested before)
