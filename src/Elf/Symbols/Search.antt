-- ===== src/Elf/Symbols/Search.antt =====
-- What `elf_get_symbol` of elf64.c finds.
use smpl_osv.Base.{
  ℕ, zero, suc, ◌+◌, ◌-◌, ◌*◌, ◌%◌, ◌^◌, ◌≤◌, ◌<◌, ◌≡◌, refl, sym, ap, ◌∙◌, ◌≢◌, ◌⊎◌, inl, inr,
  arith, Bool, true, false, some, ◌==◌, ==_ne, ==_iff, if◌then◌else◌, Bool-cases, List, length, ltb,
  lt→ltb, ltb-false,
}
use mathlib.Core.Path.{subst}
use smpl_osv.Base.Bits.{u64}
use smpl_osv.Libc.{Bytes, ◌>>=◌, same_string}
use smpl_osv.Libc.Cstr.{IsCstr}
use smpl_osv.Libc.Scan.{same_string-equal}
use smpl_osv.Elf.{read_sym, Shdr, elf_str_table}
use smpl_osv.Elf.Symbols.Sections.{
  header_at, section_of, IsSymtab, IsStrtab, IsSections, IsLast, find_tables-IsLast,
}
use smpl_osv.Elf.Symbols.{find_symbol, elf_get_symbol}

false-true : false ≡ true → ⊥
false-true e = cc

module _ (m : Bytes) (first n symstrtab sname : ℕ) (name : ℕ → List ℕ) (wanted : List ℕ) where
  abbrev pub entry : ℕ → ℕ
  entry i = first + 24 * i

  -- The entry has a name, and it is the one that is wanted.
  abbrev pub Matches : ℕ → Type 0
  Matches i = ((read_sym m (entry i)).st_name ≢ 0) × (name i ≡ wanted)

  -- A table of `n` entries whose names are the strings `name`.
  pub record IsTable (fuel : ℕ) : Type 0 where
    pub inside : first + 24 * n < 2 ^ 64
    pub sought : IsCstr m sname wanted
    pub named :
        (i : ℕ)
        → i < n
        → (read_sym m (entry i)).st_name ≢ 0
        → IsCstr m (u64 (symstrtab + (read_sym m (entry i)).st_name)) (name i)
    pub short : (i : ℕ) → i < n → length (name i) + n < fuel
    pub enough : n < fuel

  -- The first entry that matches, or 0.
  abbrev pub IsFirst : ℕ → Type 0
  IsFirst r =
      ((i : ℕ) × (i < n) × (r ≡ entry i) × Matches i × ((j : ℕ) → j < i → Matches j → ⊥))
      ⊎ ((r ≡ 0) × ((j : ℕ) → j < n → Matches j → ⊥))

  module _ (fuel0 : ℕ) (table : IsTable fuel0) where
    -- What one round finds out about its entry.
    test_entry :
        (fuel i : ℕ)
        → i < n
        → fuel0 ≤ fuel + i
        → (b : Bool) × ((if (read_sym m (entry i)).st_name == 0
              then some false
              else same_string fuel (u64 (symstrtab + (read_sym m (entry i)).st_name)) sname m)
            ≡ some b)
          × ((b ≡ true → Matches i) × (b ≡ false → Matches i → ⊥))
    test_entry fuel i lt f = elim (Bool-cases ((read_sym m (entry i)).st_name == 0)) [
      | inl h ↦ (false, rw h refl, (λ e. cc, λ e ma. ma.0 ((==_iff _ 0).0 h)))
      | inr h ↦
          let nz : (read_sym m (entry i)).st_name ≢ 0 = λ z. absurd (ground arith) in
          let (b, run, equal) =
            same_string-equal fuel (u64 (symstrtab + (read_sym m (entry i)).st_name)) sname (name i)
              wanted m (omega (arith, table.short i lt)) (table.named i lt nz) table.sought in
          (b, rw h run, (λ e. (nz, equal.0 e), λ e ma. false-true (sym e ∙ equal.1 ma.1)))
    ]

    find_step :
        (fuel i size : ℕ) (b : Bool)
        → size ≡ 24 * n
        → i < n
        → (if (read_sym m (entry i)).st_name == 0
            then some false
            else same_string (suc fuel) (u64 (symstrtab + (read_sym m (entry i)).st_name)) sname m)
          ≡ some b
        → find_symbol (suc fuel) first size symstrtab sname (entry i) m ≡ (
            if b
            then some (entry i)
            else find_symbol fuel first size symstrtab sname (entry (suc i)) m)
    unfolding find_symbol
    find_step fuel i size b e lt run =
        let inside = table.inside in
        let at : (entry i + 2 ^ 64 - first) % 2 ^ 64 ≡ 24 * i = omega arith in
        let more : ltb ((entry i + 2 ^ 64 - first) % 2 ^ 64) size ≡ true =
          ap (λ t. ltb t size) at ∙ lt→ltb _ _ (omega arith) in
        let next : (entry i + 24) % 2 ^ 64 ≡ entry (suc i) = omega arith in
        elim (Bool-cases b) [
          | inl h ↦ rw (find_symbol, more, run, h) refl
          | inr h ↦ rw (find_symbol, more, run, h, next) refl
        ]

    find_end_step :
        (fuel i size : ℕ)
        → size ≡ 24 * n
        → i ≡ n
        → find_symbol (suc fuel) first size symstrtab sname (entry i) m ≡ some 0
    unfolding find_symbol
    find_end_step fuel i size e last =
        let inside = table.inside in
        let at : (entry i + 2 ^ 64 - first) % 2 ^ 64 ≡ 24 * i = omega arith in
        let stop : ltb ((entry i + 2 ^ 64 - first) % 2 ^ 64) size ≡ false =
          ap (λ t. ltb t size) at ∙ ltb-false _ _ (omega arith) in
        rw (find_symbol, stop) refl

    earlier :
        (i : ℕ)
        → ((j : ℕ) → j < i → Matches j → ⊥)
        → (Matches i → ⊥)
        → (j : ℕ) → j < suc i
        → Matches j
        → ⊥
    earlier i before not_here j lt ma = elim (Bool-cases (j == i)) [
      | inl h ↦ not_here (subst Matches ((==_iff j i).0 h) ma)
      | inr h ↦ before j (ground arith) ma
    ]

    -- `k` entries are left.
    pub find_from :
        (k fuel i size : ℕ)
        → k + i ≡ n
        → size ≡ 24 * n
        → fuel0 ≤ fuel + i
        → ((j : ℕ) → j < i → Matches j → ⊥)
        → (r : ℕ) × (find_symbol fuel first size symstrtab sname (entry i) m ≡ some r) × IsFirst r
    find_from k zero i size e s f before = absurd (omega (arith, table.enough))
    find_from zero (suc fuel) i size e s f before =
        (0, find_end_step fuel i size s (omega arith), inr (refl, λ j lt. before j (omega arith)))
    find_from (suc k) (suc fuel) i size e s f before =
        let lt : i < n = omega arith in
        let (b, run, (yes_match, no_match)) = test_entry (suc fuel) i lt f in
        let step = find_step fuel i size b s lt run in
        elim (Bool-cases b) [
          | inl h ↦ (entry i, step ∙ rw h refl, inl (i, lt, refl, yes_match h, before))
          | inr h ↦
              let (r, rest, is) =
                find_from k fuel (suc i) size (omega arith) s (omega arith)
                  (earlier i before (no_match h)) in
              (r, step ∙ rw h rest, is)
        ]

module _ (m : Bytes) (fuel target strtab_name sname sections a b n : ℕ)
    (section_name name : ℕ → List ℕ) (wanted : List ℕ) where
  abbrev pub shstrtab : ℕ
  shstrtab = elf_str_table target m

  abbrev pub symtab : Shdr
  symtab = section_of m target strtab_name shstrtab sections section_name a

  abbrev pub first_symbol : ℕ
  first_symbol = u64 (target + symtab.sh_offset)

  abbrev pub symstrtab : ℕ
  symstrtab =
      u64 (target + (section_of m target strtab_name shstrtab sections section_name b).sh_offset)

  -- In a file whose last symbol table is section `a` and whose last string table ".strtab" is
  -- section `b`, where the names of its string tables and of its symbols are strings, with fuel for
  -- all of them, `elf_get_symbol` returns the address of the first entry that has a name and the
  -- wanted one, and 0 exactly where there is none.
  pub elf_get_symbol-IsFirst :
      IsSections m target strtab_name shstrtab sections section_name fuel
      → IsLast m target strtab_name shstrtab sections section_name
          (IsSymtab m target strtab_name shstrtab sections section_name)
          a
      → IsLast m target strtab_name shstrtab sections section_name
          (IsStrtab m target strtab_name shstrtab sections section_name)
          b
      → header_at m target strtab_name shstrtab sections section_name a ≢ 0
      → symstrtab ≢ 0
      → shstrtab ≢ 0
      → symtab.sh_size ≡ 24 * n
      → IsTable m first_symbol n symstrtab sname name wanted fuel
      → (r : ℕ) × (elf_get_symbol fuel target strtab_name sname m ≡ some r)
        × IsFirst m first_symbol n symstrtab sname name wanted r
  unfolding elf_get_symbol
  elf_get_symbol-IsFirst file last_symtab last_strtab nz_table nz_names nz_sections size table =
      let tables =
        find_tables-IsLast m target strtab_name shstrtab sections section_name fuel file a b
          last_symtab last_strtab sections fuel 0 (record { sym_shdr = 0; symstrtab = 0 })
          (omega arith) (omega arith) ((λ l. absurd (omega arith)), (λ l. absurd (omega arith))) in
      let (r, run, is) =
        find_from m first_symbol n symstrtab sname name wanted fuel table n fuel 0 symtab.sh_size
          (omega arith) size (omega arith) (λ j lt. absurd (omega arith)) in
      let start : first_symbol + 24 * 0 ≡ first_symbol = omega arith in
      (
        r,
        rw (tables, ◌>>=◌, ==_ne _ 0 nz_table, ==_ne _ 0 nz_names, ==_ne _ 0 nz_sections)
            (ap (λ s. find_symbol fuel first_symbol symtab.sh_size symstrtab sname s m) (sym start)
              ∙ run),
        is,
      )
