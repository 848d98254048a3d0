-- ===== src/Elf/Relocs/Values.antt =====
-- The place and the symbol's value of a relocation, as the tables of an ELF file give them.
use smpl_osv.Base.{
  ℕ, ◌+◌, ◌*◌, ◌/◌, ◌%◌, ◌^◌, ◌<◌, ◌≡◌, ◌≢◌, ◌⊎◌, inl, inr, sym, ap, arith, false, ==_ne, Option,
  some, leb,
}
use smpl_osv.Base.Bits.{u32, u64}
use smpl_osv.Libc.{Bytes, ◌>>=◌}
use smpl_osv.Elf.{
  Shdr, Sym, Rela, read_ehdr, read_shdr, read_sym, elf_section, elf_sheader, sign_extend,
}
use smpl_osv.Elf.Symbols.{elf_get_symval}
use smpl_osv.Elf.Relocs.{reloc_ref}

module _ (get_kernel_symbol : ℕ → Bytes → Option ℕ) (hdr : ℕ) (m : Bytes) where
  -- The header of a section by its number, where the table of sections does not wrap.
  abbrev pub section : ℕ → Shdr
  section k = read_shdr m (hdr + (read_ehdr m hdr).e_shoff + 64 * k)

  abbrev pub Inside : ℕ → Type 0
  Inside k = (k < 2 ^ 31) × (hdr + (read_ehdr m hdr).e_shoff + 64 * k < 2 ^ 64)

  elf_section-at :
      (k : ℕ) → Inside k → elf_section hdr k m ≡ hdr + (read_ehdr m hdr).e_shoff + 64 * k
  unfolding elf_section elf_sheader
  elf_section-at k (small, fits) =
      let same : sign_extend k ≡ k = ground arith in omega (arith, same)

  -- Entry `number` of the symbol table in section `table`.
  abbrev pub symbol : ℕ → ℕ → Sym
  symbol table number = read_sym m (hdr + (section table).sh_offset + 24 * number)

  -- The entry is one of the table, and stands below 2 GiB.
  abbrev pub IsEntry : ℕ → ℕ → Type 0
  IsEntry table number =
      (table ≢ 0)
      × (number ≢ 0)
      × Inside table
      × ((section table).sh_entsize ≢ 0)
      × (number < (section table).sh_size / (section table).sh_entsize)
      × ((section table).sh_size / (section table).sh_entsize < 2 ^ 32)
      × (hdr + (section table).sh_offset < 2 ^ 31)

  -- The value of a symbol: what the system gives for the name of one that is not defined here; its
  -- value, if it is absolute; or its address in its section.
  abbrev pub IsValue : ℕ → ℕ → ℕ → Type 0
  IsValue table number v =
      ((w : ℕ) × ((symbol table number).st_shndx ≡ 0)
        × Inside (section table).sh_link
        × (hdr + (section (section table).sh_link).sh_offset + (symbol table number).st_name
            < 2 ^ 64)
        × (get_kernel_symbol
              (hdr + (section (section table).sh_link).sh_offset + (symbol table number).st_name) m
            ≡ some w)
        × (w ≢ 0)
        × (v ≡ w % 2 ^ 32))
      ⊎ (((symbol table number).st_shndx ≡ 0xFFF1) × (v ≡ (symbol table number).st_value % 2 ^ 32))
      ⊎ (((symbol table number).st_shndx ≢ 0)
          × ((symbol table number).st_shndx ≢ 0xFFF1)
          × Inside (symbol table number).st_shndx
          × (v
              ≡ (hdr
                  + (symbol table number).st_value
                  + (section (symbol table number).st_shndx).sh_offset)
                % 2 ^ 32))

  -- The place of a relocation: its offset in the section that the table is about.
  pub reloc_ref-place :
      (rel : Rela) (reltab : Shdr)
      → Inside reltab.sh_info
      → hdr + (section reltab.sh_info).sh_offset < 2 ^ 31
      → hdr + (section reltab.sh_info).sh_offset + rel.r_offset < 2 ^ 64
      → reloc_ref hdr rel reltab m ≡ hdr + (section reltab.sh_info).sh_offset + rel.r_offset
  unfolding reloc_ref
  reloc_ref-place rel reltab inside low fits =
      let base = hdr + (section reltab.sh_info).sh_offset in
      let same : u64 (sign_extend (u32 base) + rel.r_offset) ≡ base + rel.r_offset = ground arith in
      rw (elf_section-at reltab.sh_info inside) same

  symbol_at :
      (table number : ℕ)
      → IsEntry table number
      → u64 (sign_extend (u32 (hdr + (section table).sh_offset)) + 24 * number)
        ≡ hdr + (section table).sh_offset + 24 * number
  symbol_at table number (_, _, _, _, less, few, low) =
      let base = hdr + (section table).sh_offset in
      let same : sign_extend (u32 base) ≡ base = ground arith in omega (arith, same)

  -- The search in the table ends with the value.
  pub elf_get_symval-IsValue :
      (table number v : ℕ)
      → IsEntry table number
      → IsValue table number v
      → elf_get_symval get_kernel_symbol hdr table number m ≡ some v
  unfolding elf_get_symval
  elf_get_symval-IsValue table number v (nt, ns, inside, sized, less, few, low) value =
      let entry : IsEntry table number = (nt, ns, inside, sized, less, few, low) in
      let size = (section table).sh_size / (section table).sh_entsize in
      let more : leb (u32 size) number ≡ false = ground arith in
      elim value [
        | inl (w, undefined, linked, fits, given, nz, is) ↦
            let name : u64 (
                  hdr + (section (section table).sh_link).sh_offset + (symbol table number).st_name)
                ≡ hdr
                  + (section (section table).sh_link).sh_offset
                  + (symbol table number).st_name =
              omega arith in
            rw
              (
                elf_section-at table inside,
                ==_ne table 0 nt,
                ==_ne number 0 ns,
                ==_ne _ 0 sized,
                more,
                symbol_at table number entry,
                undefined,
                elf_section-at (section table).sh_link linked,
                name,
                given,
                ◌>>=◌,
                ==_ne w 0 nz,
              )
              (ap some (sym is))
        | inr (inl (absolute, is)) ↦
            rw
              (
                elf_section-at table inside,
                ==_ne table 0 nt,
                ==_ne number 0 ns,
                ==_ne _ 0 sized,
                more,
                symbol_at table number entry,
                absolute,
              )
              (ap some (sym is))
        | inr (inr (n0, nabs, home, is)) ↦
            rw
              (
                elf_section-at table inside,
                ==_ne table 0 nt,
                ==_ne number 0 ns,
                ==_ne _ 0 sized,
                more,
                symbol_at table number entry,
                ==_ne _ 0 n0,
                ==_ne _ 0xFFF1 nabs,
                elf_section-at (symbol table number).st_shndx home,
              )
              (ap some (sym is))
      ]
