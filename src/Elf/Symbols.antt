-- ===== src/Elf/Symbols.antt =====
-- The symbols of an ELF file: `elf_get_symbol`, `elf_get_address` and `elf_get_symval` of elf64.c.
pub mod Sections
pub mod Search
mod Tests
use smpl_osv.Base.{
  ℕ, zero, suc, ◌+◌, ◌-◌, ◌*◌, ◌/◌, ◌%◌, ◌^◌, Bool, true, false, not, Option, none, some, ◌==◌,
  ◌||◌, ◌&&◌, if◌then◌else◌, ltb, leb,
}
use smpl_osv.Base.Bits.{u32, u64}
use smpl_osv.Libc.{Bytes, ◌>>=◌, same_string}
use smpl_osv.Elf.{
  read_ehdr, read_shdr, read_sym, sht_symtab, sht_strtab, shn_undef, shn_abs, elf_reloc_err,
  sign_extend, elf_section, elf_str_table,
}

-- What the first loop of `elf_get_symbol` finds: the last symbol table and the last string table
-- with the name ".strtab".
pub record Found : Type 0 where
  pub sym_shdr : ℕ
  pub symstrtab : ℕ

-- `strtab_name` is the address of the literal ".strtab".
pub find_tables : ℕ → ℕ → ℕ → ℕ → ℕ → Found → Bytes → Option Found
find_tables zero target strtab_name shstrtab x found m = none
find_tables (suc fuel) target strtab_name shstrtab x found m =
    let hdr = read_ehdr m target in
    let shdr = u64 (target + u64 (hdr.e_shoff + x)) in
    let section = read_shdr m shdr in
    elim (ltb x (hdr.e_shentsize * hdr.e_shnum)) [
      | true ↦ do
        let sym_shdr = if section.sh_type == sht_symtab then shdr else found.sym_shdr
        let test = same_string (suc fuel) (u64 (shstrtab + section.sh_name)) strtab_name m
        named ← if section.sh_type == sht_strtab then test else some false
        let symstrtab = if named then u64 (target + section.sh_offset) else found.symstrtab
        find_tables fuel target strtab_name shstrtab (u32 (x + hdr.e_shentsize))
            (record { sym_shdr = sym_shdr; symstrtab = symstrtab }) m
      | false ↦ some found
    ]

-- The second loop, from the entry at `table` on: `first` is where the table starts.
pub find_symbol : ℕ → ℕ → ℕ → ℕ → ℕ → ℕ → Bytes → Option ℕ
find_symbol zero first size symstrtab sname table m = none
find_symbol (suc fuel) first size symstrtab sname table m =
    let name = (read_sym m table).st_name in
    elim (ltb (u64 (table + 2 ^ 64 - first)) size) [
      | true ↦ do
        let test = same_string (suc fuel) (u64 (symstrtab + name)) sname m
        found ← if name == 0 then some false else test
        elim found [
          | true ↦ some table
          | false ↦ find_symbol fuel first size symstrtab sname (u64 (table + 24)) m
        ]
      | false ↦ some 0
    ]

pub elf_get_symbol : ℕ → ℕ → ℕ → ℕ → Bytes → Option ℕ
unfolding find_tables find_symbol elf_str_table
elf_get_symbol fuel target strtab_name sname m = do
  let shstrtab = elf_str_table target m
  t ← find_tables fuel target strtab_name shstrtab 0 (record { sym_shdr = 0; symstrtab = 0 }) m
  let section = read_shdr m t.sym_shdr
  let first = u64 (target + section.sh_offset)
  let rest = find_symbol fuel first section.sh_size t.symstrtab sname first m
  if t.sym_shdr == 0 || shstrtab == 0 || t.symstrtab == 0 then some 0 else rest

-- With NULL for the symbol the code reads through it.
pub elf_get_address : ℕ → ℕ → Bytes → Option ℕ
unfolding elf_section
elf_get_address hdr sym m =
    let s = read_sym m sym in
    let target = read_shdr m (elf_section hdr s.st_shndx m) in
    if sym == 0 then none else some (u64 (hdr + target.sh_offset + s.st_value))

-- The value of a symbol that another part of the system exports.
abbrev pub external : Option ℕ → Option ℕ
external value = do v ← value; if v == 0 then some elf_reloc_err else some (u32 v)

-- The result is an `int`. `get_kernel_symbol` is given the address of a name. A division by zero is
-- `none`.
unfoldable pub elf_get_symval : (ℕ → Bytes → Option ℕ) → ℕ → ℕ → ℕ → Bytes → Option ℕ
unfolding elf_section
elf_get_symval get_kernel_symbol hdr table idx m =
    let symtab = read_shdr m (elf_section hdr table m) in
    let symaddr = u32 (hdr + symtab.sh_offset) in
    let symbol = read_sym m (u64 (sign_extend symaddr + 24 * idx)) in
    let strtab = read_shdr m (elf_section hdr symtab.sh_link m) in
    let target = read_shdr m (elf_section hdr symbol.st_shndx m) in
    let value = get_kernel_symbol (u64 (hdr + strtab.sh_offset + symbol.st_name)) m in
    if table == shn_undef || idx == shn_undef
    then some 0
    else if symtab.sh_entsize == 0
    then none
    else if leb (u32 (symtab.sh_size / symtab.sh_entsize)) idx
    then some elf_reloc_err
    else if symbol.st_shndx == shn_undef
    then external value
    else if symbol.st_shndx == shn_abs
    then some (u32 symbol.st_value)
    else some (u32 (hdr + symbol.st_value + target.sh_offset))
