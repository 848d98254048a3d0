-- ===== src/Elf.antt =====
-- ELF files, src/kernel/src/elf64.c and src/kernel/include/elf64.h, on a flat memory of bytes. A
-- pointer and an `int` are their bit patterns; an `int` that becomes a pointer is extended by its
-- sign.
pub mod Symbols
pub mod Relocs
pub mod Image
use smpl_osv.Base.{
  ℕ, ◌+◌, ◌-◌, ◌*◌, ◌/◌, ◌%◌, ◌^◌, Bool, not, Option, none, some, ◌==◌, if◌then◌else◌, ltb, update,
  ◌||◌, List, [], ◌∷◌,
}
use smpl_osv.Base.Bits.{u8, u16, u32, u64, shr}
use smpl_osv.Libc.{Bytes}

-- Little-endian fields.
abbrev pub le16 : Bytes → ℕ → ℕ
le16 m p = m p + 2 ^ 8 * m (p + 1)

abbrev pub le32 : Bytes → ℕ → ℕ
le32 m p = le16 m p + 2 ^ 16 * le16 m (p + 2)

abbrev pub le64 : Bytes → ℕ → ℕ
le64 m p = le32 m p + 2 ^ 32 * le32 m (p + 4)

-- A memory with the bytes at the addresses listed and zeros elsewhere, for the tests.
abbrev pub bytes_of : List (ℕ × ℕ) → Bytes
bytes_of [] = λ a. 0
bytes_of ((p, v) ∷ rest) = λ a. if a == p then v else bytes_of rest a

pub store32 : ℕ → ℕ → Bytes → Bytes
unfolding update
store32 p v m =
    update (update (update (update m p (u8 v)) (p + 1) (u8 (shr v 8))) (p + 2) (u8 (shr v 16)))
      (p + 3) (u8 (shr v 24))

pub store64 : ℕ → ℕ → Bytes → Bytes
unfolding store32
store64 p v m = store32 (p + 4) (shr v 32) (store32 p v m)

-- An `int` as a pointer.
abbrev pub sign_extend : ℕ → ℕ
sign_extend x = if ltb x (2 ^ 31) then x else x + (2 ^ 64 - 2 ^ 32)

-- `Elf64_Ehdr`, `Elf64_Phdr`, `Elf64_Shdr`, `Elf64_Sym` and `Elf64_Rela` with the fields that the
-- code reads; an `Elf64_Rel` is an `Elf64_Rela` without the last field.
pub record Ehdr : Type 0 where
  pub e_type : ℕ
  pub e_entry : ℕ
  pub e_phoff : ℕ
  pub e_shoff : ℕ
  pub e_phentsize : ℕ
  pub e_phnum : ℕ
  pub e_shentsize : ℕ
  pub e_shnum : ℕ
  pub e_shstrndx : ℕ

abbrev pub read_ehdr : Bytes → ℕ → Ehdr
read_ehdr m p = record {
  e_type = le16 m (p + 16);
  e_entry = le64 m (p + 24);
  e_phoff = le64 m (p + 32);
  e_shoff = le64 m (p + 40);
  e_phentsize = le16 m (p + 54);
  e_phnum = le16 m (p + 56);
  e_shentsize = le16 m (p + 58);
  e_shnum = le16 m (p + 60);
  e_shstrndx = le16 m (p + 62);
}

pub record Phdr : Type 0 where
  pub p_type : ℕ
  pub p_offset : ℕ
  pub p_vaddr : ℕ
  pub p_filesz : ℕ
  pub p_memsz : ℕ

abbrev pub read_phdr : Bytes → ℕ → Phdr
read_phdr m p = record {
  p_type = le32 m p;
  p_offset = le64 m (p + 8);
  p_vaddr = le64 m (p + 16);
  p_filesz = le64 m (p + 32);
  p_memsz = le64 m (p + 40);
}

pub record Shdr : Type 0 where
  pub sh_name : ℕ
  pub sh_type : ℕ
  pub sh_flags : ℕ
  pub sh_offset : ℕ
  pub sh_size : ℕ
  pub sh_link : ℕ
  pub sh_info : ℕ
  pub sh_entsize : ℕ

abbrev pub read_shdr : Bytes → ℕ → Shdr
read_shdr m p = record {
  sh_name = le32 m p;
  sh_type = le32 m (p + 4);
  sh_flags = le64 m (p + 8);
  sh_offset = le64 m (p + 24);
  sh_size = le64 m (p + 32);
  sh_link = le32 m (p + 40);
  sh_info = le32 m (p + 44);
  sh_entsize = le64 m (p + 56);
}

pub record Sym : Type 0 where
  pub st_name : ℕ
  pub st_shndx : ℕ
  pub st_value : ℕ

abbrev pub read_sym : Bytes → ℕ → Sym
read_sym m p = record { st_name = le32 m p; st_shndx = le16 m (p + 6); st_value = le64 m (p + 8) }

pub record Rela : Type 0 where
  pub r_offset : ℕ
  pub r_info : ℕ
  pub r_addend : ℕ

abbrev pub read_rela : Bytes → ℕ → Rela
read_rela m p = record { r_offset = le64 m p; r_info = le64 m (p + 8); r_addend = le64 m (p + 16) }

-- Section types and numbers, and the error of the relocations, -1.
abbrev pub sht_symtab : ℕ
sht_symtab = 2

abbrev pub sht_strtab : ℕ
sht_strtab = 3

abbrev pub sht_rela : ℕ
sht_rela = 4

abbrev pub sht_nobits : ℕ
sht_nobits = 8

abbrev pub sht_rel : ℕ
sht_rel = 9

abbrev pub shn_undef : ℕ
shn_undef = 0

abbrev pub shn_abs : ℕ
shn_abs = 0xFFF1

abbrev pub elf_reloc_err : ℕ
elf_reloc_err = 2 ^ 32 - 1

pub elf_sheader : ℕ → Bytes → ℕ
elf_sheader hdr m = u64 (hdr + (read_ehdr m hdr).e_shoff)

-- The index is an `int`.
pub elf_section : ℕ → ℕ → Bytes → ℕ
unfolding elf_sheader
elf_section hdr idx m = u64 (elf_sheader hdr m + 64 * sign_extend idx)

pub elf_str_table : ℕ → Bytes → ℕ
unfolding elf_section
elf_str_table hdr m =
    let shstrndx = (read_ehdr m hdr).e_shstrndx in
    if shstrndx == shn_undef
    then 0
    else u64 (hdr + (read_shdr m (elf_section hdr shstrndx m)).sh_offset)

pub elf_lookup_string : ℕ → ℕ → Bytes → ℕ
unfolding elf_str_table
elf_lookup_string hdr offset m =
    let strtab = elf_str_table hdr m in if strtab == 0 then 0 else u64 (strtab + sign_extend offset)
