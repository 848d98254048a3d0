-- ===== src/Elf/Relocs.antt =====
-- The relocations of an ELF file: `elf_do_reloc`, `elf_do_reloca` and `elf_load_stage2` of elf64.c.
pub mod Values
pub mod Relocated
mod Tests
use smpl_osv.Base.{
  ℕ, zero, suc, ◌+◌, ◌-◌, ◌*◌, ◌/◌, ◌%◌, ◌^◌, Bool, true, false, not, Option, none, some, ◌==◌,
  ◌||◌, ◌&&◌, if◌then◌else◌, ltb,
}
use smpl_osv.Base.Bits.{u32, u64, shr}
use smpl_osv.Libc.{Bytes, ◌>>=◌}
use smpl_osv.Elf.{
  read_ehdr, read_shdr, read_rela, Shdr, Rela, sht_rela, sht_rel, shn_undef, elf_reloc_err,
  sign_extend, elf_section, elf_sheader, le32, store32,
}
use smpl_osv.Elf.Symbols.{elf_get_symval}

-- The relocation types: none; symbol and offset; the same less the place.
pub data RelocType : Type 0 where
  nothing : RelocType
  absolute : RelocType
  relative : RelocType
  unsupported : RelocType

-- The cases of the `switch` over R_X86_64_NONE, 32, 32S, 64, PLT32 and PC32.
pub reloc_type : ℕ → RelocType
reloc_type n =
    if n == 0
    then nothing
    else if n == 10 || n == 11 || n == 1
    then absolute
    else if n == 4 || n == 2
    then relative
    else unsupported

-- DO_386_32 and DO_386_PC32, on `int`s that wrap.
abbrev pub do_386_32 : ℕ → ℕ → ℕ
do_386_32 s a = s + a

abbrev pub do_386_pc32 : ℕ → ℕ → ℕ → ℕ
do_386_pc32 s a p = s + a + (2 ^ 32 - u32 p)

-- `int *ref`, the place to relocate, in the section that the table of relocations is about.
pub reloc_ref : ℕ → Rela → Shdr → Bytes → ℕ
unfolding elf_section
reloc_ref hdr rel reltab m =
    let target = read_shdr m (elf_section hdr reltab.sh_info m) in
    u64 (sign_extend (u32 (hdr + target.sh_offset)) + rel.r_offset)

-- The value of the symbol, `symval`; the shift leaves the number of the symbol.
pub reloc_symval : (ℕ → Bytes → Option ℕ) → ℕ → Rela → Shdr → Bytes → Option ℕ
reloc_symval get_kernel_symbol hdr rel reltab m =
    let sym = shr rel.r_info 32 in
    if sym == shn_undef
    then some 0
    else elf_get_symval get_kernel_symbol hdr reltab.sh_link (u32 sym) m

-- The `switch`, with the addend of an `Elf64_Rela` or 0.
pub apply_reloc : RelocType → ℕ → ℕ → ℕ → Bytes → ℕ × Bytes
unfolding store32
apply_reloc nothing symval addend ref m = (symval, m)
apply_reloc absolute symval addend ref m =
    (symval, store32 ref (u32 (do_386_32 symval (le32 m ref) + addend)) m)
apply_reloc relative symval addend ref m =
    (symval, store32 ref (u32 (do_386_pc32 symval (le32 m ref) ref + addend)) m)
apply_reloc unsupported symval addend ref m = (elf_reloc_err, m)

pub elf_do_reloc : (ℕ → Bytes → Option ℕ) → ℕ → ℕ → Shdr → Bytes → Option (ℕ × Bytes)
unfolding reloc_type reloc_ref reloc_symval apply_reloc
elf_do_reloc get_kernel_symbol hdr at reltab m = do
  let rel = read_rela m at
  let ref = reloc_ref hdr rel reltab m
  symval ← reloc_symval get_kernel_symbol hdr rel reltab m
  let failed = not (shr rel.r_info 32 == shn_undef) && symval == elf_reloc_err
  let result = apply_reloc (reloc_type (u32 rel.r_info)) symval 0 ref m
  some (if failed then (elf_reloc_err, m) else result)

pub elf_do_reloca : (ℕ → Bytes → Option ℕ) → ℕ → ℕ → Shdr → Bytes → Option (ℕ × Bytes)
unfolding reloc_type reloc_ref reloc_symval apply_reloc
elf_do_reloca get_kernel_symbol hdr at reltab m = do
  let rel = read_rela m at
  let ref = reloc_ref hdr rel reltab m
  symval ← reloc_symval get_kernel_symbol hdr rel reltab m
  let failed = not (shr rel.r_info 32 == shn_undef) && symval == elf_reloc_err
  let result = apply_reloc (reloc_type (u32 rel.r_info)) symval rel.r_addend ref m
  some (if failed then (elf_reloc_err, m) else result)

-- The inner loops of `elf_load_stage2`: the relocations of the section whose header is at
-- `section`, of `bytes` bytes each. The header is read again in each round.
pub reloc_section :
    (ℕ → Shdr → Bytes → Option (ℕ × Bytes)) → ℕ → ℕ → ℕ → ℕ → ℕ → Bytes → Option (ℕ × Bytes)
reloc_section do_reloc zero bytes hdr section idx m = none
reloc_section do_reloc (suc fuel) bytes hdr section idx m =
    let s = read_shdr m section in
    let at = u64 (sign_extend (u32 hdr) + s.sh_offset + bytes * idx) in
    if s.sh_entsize == 0 then none else elim (ltb idx (s.sh_size / s.sh_entsize)) [
      | true ↦ do
        (result, m') ← do_reloc at s m
        elim (result == elf_reloc_err) [
          | true ↦ some (elf_reloc_err, m')
          | false ↦ reloc_section do_reloc fuel bytes hdr section (u32 (idx + 1)) m'
        ]
      | false ↦ some (0, m)
    ]

-- The outer loop, from section `i` on.
pub stage2_from : (ℕ → Bytes → Option ℕ) → ℕ → ℕ → ℕ → Bytes → Option (ℕ × Bytes)
unfolding reloc_section elf_do_reloc elf_do_reloca
stage2_from get_kernel_symbol zero hdr i m = none
stage2_from get_kernel_symbol (suc fuel) hdr i m =
    let section = u64 (elf_sheader hdr m + 64 * i) in
    let s = read_shdr m section in
    let rel = reloc_section (elf_do_reloc get_kernel_symbol hdr) fuel 16 hdr section 0 m in
    let rela = reloc_section (elf_do_reloca get_kernel_symbol hdr) fuel 24 hdr section 0 m in
    elim (ltb i (read_ehdr m hdr).e_shnum) [
      | true ↦ do
        (result, m') ←
            if s.sh_type == sht_rel
            then rel
            else if s.sh_type == sht_rela
            then rela
            else some (0, m)
        elim (result == elf_reloc_err) [
          | true ↦ some (elf_reloc_err, m')
          | false ↦ stage2_from get_kernel_symbol fuel hdr (suc i) m'
        ]
      | false ↦ some (0, m)
    ]

pub elf_load_stage2 : (ℕ → Bytes → Option ℕ) → ℕ → ℕ → Bytes → Option (ℕ × Bytes)
unfolding stage2_from elf_sheader
elf_load_stage2 get_kernel_symbol fuel hdr m = stage2_from get_kernel_symbol fuel hdr 0 m
