-- ===== src/Elf/Relocs/Relocated.antt =====
-- What the relocations of elf64.c write.
use smpl_osv.Base.{ℕ, ◌+◌, ◌/◌, ◌%◌, ◌^◌, ◌≡◌, ◌≢◌, ◌⊎◌, Option}
use smpl_osv.Libc.{Bytes}
use smpl_osv.Elf.{Shdr, Rela, read_rela, le32, elf_reloc_err}
use smpl_osv.Elf.Relocs.Values.{section, IsEntry, IsValue}
use smpl_osv.Elf.Relocs.{RelocType, nothing, absolute, relative, unsupported}

-- What a relocation of a type, by its number, with the value `s` of its symbol and the addend `a`
-- returns and leaves in the four bytes at `p`, modulo 2^32. R_X86_64_NONE: nothing new.
-- R_X86_64_64, R_X86_64_32 and R_X86_64_32S: the sum of value, addend and what was there.
-- R_X86_64_PC32 and R_X86_64_PLT32: bytes that with the place itself add up to that sum. Others:
-- the error.
pub record Written (type s a p : ℕ) (m : Bytes) (result : ℕ) (m' : Bytes) : Type 0 where
  pub untouched : type ≡ 0 → (result ≡ s) × (m' ≡ m)
  pub sum :
      (type ≡ 1) ⊎ (type ≡ 10) ⊎ (type ≡ 11)
      → (result ≡ s) × (le32 m' p ≡ (s + le32 m p + a) % 2 ^ 32)
  pub relative_sum :
      (type ≡ 2) ⊎ (type ≡ 4)
      → (result ≡ s) × ((le32 m' p + p) % 2 ^ 32 ≡ (s + le32 m p + a) % 2 ^ 32)
  pub refused :
      type ≢ 0
      → type ≢ 1
      → type ≢ 2
      → type ≢ 4
      → type ≢ 10
      → type ≢ 11
      → (result ≡ elf_reloc_err) × (m' ≡ m)

abbrev Applied : RelocType → ℕ → ℕ → ℕ → Bytes → ℕ → Bytes → Type 0
Applied nothing s a p m result m' = (result ≡ s) × (m' ≡ m)
Applied absolute s a p m result m' = (result ≡ s) × (le32 m' p ≡ (s + le32 m p + a) % 2 ^ 32)
Applied relative s a p m result m' =
    (result ≡ s) × ((le32 m' p + p) % 2 ^ 32 ≡ (s + le32 m p + a) % 2 ^ 32)
Applied unsupported s a p m result m' = (result ≡ elf_reloc_err) × (m' ≡ m)

module _ (get_kernel_symbol : ℕ → Bytes → Option ℕ) (hdr at : ℕ) (reltab : Shdr) (m : Bytes) where
  abbrev pub reloc : Rela
  reloc = read_rela m at

  -- The number of the symbol and the type.
  abbrev pub symbol_number : ℕ
  symbol_number = reloc.r_info / 2 ^ 32

  abbrev pub type_number : ℕ
  type_number = reloc.r_info % 2 ^ 32

  abbrev pub base : ℕ
  base = hdr + (section get_kernel_symbol hdr m reltab.sh_info).sh_offset

  -- The relocation names no symbol, or an entry of the symbol table whose value is not the error.
  abbrev pub Resolved : ℕ → Type 0
  Resolved v =
      ((symbol_number ≡ 0) × (v ≡ 0))
      ⊎ (IsEntry get_kernel_symbol hdr m reltab.sh_link symbol_number
          × IsValue get_kernel_symbol hdr m reltab.sh_link symbol_number v
          × (v ≢ elf_reloc_err))
