-- ===== src/Elf/Image/Tests.antt =====
-- The theorems on ELF files at small ones.
use smpl_osv.Base.{
  ℕ, zero, suc, ◌+◌, ◌*◌, ◌/◌, ◌%◌, ◌^◌, ◌≤◌, ◌<◌, ◌≡◌, refl, sym, ap, ◌∙◌, inl, arith, none, some,
  List, [], ◌∷◌,
}
use mathlib.Core.Path.{subst}
use smpl_osv.Libc.{Bytes}
use smpl_osv.Elf.{bytes_of, read_ehdr, Phdr}
use smpl_osv.Elf.Image.{is_elf64, load_elf64, phdr_at}
use smpl_osv.Elf.Image.Segments.{
  header, Loads, Outside, IsImage, IsCovered, segment_byte, Contains, source,
}
use smpl_osv.Elf.Image.Executable.{load_elf64-image, load_elf64-pages}

-- An executable at 4096: entry point 0x500000, one program header at 4160 that loads 4 bytes from
-- offset 256 to 0x400000, with 16 bytes in memory; the header behind it is of another type.
abbrev executable : Bytes
executable = bytes_of (
    (4096, 0x7F)
    ∷ (4097, 69)
    ∷ (4098, 76)
    ∷ (4099, 70)
    ∷ (4100, 2)
    ∷ (4112, 2)
    ∷ (4122, 0x50)
    ∷ (4128, 64)
    ∷ (4150, 56)
    ∷ (4152, 1)
    ∷ (4160, 1)
    ∷ (4169, 1)
    ∷ (4178, 0x40)
    ∷ (4192, 4)
    ∷ (4200, 16)
    ∷ (4352, 11)
    ∷ (4353, 22)
    ∷ (4354, 33)
    ∷ (4355, 44)
    ∷ [])

read_first :
    header executable 4096 0
    ≡ record { p_type = 1; p_offset = 256; p_vaddr = 0x400000; p_filesz = 4; p_memsz = 16 }
unfolding phdr_at
read_first = refl

second_type : (header executable 4096 1).p_type ≡ 0
unfolding phdr_at
second_type = refl

only : (i : ℕ) → Loads executable 4096 i → i ≡ 0
only zero ld = refl
only (suc zero) (lt, ld) = absurd (omega (arith, second_type, ld))
only (suc (suc i)) (lt, ld) = absurd (omega arith)

outside : (i a : ℕ) → Loads executable 4096 i → a < 0x400000 → Outside executable 4096 i a
outside i a ld lt =
    let at : (header executable 4096 i).p_vaddr ≡ 0x400000 =
      ap (λ j. (header executable 4096 j).p_vaddr) (only i ld)
      ∙ ap (λ (h : Phdr). h.p_vaddr) read_first in
    (inl (omega (arith, at)), inl (omega (arith, at)))

source_first : source executable 4096 0 ≡ 4352
unfolding phdr_at
source_first = refl

phdr_places : (j : ℕ) → phdr_at 4096 j executable ≡ (4096 + 64 + 56 * j) % 2 ^ 64
unfolding phdr_at
phdr_places j = refl

file_below :
    (j k : ℕ)
    → Loads executable 4096 j
    → k < (header executable 4096 j).p_filesz
    → source executable 4096 j + k < 0x400000
file_below j k ld lt =
    let at = only j ld in
    let src = ap (source executable 4096) at ∙ source_first in
    let size =
      ap (λ i. (header executable 4096 i).p_filesz) at ∙ ap (λ (h : Phdr). h.p_filesz) read_first in
    omega (arith, src, size)

executable-IsImage : IsImage executable 4096
executable-IsImage = record {
  header_kept = λ k lt i ld. outside i (4096 + k) ld (omega arith);
  table_kept =
      λ j k lj lt i ld. outside i (phdr_at 4096 j executable + k) ld (omega (arith, phdr_places j));
  file_kept =
      λ j k ldj lt i ld. outside i (source executable 4096 j + k) ld (file_below j k ldj lt);
  fits = λ j ld.
      subst (λ i. (header executable 4096 i).p_filesz ≤ (header executable 4096 i).p_memsz)
        (sym (only j ld))
        (subst (λ (h : Phdr). h.p_filesz ≤ h.p_memsz) (sym read_first) (omega arith));
}

executable-IsCovered : (j : ℕ) → Loads executable 4096 j → IsCovered executable 4096 j
executable-IsCovered j ld =
    subst
      (λ i.
        (header executable 4096 i).p_vaddr % 4096 + (header executable 4096 i).p_memsz
        ≤ ((header executable 4096 i).p_memsz / 4096 + 1) * 4096)
      (sym (only j ld))
      (subst (λ (h : Phdr). h.p_vaddr % 4096 + h.p_memsz ≤ (h.p_memsz / 4096 + 1) * 4096)
        (sym read_first) (omega arith))

load_elf64-image_example :
    (m' : Bytes) × (pages : List (ℕ × ℕ)) × (load_elf64
        (λ p m. none)
        (λ i n. 0)
        (λ pages a. 255)
        9
        4096
        executable
      ≡ some ((read_ehdr executable 4096).e_entry, (m', pages)))
    × ((j k : ℕ)
        → Loads executable 4096 j
        → k < (header executable 4096 j).p_memsz
        → ((l : ℕ)
            → j < l
            → Loads executable 4096 l
            → Outside executable 4096 l ((header executable 4096 j).p_vaddr + k))
        → m' ((header executable 4096 j).p_vaddr + k) ≡ segment_byte executable 4096 j k)
    × ((a : ℕ)
        → ((j : ℕ) → Loads executable 4096 j → Outside executable 4096 j a)
        → m' a ≡ executable a)
unfolding is_elf64
load_elf64-image_example =
    load_elf64-image (λ p m. none) (λ i n. 0) (λ pages a. 255) 9 4096 executable refl refl
      executable-IsImage (omega arith) executable-IsCovered

load_elf64-pages_example :
    (m' : Bytes) × (pages : List (ℕ × ℕ)) × (load_elf64
        (λ p m. none)
        (λ i n. 0)
        (λ pages a. 255)
        9
        4096
        executable
      ≡ some ((read_ehdr executable 4096).e_entry, (m', pages)))
    × ((j k : ℕ)
        → Loads executable 4096 j
        → (header executable 4096 j).p_vaddr % 4096 ≡ 0
        → k < (header executable 4096 j).p_memsz
        → (a n i : ℕ) × Contains (a, n) pages
          × (i < n)
          × (((header executable 4096 j).p_vaddr + k) / 4096 ≡ (a + i * 4096) / 4096))
unfolding is_elf64
load_elf64-pages_example =
    load_elf64-pages (λ p m. none) (λ i n. 0) (λ pages a. 255) 9 4096 executable refl refl
      executable-IsImage (omega arith)
