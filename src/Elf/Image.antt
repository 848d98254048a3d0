-- ===== src/Elf/Image.antt =====
-- Loading ELF files: `elf_load_stage1` and `load_elf64` of elf64.c.
mod Fields
pub mod Segments
pub mod Executable
mod Tests
use smpl_osv.Base.{
  ℕ, zero, suc, ◌+◌, ◌-◌, ◌*◌, ◌/◌, ◌%◌, ◌^◌, Bool, true, false, not, Option, none, some, ◌==◌,
  ◌||◌, ◌&&◌, if◌then◌else◌, ltb, leb, List, [], ◌∷◌,
}
use smpl_osv.Base.Bits.{u32, u64, shr}
use smpl_osv.Libc.{Bytes, ◌>>=◌, memset, memcpy}
use smpl_osv.Elf.{
  Phdr, read_ehdr, read_phdr, read_shdr, sht_nobits, elf_reloc_err, sign_extend, elf_sheader,
  store64,
}
use smpl_osv.Elf.Relocs.{elf_load_stage2}

-- From section `i` on. `kmalloc` gives the address of the memory that is allocated for a section,
-- by its number and its size; it does not fail.
pub stage1_from : (ℕ → ℕ → ℕ) → ℕ → ℕ → ℕ → Bytes → Option Bytes
stage1_from kmalloc zero hdr i m = none
stage1_from kmalloc (suc fuel) hdr i m =
    let section = u64 (elf_sheader hdr m + 64 * i) in
    let s = read_shdr m section in
    let mem = kmalloc i s.sh_size in
    let offset = sign_extend (u32 (mem + (2 ^ 32 - u32 hdr))) in
    let allocated = store64 (section + 24) offset (memset mem 0 s.sh_size m) in
    let alloc = not (s.sh_size == 0) && s.sh_flags / 2 % 2 == 1 in
    let m' = if s.sh_type == sht_nobits && alloc then allocated else m in
    elim (ltb i (read_ehdr m hdr).e_shnum) [
      | true ↦ stage1_from kmalloc fuel hdr (suc i) m'
      | false ↦ some m
    ]

pub elf_load_stage1 : (ℕ → ℕ → ℕ) → ℕ → ℕ → Bytes → Option Bytes
unfolding stage1_from
elf_load_stage1 kmalloc fuel hdr m = stage1_from kmalloc fuel hdr 0 m

-- The check of `e_ident`.
pub is_elf64 : ℕ → Bytes → Bool
is_elf64 start m =
    m start == 0x7F
    && m (start + 1) == b'E'
    && m (start + 2) == b'L'
    && m (start + 3) == b'F'
    && m (start + 4) == 2

-- The address of a program header.
pub phdr_at : ℕ → ℕ → Bytes → ℕ
phdr_at start i m =
    let ehdr = read_ehdr m start in u64 (start + ehdr.e_phoff + ehdr.e_phentsize * i)

-- The memory, and the calls of `kalloc_f`, the latest first: an address and a number of pages.
abbrev pub Loading : Type 0
Loading = Bytes × List (ℕ × ℕ)

-- `kalloc_f` maps `n` pages from the one of an address on to other frames, whose contents are seen
-- then.
pub remap : ℕ → ℕ → Bytes → Bytes → Bytes
remap start n contents m a =
    if leb (start / 4096) (a / 4096) && ltb (a / 4096) (start / 4096 + n) then contents a else m a

-- `fresh` is what the frames hold that `kalloc_f` maps, after the calls before.
pub place_segment : (List (ℕ × ℕ) → Bytes) → ℕ → Phdr → Loading → Loading
unfolding remap
place_segment fresh start phdr (m, pages) =
    let mapped = remap phdr.p_vaddr (phdr.p_memsz / 4096 + 1) (fresh pages) m in
    let cleared = memset phdr.p_vaddr 0 phdr.p_memsz mapped in
    let filled = memcpy phdr.p_vaddr (u64 (start + phdr.p_offset)) phdr.p_filesz cleared in
    if phdr.p_type == 1
    then (filled, (phdr.p_vaddr, phdr.p_memsz / 4096 + 1) ∷ pages)
    else (m, pages)

pub load_segment : (List (ℕ × ℕ) → Bytes) → ℕ → ℕ → Loading → Loading
unfolding phdr_at place_segment
load_segment fresh start i s = place_segment fresh start (read_phdr s.0 (phdr_at start i s.0)) s

-- The loop over the program headers, from `i` on; the code reads one header more than there are.
pub load_segments : (List (ℕ × ℕ) → Bytes) → ℕ → ℕ → ℕ → Loading → Option Loading
unfolding load_segment
load_segments fresh zero start i s = none
load_segments fresh (suc fuel) start i s = elim (ltb i ((read_ehdr s.0 start).e_phnum + 1)) [
  | true ↦ load_segments fresh fuel start (suc i) (load_segment fresh start i s)
  | false ↦ some s
]

-- ET_EXEC: the result is `e_entry`, read after the segments are in place.
pub load_exec : (List (ℕ × ℕ) → Bytes) → ℕ → ℕ → Bytes → Option (ℕ × Loading)
unfolding load_segments
load_exec fresh fuel start m = do
  s ← load_segments fresh fuel start 0 (m, [])
  some ((read_ehdr s.0 start).e_entry, s)

-- ET_REL: 0, or 1 where a relocation fails.
pub load_rel : (ℕ → Bytes → Option ℕ) → (ℕ → ℕ → ℕ) → ℕ → ℕ → Bytes → Option (ℕ × Loading)
unfolding elf_load_stage1
load_rel get_kernel_symbol kmalloc fuel start m = do
  m1 ← elf_load_stage1 kmalloc fuel start m
  (result, m2) ← elf_load_stage2 get_kernel_symbol fuel start m1
  some (if result == elf_reloc_err then 1 else 0, (m2, []))

-- The result, with the memory and the pages.
pub load_elf64 :
    (ℕ → Bytes → Option ℕ)
    → (ℕ → ℕ → ℕ)
    → (List (ℕ × ℕ) → Bytes)
    → ℕ
    → ℕ
    → Bytes
    → Option (ℕ × Loading)
unfolding is_elf64 load_exec load_rel
load_elf64 get_kernel_symbol kmalloc fresh fuel start m =
    let ehdr = read_ehdr m start in
    let linked = load_rel get_kernel_symbol kmalloc fuel start m in
    if not (is_elf64 start m)
    then some (1, (m, []))
    else if ehdr.e_type == 2
    then load_exec fresh fuel start m
    else if ehdr.e_type == 1
    then linked
    else some (1, (m, []))
