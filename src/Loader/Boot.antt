-- ===== src/Loader/Boot.antt =====
-- What the loader learns at boot: `loader_main` of src/loader/src/loader.c up to the start of the
-- kernel, with the tags of src/loader/include/multiboot2.h as they lie in memory. Pointers are of
-- 32 bits. `bootinfo` stands apart from the tags; the loader's `strcmp` has the body of that of
-- Libc.
pub mod Layout
pub mod Learned
pub mod Scanned
mod Tests
use smpl_osv.Base.{
  ℕ, zero, suc, ◌+◌, ◌*◌, ◌/◌, ◌%◌, ◌^◌, Bool, true, false, Option, none, some, not, ◌==◌,
  if◌then◌else◌, ltb, leb, bit_and, update,
}
use smpl_osv.Base.Bits.{u8, u32, u64}
use smpl_osv.Libc.{Bytes, same_string}
use smpl_osv.Elf.{le32, le64, sign_extend}
use smpl_osv.Pmm.Boot.{Region}

infixl 5 ◌>>=◌
abbrev pub ◌>>=◌ {ℓ κ} : {A : Type ℓ} {B : Type κ} → Option A → (A → Option B) → Option B
none >>= f = none
some a >>= f = f a

-- `bootinfo.memory` and the local variables of `loader_main`.
pub record Scan : Type 0 where
  pub memory : ℕ → Region
  pub memreg_ptr : ℕ
  pub fb : ℕ
  pub kernel_start : ℕ
  pub initrd_start : ℕ
  pub end : ℕ

-- The addresses of the literals "KERNEL" and "INITRD", and the rounds that a comparison may take.
pub record Names : Type 0 where
  pub kernel : ℕ
  pub initrd : ℕ
  pub fuel : ℕ

-- A `multiboot_memory_map_t` as an entry of `bootinfo.memory`.
abbrev pub read_region : Bytes → ℕ → Region
read_region m at = record {
  start = le64 m at;
  end = u64 (le64 m at + le64 m (at + 8));
  type = u8 (le32 m (at + 16));
}

pub add_region : Region → Scan → Scan
unfolding update
add_region r b = record b {
  memory = update b.memory b.memreg_ptr r;
  memreg_ptr = u8 (b.memreg_ptr + 1);
}

-- The loop over the entries of a memory map.
pub read_entries : ℕ → ℕ → ℕ → ℕ → Bytes → Scan → Option Scan
unfolding add_region
read_entries zero entry_size stop at m b = none
read_entries (suc fuel) entry_size stop at m b = elim (ltb at stop) [
  | true ↦
      read_entries fuel entry_size stop (u32 (at + entry_size)) m (add_region (read_region m at) b)
  | false ↦ some b
]

abbrev pub raise_end : ℕ → Scan → Scan
raise_end mod_end b = if ltb b.end mod_end then record b { end = mod_end } else b

-- The two assignments after the comparisons of a module's command line.
abbrev pub set_starts : Bool → Bool → ℕ → Scan → Scan
set_starts kernel initrd mod_start b =
    let b1 = if kernel then record b { kernel_start = mod_start } else b in
    if initrd then record b1 { initrd_start = mod_start } else b1

pub identify_module : Names → Bytes → ℕ → Scan → Option Scan
identify_module names m tag b = same_string names.fuel (tag + 16) names.kernel m >>= λ kernel.
    same_string names.fuel (tag + 16) names.initrd m >>= λ initrd.
    some (set_starts kernel initrd (le32 m (tag + 8)) (raise_end (le32 m (tag + 12)) b))

-- The `switch`; the types that are only logged are left out. An entry takes a byte at least, so the
-- rounds suffice where the entries' size is not 0.
pub handle_tag : Names → Bytes → ℕ → Scan → Option Scan
unfolding read_entries identify_module
handle_tag names m tag b =
    let type = le32 m tag in
    let size = le32 m (tag + 4) in
    if type == 8
    then some (record b { fb = u32 (le64 m (tag + 8)) })
    else if type == 6
    then read_entries (size + 1) (le32 m (tag + 8)) (u32 (tag + size)) (tag + 16) m b
    else if type == 3
    then identify_module names m tag b
    else some b

-- `tag + ((size + 7) & ~7)`.
abbrev pub next_tag : Bytes → ℕ → ℕ
next_tag m tag = u32 (tag + u32 (le32 m (tag + 4) + 7) / 8 * 8)

-- The loop over the tags.
pub scan_tags : ℕ → Names → ℕ → Bytes → Scan → Option Scan
unfolding handle_tag
scan_tags zero names tag m b = none
scan_tags (suc fuel) names tag m b = elim (le32 m tag == 0) [
  | true ↦ some b
  | false ↦ handle_tag names m tag b >>= λ b'. scan_tags fuel names (next_tag m tag) m b'
]

pub record Bootinfo : Type 0 where
  pub memory : ℕ → Region
  pub mem_size : ℕ
  pub framebuffer : ℕ
  pub initrd : ℕ
  pub tss : ℕ

-- The two errors, or the file that `load_elf64` gets and what `enter_kernel` hands to the kernel.
pub data Outcome : Type 0 where
  bad_magic : Outcome
  unaligned : Outcome
  starts : ℕ → Bootinfo → Outcome

-- A pointer that becomes a `uint64_t` is extended by its sign before it is cut to 32 bits.
pub fill_bootinfo : ℕ → Scan → Bootinfo
fill_bootinfo tss b = record {
  memory = b.memory;
  mem_size = b.memreg_ptr;
  framebuffer = bit_and (sign_extend b.fb) 0xFFFFFFFF;
  initrd = bit_and b.initrd_start 0xFFFFFFFF;
  tss = sign_extend tss;
}

-- `memory` and `fb` are what bootinfo and the stack held before.
pub loader_main : ℕ → Names → ℕ → (ℕ → Region) → ℕ → ℕ → ℕ → Bytes → Option Outcome
unfolding scan_tags fill_bootinfo
loader_main fuel names tss memory fb mbt magic m =
    let b : Scan = record {
      memory = memory;
      memreg_ptr = 0;
      fb = fb;
      kernel_start = 0xFFFFFFFF;
      initrd_start = 0xFFFFFFFF;
      end = 0;
    } in
    let scanned = scan_tags fuel names (u32 (mbt + 8)) m b >>= λ b'.
    some (starts b'.kernel_start (fill_bootinfo tss b')) in
    if not (magic == 0x36d76289)
    then some bad_magic
    else if not (mbt % 8 == 0)
    then some unaligned
    else scanned
