-- ===== src/Loader/Gdt.antt =====
-- The segment descriptors that the loader sets up, src/loader/src/memory.c.
pub mod Segments
mod Tests
use smpl_osv.Base.{
  ℕ, zero, suc, ◌+◌, ◌-◌, ◌*◌, ◌^◌, Option, some, none, List, [], ◌∷◌, Bool, ◌&&◌, if◌then◌else◌,
  ltb, leb, ◌==◌, update, bit_or,
}
use smpl_osv.Base.Bits.{u8, u16, u32, u64, shr}
use smpl_osv.Elf.{sign_extend}

-- `struct gdt_entry`.
pub record GdtEntry : Type 0 where
  limit : ℕ
  base_low : ℕ
  base_middle : ℕ
  access : ℕ
  granularity : ℕ
  base_high : ℕ

pub record GdtPtr : Type 0 where
  pad : ℕ
  limit : ℕ
  base : ℕ

-- `struct tss_entry_struct`.
pub record Tss : Type 0 where
  reserved0 : ℕ
  rsp0 : ℕ
  rsp1 : ℕ
  rsp2 : ℕ
  reserved1 : ℕ
  ist1 : ℕ
  ist2 : ℕ
  ist3 : ℕ
  ist4 : ℕ
  ist5 : ℕ
  ist6 : ℕ
  ist7 : ℕ
  reserved2 : ℕ
  reserved3 : ℕ
  iomap : ℕ

-- `sizeof(tss_entry_t)`: the fields are packed.
abbrev pub tss_size : ℕ
tss_size = 104

abbrev pub zero_tss : Tss
zero_tss = record {
  reserved0 = 0;
  rsp0 = 0;
  rsp1 = 0;
  rsp2 = 0;
  reserved1 = 0;
  ist1 = 0;
  ist2 = 0;
  ist3 = 0;
  ist4 = 0;
  ist5 = 0;
  ist6 = 0;
  ist7 = 0;
  reserved2 = 0;
  reserved3 = 0;
  iomap = 0;
}

-- `behind_tss` are the bytes that follow `tss_entry`; no other variable here stands among the first
-- 312.
pub record Tables : Type 0 where
  gdt : ℕ → GdtEntry
  gdt64 : ℕ → GdtEntry
  gp : GdtPtr
  gp64 : GdtPtr
  tss_entry : Tss
  behind_tss : ℕ → ℕ

-- The addresses of the loader's variables.
pub record Addresses : Type 0 where
  gdt_at : ℕ
  gdt64_at : ℕ
  tss_at : ℕ
  usr_stack_at : ℕ

-- What `add_gdt_entry` and `add_gdt64_entry` store, cut to the fields' widths.
abbrev pub entry : ℕ → ℕ → ℕ → ℕ → GdtEntry
entry base limit access gran = record {
  base_low = u16 base;
  base_middle = u8 (shr base 16);
  base_high = u8 (shr base 24);
  limit = u16 limit;
  granularity = u8 gran;
  access = u8 access;
}

pub add_gdt_entry : ℕ → ℕ → ℕ → ℕ → ℕ → Tables → Tables
add_gdt_entry num base limit access gran t = record t {
  gdt = update t.gdt num (entry base limit access gran);
}

pub add_gdt64_entry : ℕ → ℕ → ℕ → ℕ → ℕ → Tables → Tables
add_gdt64_entry num base limit access gran t = record t {
  gdt64 = update t.gdt64 num (entry base limit access gran);
}

-- The loader's `memset` writes words of 32 bits, as many as it is given bytes: 416 bytes from
-- `tss_entry` on.
pub write_tss : Addresses → ℕ → ℕ → Tables → Tables
unfolding add_gdt64_entry
write_tss a num rsp0 t =
    let t' = add_gdt64_entry num (u32 a.tss_at) tss_size 0xE9 0x40 t in
    let t'' = add_gdt64_entry (num + 1) 0 0 0 0 t' in
    record t'' {
      tss_entry = record zero_tss { rsp0 = u64 rsp0; iomap = 0xdfff };
      behind_tss = λ i. if ltb i (3 * tss_size) then 0 else t.behind_tss i;
    }

-- The pointer to the user stack becomes a `uint64_t` by its sign.
pub gdt64_install : Addresses → Tables → Tables
unfolding write_tss add_gdt64_entry
gdt64_install a t =
    let pointer : GdtPtr = record {
      pad = t.gp64.pad;
      limit = u16 (8 * 7 - 1);
      base = u32 a.gdt64_at;
    } in
    let t0 = add_gdt64_entry 0 0 0 0 0 (record t { gp64 = pointer }) in
    let t1 = add_gdt64_entry 1 0 0xFFFFFFFF 0x9A 0xAF t0 in
    let t2 = add_gdt64_entry 2 0 0xFFFFFFFF 0x92 0xCF t1 in
    let t3 = add_gdt64_entry 3 0 0xFFFFFFFF 0xFA 0xAF t2 in
    let t4 = add_gdt64_entry 4 0 0xFFFFFFFF 0xF2 0xCF t3 in
    write_tss a 5 (sign_extend (u32 a.usr_stack_at)) t4

-- The log line and `gdt_load`, which tells the processor, are left out.
pub gdt_install : Addresses → Tables → Tables
unfolding gdt64_install add_gdt_entry
gdt_install a t =
    let pointer : GdtPtr = record {
      pad = t.gp.pad;
      limit = u16 (8 * 5 - 1);
      base = u32 a.gdt_at;
    } in
    let t0 = add_gdt_entry 0 0 0 0 0 (record t { gp = pointer }) in
    let t1 = add_gdt_entry 1 0 0xFFFFFFFF 0x9A 0xCF t0 in
    let t2 = add_gdt_entry 2 0 0xFFFFFFFF 0x92 0xCF t1 in
    let t3 = add_gdt_entry 3 0 0xFFFFFFFF 0x92 0xAF t2 in
    let t4 = add_gdt_entry 4 0 0xFFFFFFFF 0x92 0xCF t3 in gdt64_install a t4
