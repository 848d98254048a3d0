-- ===== src/Drivers/Ata.antt =====
-- The disks, src/modules/src/ata/src/ata.c with the registers of ata.h.
pub mod Sectors
pub mod Load
mod Tests
use smpl_osv.Base.{
  ℕ, zero, suc, ◌+◌, ◌*◌, ◌/◌, ◌%◌, ◌^◌, Bool, true, false, ◌||◌, not, Option, none, some, List, [],
  ◌∷◌, ◌++◌, ◌==◌, bit_and, bit_or, if◌then◌else◌, update,
}
use smpl_osv.Base.Bits.{u8, u16, u32, shl, shr}
use smpl_osv.Libc.{◌>>=◌}
use smpl_osv.Interrupts.{Interrupts, Handler, driver, set_irq_handler}
use smpl_osv.Vfs.{Vfs, Types, kcreate}
use smpl_osv.Drivers.Ports.{Device, outb, inb, inw}

-- `ata_device_t`; `ident_buffer` is the words of the buffer.
pub record AtaDevice : Type 0 where
  pub bus : ℕ
  pub slave : ℕ
  pub lba48 : ℕ
  pub dma_active : ℕ
  pub dma_available : ℕ
  pub ident_buffer : ℕ → ℕ
  pub lba28_sectors : ℕ
  pub lba48_sectors : ℕ

-- ATA_PRIMARY_IO_BASE and the like, by the bus.
abbrev pub io_base : ℕ → ℕ
io_base secondary = if secondary == 0 then 0x1F0 else 0x170

abbrev pub control_base : ℕ → ℕ
control_base secondary = if secondary == 0 then 0x3F6 else 0x376

pub ata_get_iobase : AtaDevice → ℕ
ata_get_iobase dev = io_base dev.bus

pub ata_get_ctrlbase : AtaDevice → ℕ
ata_get_ctrlbase dev = control_base dev.bus

module _ {S : Type 0} (d : Device S) where
  pub ata_cache_flush : AtaDevice → S → S
  unfolding ata_get_iobase outb
  ata_cache_flush dev s = outb d (ata_get_iobase dev + 7) 0xE7 s

  pub ata_sel_drive : AtaDevice → S → S
  unfolding ata_get_iobase outb
  ata_sel_drive dev s = outb d (ata_get_iobase dev + 6) (if dev.slave == 0 then 0xA0 else 0xB0) s

  -- The first busy loop: while bit 7 of the status is set.
  pub wait_ready : ℕ → ℕ → S → Option S
  unfolding inb
  wait_ready zero iobase s = none
  wait_ready (suc fuel) iobase s =
      let (status, s') = inb d (iobase + 7) s in
      elim (bit_and status 0x80 == 0) [ true ↦ some s' | false ↦ wait_ready fuel iobase s' ]

  -- The words of the buffer from `i` on.
  pub read_words : ℕ → ℕ → ℕ → (ℕ → ℕ) → S → (ℕ → ℕ) × S
  unfolding inw update
  read_words zero i iobase buffer s = (buffer, s)
  read_words (suc left) i iobase buffer s =
      let (word, s') = inw d iobase s in read_words left (suc i) iobase (update buffer i word) s'

  -- The second loop: until an error or data.
  pub wait_data : ℕ → ℕ → (ℕ → ℕ) → S → Option (ℕ × (ℕ → ℕ) × S)
  unfolding read_words inb
  wait_data zero iobase buffer s = none
  wait_data (suc fuel) iobase buffer s =
      let (status, s') = inb d (iobase + 7) s in
      let (filled, s'') = read_words 256 0 iobase buffer s' in
      elim (bit_and status 1 == 0) [
        | false ↦ some (1, buffer, s')
        | true ↦ elim (bit_and status 8 == 0) [
          | false ↦ some (0, filled, s'')
          | true ↦ wait_data fuel iobase buffer s'
        ]
      ]

  -- After the command: the code reads the register SECNUM_HIGH only if SECNUM_MID is 0.
  pub identify : ℕ → ℕ → (ℕ → ℕ) → S → Option (ℕ × (ℕ → ℕ) × S)
  unfolding wait_ready wait_data
  identify fuel iobase buffer s = do
    s1 ← wait_ready fuel iobase s
    let (mid, s2) = inb d (iobase + 4) s1
    let (high, s3) = inb d (iobase + 5) s2
    if not (mid == 0)
        then some (0, buffer, s2)
        else if not (high == 0)
        then some (0, buffer, s3)
        else wait_data fuel iobase buffer s3

  -- The result is 0 for a disk, 1 for an error and 2 where nothing answers.
  pub ata_identity : ℕ → ℕ → ℕ → (ℕ → ℕ) → S → Option (ℕ × (ℕ → ℕ) × S)
  unfolding identify
  ata_identity fuel secondary slave buffer s =
      let iobase = io_base secondary in
      let s1 = outb d (iobase + 6) (if slave == 0 then 0xA0 else 0xB0) s in
      let s2 = outb d (iobase + 3) 0 (outb d (iobase + 2) 0 s1) in
      let s3 = outb d (iobase + 5) 0 (outb d (iobase + 4) 0 s2) in
      let (status, s4) = inb d (iobase + 7) (outb d (iobase + 7) 0xEC s3) in
      if status == 0 then some (2, buffer, s4) else identify fuel iobase buffer s4

  pub ata_irq_handler_master : S → S
  ata_irq_handler_master s = (inb d (0x1F0 + 7) s).1

  pub ata_irq_handler_slave : S → S
  ata_irq_handler_slave s = (inb d (0x170 + 7) s).1

  pub ata_read_sectors : AtaDevice → ℕ → ℕ → S → ℕ × S
  unfolding ata_get_iobase ata_cache_flush
  ata_read_sectors dev lba sec_count s =
      let iobase = ata_get_iobase dev in
      let a1 = outb d (iobase + 6) (bit_or 0x40 (shl dev.slave 4)) s in
      let a2 = outb d (iobase + 2) (shr sec_count 8) a1 in
      let a3 = outb d (iobase + 3) (u8 (shr lba 24)) a2 in
      let a4 = outb d (iobase + 4) (u8 (shr lba 32)) a3 in
      let a5 = outb d (iobase + 5) (u8 (shr lba 40)) a4 in
      let a6 = outb d (iobase + 2) (bit_and sec_count 0xFF) a5 in
      let a7 = outb d (iobase + 3) (u8 lba) a6 in
      let a8 = outb d (iobase + 4) (u8 (shr lba 8)) a7 in
      let a9 = outb d (iobase + 5) (u8 (shr lba 16)) a8 in
      let long = outb d (iobase + 7) 0x24 a9 in
      let slba = u32 lba in
      let other = if dev.slave == 0 then 1 else 0 in
      let drive = bit_or (bit_or 0xE0 (shl other 4)) (bit_and (shr slba 24) 0x0F) in
      let b1 = outb d (iobase + 1) 0 s in
      let b2 = outb d (iobase + 6) drive b1 in
      let b3 = outb d (iobase + 2) sec_count b2 in
      let b4 = outb d (iobase + 3) (u8 slba) b3 in
      let b5 = outb d (iobase + 4) (u8 (shr slba 8)) b4 in
      let b6 = outb d (iobase + 5) (u8 (shr slba 16)) b5 in
      let short = outb d (iobase + 7) 0x20 b6 in
      (sec_count, ata_cache_flush dev (if dev.lba48 == 0 then short else long))

  pub ata_reset : ℕ → S → S
  ata_reset slave s =
      let base = control_base slave in
      let (status, s') = inb d base (outb d base 0x20 s) in outb d base 0 s'
