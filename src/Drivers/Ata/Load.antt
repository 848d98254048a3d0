-- ===== src/Drivers/Ata/Load.antt =====
-- The start of the disks' module, `load` and `unload` of ata.c.
use smpl_osv.Base.{
  ℕ, ◌+◌, ◌*◌, ◌^◌, Option, none, some, List, [], ◌∷◌, ◌==◌, bit_and, if◌then◌else◌, update,
}
use smpl_osv.Base.Bits.{u8, shr}
use smpl_osv.Libc.{◌>>=◌}
use smpl_osv.Interrupts.{Interrupts, driver, set_irq_handler}
use smpl_osv.Vfs.{Vfs, Types, kcreate}
use smpl_osv.Drivers.Ports.{Device, outb}
use smpl_osv.Drivers.Ata.{AtaDevice, ata_get_ctrlbase, ata_identity, ata_reset}

-- What is behind the ports, `ata_devices`, `letter`, and the system's state that the module
-- changes.
pub record AtaModule (S : Type 0) : Type 0 where
  pub io : S
  pub ata_devices : ℕ → Option AtaDevice
  pub letter : ℕ
  pub vfs : Vfs
  pub interrupts : Interrupts

-- What the buffer of an answer says; `junk` is what is in new memory.
pub describe : ℕ → ℕ → ℕ → (ℕ → ℕ) → AtaDevice
describe junk bus slave buffer =
    let lba48 = if bit_and (buffer 83) 0x400 == 0 then 0 else 1 in
    let sectors = buffer 100 + 2 ^ 16 * buffer 101 + 2 ^ 32 * buffer 102 + 2 ^ 48 * buffer 103 in
    record {
      bus = bus;
      slave = slave;
      lba48 = lba48;
      dma_active = u8 (shr (bit_and (buffer 88) 0xFF00) 8);
      dma_available = u8 (bit_and (buffer 88) 0xFF);
      ident_buffer = buffer;
      lba28_sectors = buffer 60 + 2 ^ 16 * buffer 61;
      lba48_sectors = if lba48 == 0 then junk else sectors;
    }

-- "/dev/sd" and a letter.
abbrev pub device_path : ℕ → List ℕ
device_path letter = 47 ∷ 100 ∷ 101 ∷ 118 ∷ 47 ∷ 115 ∷ 100 ∷ letter ∷ []

module _ {S : Type 0} (d : Device S) (types : Types) (fuel junk : ℕ) where
  pub add_device : ℕ → ℕ → (ℕ → ℕ) → AtaModule S → Option (AtaModule S)
  unfolding describe ata_get_ctrlbase
  add_device i j buffer st =
      let dev = describe junk i j buffer in
      do
        (node, vfs) ← kcreate types (device_path st.letter) 0 st.vfs
        some (record st {
          io = outb d (ata_get_ctrlbase dev + 1) 0 st.io;
          ata_devices = update st.ata_devices (2 * i + j) (some dev);
          letter = u8 (st.letter + 1);
          vfs = vfs;
        })

  -- One round of the loops; the buffer keeps what the last round left in it.
  pub probe : ℕ → ℕ → (ℕ → ℕ) × AtaModule S → Option ((ℕ → ℕ) × AtaModule S)
  unfolding add_device
  probe i j (buffer, st) = do
    (result, buffer', io) ← ata_identity d fuel i j buffer st.io
    let asked = record st { io = io }
    st' ← if result == 0 then add_device i j buffer' asked else some asked
    some (buffer', st')

  -- `load`, where a handler of a module is `driver`.
  pub load : (ℕ → ℕ) → AtaModule S → Option (ℕ × AtaModule S)
  unfolding probe ata_reset
  load buffer st = do
    let io = ata_reset d 1 (ata_reset d 0 st.io)
    s0 ← probe 0 0 (buffer, record st { io = io; ata_devices = λ i. none })
    s1 ← probe 0 1 s0
    s2 ← probe 1 0 s1
    (b3, s3) ← probe 1 1 s2
    let masters = set_irq_handler 14 (some (driver 0)) s3.interrupts
    some (0, record s3 { interrupts = set_irq_handler 15 (some (driver 1)) masters })

pub unload : ℕ
unload = 0
