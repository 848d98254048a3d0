-- ===== src/Drivers/Pci.antt =====
-- The PCI bus, src/kernel/src/dev/pci.c with the macros of src/kernel/include/dev/pci.h.
pub mod Config
mod Tests
use smpl_osv.Base.{
  ℕ, zero, suc, ◌+◌, ◌*◌, ◌/◌, ◌%◌, ◌^◌, Bool, true, false, Option, none, some, ◌==◌, bit_and,
  bit_or, if◌then◌else◌, List, [], ◌∷◌,
}
use smpl_osv.Base.Bits.{u8, u16, u32, shl, shr}
use smpl_osv.Libc.{◌>>=◌}
use smpl_osv.Drivers.Ports.{Device, outl, inl}
use smpl_osv.Modules.DynArray.{Dyn, init_dyn_array, dyn_array_add}

-- `pci_device_t`; the code leaves `header_type` and `irq` as they are.
pub record PciDevice : Type 0 where
  pub vendor : ℕ
  pub device : ℕ
  pub class_code : ℕ
  pub subclass_code : ℕ
  pub bar0 : ℕ
  pub bar1 : ℕ
  pub bar2 : ℕ
  pub bar3 : ℕ
  pub bar4 : ℕ
  pub bar5 : ℕ

pub config_address : ℕ → ℕ → ℕ → ℕ → ℕ
config_address bus slot func offset = u32 (
    bit_or (bit_or (bit_or (bit_or (shl bus 16) (shl slot 11)) (shl func 8)) (bit_and offset 0xFC))
      0x80000000)

module _ {S : Type 0} (d : Device S) where
  pub pci_config_read_word : ℕ → ℕ → ℕ → ℕ → S → ℕ × S
  unfolding config_address
  pci_config_read_word bus slot func offset s =
      let (v, s') = inl d 0xCFC (outl d 0xCF8 (config_address bus slot func offset) s) in
      (u16 (shr v (bit_and offset 2 * 8)), s')

  -- PCI_BAR0 to PCI_BAR5, by the offsets of the lower and the upper half.
  pub pci_bar : ℕ → ℕ → ℕ → ℕ → ℕ → S → ℕ × S
  unfolding pci_config_read_word
  pci_bar low high bus slot func s =
      let (l, s1) = pci_config_read_word bus slot func low s in
      let (h, s2) = pci_config_read_word bus slot func high s1 in (bit_or l (shl h 16), s2)

  -- The words that the call of `info` reads, which are only printed.
  read_words : List ℕ → ℕ → ℕ → ℕ → S → S
  read_words [] bus slot func s = s
  read_words (offset ∷ offsets) bus slot func s =
      let (v, s') = pci_config_read_word bus slot func offset s in
      read_words offsets bus slot func s'

  pub pci_enumerate_function : ℕ → ℕ → ℕ → Dyn PciDevice × S → Option (Dyn PciDevice × S)
  unfolding pci_bar read_words
  pci_enumerate_function bus slot func (devices, s) =
      let (vendor, s1) = pci_config_read_word bus slot func 0x0 s in
      let (device, s2) = pci_config_read_word bus slot func 0x2 s1 in
      let (class_code, s3) = pci_config_read_word bus slot func 0xB s2 in
      let (subclass, s4) = pci_config_read_word bus slot func 0xB s3 in
      let (bar0, s5) = pci_bar 0x10 0x12 bus slot func s4 in
      let (bar1, s6) = pci_bar 0x14 0x16 bus slot func s5 in
      let (bar2, s7) = pci_bar 0x18 0x12 bus slot func s6 in
      let (bar3, s8) = pci_bar 0x1C 0x1A bus slot func s7 in
      let (bar4, s9) = pci_bar 0x20 0x22 bus slot func s8 in
      let (bar5, s10) = pci_bar 0x24 0x26 bus slot func s9 in
      let found : PciDevice = record {
        vendor = vendor;
        device = device;
        class_code = u8 (shr class_code 8);
        subclass_code = u8 (bit_and subclass 0xFF);
        bar0 = bar0;
        bar1 = bar1;
        bar2 = bar2;
        bar3 = bar3;
        bar4 = bar4;
        bar5 = bar5;
      } in
      do
        devices' ← dyn_array_add devices found
        some (devices', read_words (0x0 ∷ 0x2 ∷ 0xB ∷ 0xB ∷ 0xE ∷ 0x3C ∷ []) bus slot func s10)

  -- The functions from `func` on, `left` of them.
  pub enumerate_functions : ℕ → ℕ → ℕ → ℕ → Dyn PciDevice × S → Option (Dyn PciDevice × S)
  unfolding pci_enumerate_function
  enumerate_functions zero func bus slot st = some st
  enumerate_functions (suc left) func bus slot (devices, s) =
      let (vendor, s') = pci_config_read_word bus slot func 0x0 s in
      do
        st ←
            if vendor == 0xFFFF
            then some (devices, s')
            else pci_enumerate_function bus slot func (devices, s')
        enumerate_functions left (suc func) bus slot st

  pub pci_enumerate_device : ℕ → ℕ → Dyn PciDevice × S → Option (Dyn PciDevice × S)
  unfolding enumerate_functions
  pci_enumerate_device bus slot (devices, s) =
      let (vendor, s1) = pci_config_read_word bus slot 0 0x0 s in
      if vendor == 0xFFFF then some (devices, s1) else do
        (devices', s2) ← pci_enumerate_function bus slot 0 (devices, s1)
        let (header_type, s3) = pci_config_read_word bus slot 0 0xE s2
        if bit_and header_type 0x80 == 0
            then some (devices', s3)
            else enumerate_functions 7 1 bus slot (devices', s3)

  -- The slots of a bus from `slot` on, and the buses from `bus` on.
  pub enumerate_slots : ℕ → ℕ → ℕ → Dyn PciDevice × S → Option (Dyn PciDevice × S)
  unfolding pci_enumerate_device
  enumerate_slots zero slot bus st = some st
  enumerate_slots (suc left) slot bus st = do
    st' ← pci_enumerate_device bus slot st
    enumerate_slots left (suc slot) bus st'

  pub enumerate_buses : ℕ → ℕ → Dyn PciDevice × S → Option (Dyn PciDevice × S)
  unfolding enumerate_slots
  enumerate_buses zero bus st = some st
  enumerate_buses (suc left) bus st = do
    st' ← enumerate_slots 32 0 bus st
    enumerate_buses left (suc bus) st'

  pub pci_init : (ℕ → PciDevice) → S → Option (Dyn PciDevice × S)
  unfolding enumerate_buses
  pci_init junk s = enumerate_buses 256 0 (init_dyn_array junk 256, s)
