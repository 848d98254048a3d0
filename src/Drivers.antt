-- ===== src/Drivers.antt =====
-- The drivers: the ports of src/kernel/src/dev/io.c with the timer and the serial line, the PCI bus
-- of src/kernel/src/dev/pci.c, and the disks of src/modules/src/ata/src/ata.c.
pub mod Ports
pub mod Pci
pub mod Ata
