-- ===== src/Drivers/Ata/Tests.antt =====
-- The theorem on requests at a slave with long numbers.
use smpl_osv.Base.{◌^◌, ◌≡◌, ◌≢◌, ◌<◌, arith}
use smpl_osv.Drivers.Ata.{AtaDevice, io_base}
use smpl_osv.Drivers.Ata.Sectors.{HoldsLong, HoldsShort, request, ata_read_sectors-registers}

abbrev disk : AtaDevice
disk = record {
  bus = 1;
  slave = 1;
  lba48 = 1;
  dma_active = 0;
  dma_available = 0;
  ident_buffer = λ i. 0;
  lba28_sectors = 0;
  lba48_sectors = 0;
}

ata_read_sectors-registers_example :
    (disk.lba48 ≢ 0
      → 0x123456789ABC < 2 ^ 48
      → 500 < 2 ^ 16
      → HoldsLong
          (io_base disk.bus)
          (request disk 0x123456789ABC 500)
          disk.slave
          0x123456789ABC
          500)
    × (disk.lba48 ≡ 0
        → 0x123456789ABC < 2 ^ 28
        → 500 < 2 ^ 8
        → HoldsShort
            (io_base disk.bus)
            (request disk 0x123456789ABC 500)
            disk.slave
            0x123456789ABC
            500)
ata_read_sectors-registers_example =
    ata_read_sectors-registers disk 0x123456789ABC 500 (omega arith)
