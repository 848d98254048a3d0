-- ===== src/Drivers/Pci/Tests.antt =====
-- The theorem on the configuration space at one register.
use smpl_osv.Base.{ℕ, ◌+◌, ◌*◌, ◌/◌, ◌%◌, ◌^◌, ◌≡◌, arith, ◌==◌, if◌then◌else◌}
use smpl_osv.Drivers.Pci.{pci_config_read_word}
use smpl_osv.Drivers.Pci.Config.{pci_bus, pci_config_read_word-pci_bus}

abbrev space : ℕ → ℕ → ℕ → ℕ → ℕ
space bus slot func register = 65536 * bus + 256 * slot + 16 * func + register

pci_config_read_word-pci_bus_example :
    (pci_config_read_word (pci_bus space) 3 7 1 10 0).0
    ≡ (if 10 / 2 % 2 == 1 then space 3 7 1 (10 / 4) / 2 ^ 16 else space 3 7 1 (10 / 4) % 2 ^ 16)
pci_config_read_word-pci_bus_example =
    pci_config_read_word-pci_bus space 3 7 1 10 0 (omega arith) (omega arith) (omega arith)
      (omega arith) (omega arith)
