-- ===== src/Loader/Gdt/Tests.antt =====
-- The loader's descriptors at given addresses.
use smpl_osv.Loader.Gdt.{Tables, Addresses, entry, zero_tss}

abbrev blank : Tables
blank = record {
  gdt = λ _. entry 0 0 0 0;
  gdt64 = λ _. entry 0 0 0 0;
  gp = record { pad = 0; limit = 0; base = 0 };
  gp64 = record { pad = 0; limit = 0; base = 0 };
  tss_entry = zero_tss;
  behind_tss = λ _. 255;
}

abbrev places : Addresses
places = record {
  gdt_at = 0x101000;
  gdt64_at = 0x102000;
  tss_at = 0x12345678;
  usr_stack_at = 0x104000;
}
