-- ===== src/Loader.antt =====
-- The 32-bit loader that starts the kernel: src/loader.
pub mod Div
pub mod Gdt
pub mod Paging
pub mod Boot
