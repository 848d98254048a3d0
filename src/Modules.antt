-- ===== src/Modules.antt =====
-- Kernel modules, src/kernel/src/module.c and src/kernel/include/module.h, with the arrays that
-- grow of src/kernel/include/types/dyn_array.h. The symbols that modules are linked with are in
-- `Modules.Symbols`, the modules themselves in `Modules.Load`.
pub mod DynArray
pub mod Symbols
pub mod Load
