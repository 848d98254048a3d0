-- ===== src/Lib.antt =====
-- SmplOSV3, a small x86-64 kernel in C: a 32-bit loader sets up long mode and the first page tables
-- and starts the kernel, which manages frames, a heap, interrupts, processes, a tree of files,
-- modules in ELF files, and devices behind ports.
--
-- The parts, by the code they are about:
--   * Pmm: src/kernel/src/mem/pmm.c, the stack of free frames (`falloc`, `ffree`,
--     `pmm_mark_frame`), and the loop of `kernel_main` in src/kernel/src/kernel.c that fills it from
--     the regions of memory that the loader found.
--   * Heap: src/kernel/src/mem/heap.c, `kmalloc` and `kfree` over a free list in address order. The
--     memory of the heap is seen through its headers, a block by the address of its header; the
--     clients' bytes between them are not part of it. `Heap.System` adds the clients: a state is what
--     any sequence of requests leads to, with the blocks that are held. `Heap.Realloc` is `krealloc`,
--     with the clients' bytes beside the headers; `kalloc_f` stands with the page tables.
--     `merge_blocks` writes through a null pointer where it absorbs the last block. The page at
--     address 0 is mapped by `init_paging`, so this is a write to the header that would stand there.
--   * Libc: src/libc/src/string.c on a flat memory of bytes, and `endswith` of
--     src/kernel/src/util.c. A string is a list of bytes, none of them zero, that stands at an address
--     in front of a zero (`Libc.Cstr`).
--   * Interrupts: src/kernel/src/int/interrupts.c and syscall.c, the gates of the processor, the
--     tables of handlers and system calls, and the writes to the interrupt controllers. A handler of
--     hardware interrupts gets the registers and leaves others.
--   * Proc: src/kernel/src/proc/proc.c, the table of processes and the switch at the timer's
--     interrupts, which `Interrupts` dispatches to `irq0_listener`.
--   * Tar: src/kernel/src/fs/tar.c, the archive with the initial disk. A table with room for 64 files
--     and buffers for names of 99 bytes are bounds of the model.
--   * Paging: src/kernel/src/mem/paging.c, the page tables as the kernel changes them through the
--     recursive entry 511, with the frames of Pmm, and the tables that `init_paging` starts with
--     (`Paging.Start`).
--   * Vfs: src/kernel/src/dev/vfs.c, the tree of nodes in an arena, paths cut by `strdup` and `strtok`
--     (`Libc.Split`), the dispatch to file system types. A node is its number, 0 the null pointer; a name is its bytes.
--     `Vfs.Tree` says which arenas are trees, and which node a list of names leads to.
--   * Elf: src/kernel/src/elf64.c, the sections and symbols of a file (`Elf.Symbols`), relocations
--     (`Elf.Relocs`), and the segments of an executable (`Elf.Image`), whose pages are mapped to frames
--     with any content. The structures of elf64.h are read from the bytes in memory.
--   * Modules: src/kernel/src/module.c, the kernel's symbols (`Modules.Symbols`) and the loading of a
--     module by Elf with what follows from its header (`Modules.Load`), on the arrays of
--     src/kernel/include/types/dyn_array.h (`Modules.DynArray`).
--   * Drivers: a device of ports and what drives it: src/kernel/src/dev/io.c, pit.c and serial.c
--     (`Drivers.Ports`), pci.c (`Drivers.Pci`), and src/modules/src/ata/src/ata.c (`Drivers.Ata`).
--   * Mmu: the processor's side of page tables, the walk through four levels of frames, which Paging
--     and Loader share.
--   * Loader: src/loader/src/util/div.c, the division of 64-bit numbers, and src/loader/src/memory.c,
--     the segment descriptors (`Loader.Gdt`) and the page tables (`Loader.Paging`) that the kernel
--     starts with; src/loader/src/loader.c, the scan of the boot loader's tags (`Loader.Boot`).
--   * Base: numbers of fixed width, lists, memories as functions, integers.
--
-- Numbers are natural numbers, and where the code's type cuts them off the model says so (`u8`,
-- `u16`, `u32`, `u64`). A state is a record of the variables of a file. `none` stands for what C
-- leaves undefined, an access through a null pointer (but for `merge_blocks`) or behind a table's
-- end, and for a loop that runs out of fuel; that fuel suffices is part of the theorems. The
-- searches of the heap take two rounds more than headers fit below its top, the strings of Libc as
-- many as the theorem's premise says, and the division 65, as a number of 64 bits can be doubled or
-- halved 64 times. The loops over the headers and sections of an ELF file take one round more than
-- the file's count says, and waiting for a device as many as the theorem says it is busy.
--
-- Not modelled are printf, a copy of a third-party library, the Multiboot header, assembly, the log,
-- the caching of page tables by the processor, the loader's strings and its own loading of the
-- kernel. A device, the code of a module and what allocates the memory of a section are parameters of
-- the definitions that use them.
mod Base
pub mod Pmm
pub mod Heap
pub mod Libc
pub mod Interrupts
pub mod Proc
pub mod Tar
pub mod Paging
pub mod Mmu
pub mod Loader
pub mod Vfs
pub mod Elf
pub mod Modules
pub mod Drivers
