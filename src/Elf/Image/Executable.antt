-- ===== src/Elf/Image/Executable.antt =====
-- What `load_elf64` of elf64.c makes of an executable.
use smpl_osv.Base.{
  ℕ, ◌+◌, ◌*◌, ◌/◌, ◌%◌, ◌<◌, ◌≡◌, refl, arith, true, Option, some, ==_iff, List, [],
}
use smpl_osv.Libc.{Bytes}
use smpl_osv.Elf.{read_ehdr}
use smpl_osv.Elf.Image.{is_elf64, load_exec, load_elf64}
use smpl_osv.Elf.Image.Fields.{read_ehdr-same}
use smpl_osv.Elf.Image.Segments.{
  count, header, Loads, Outside, IsImage, IsCovered, segment_byte, Contains, load_segments_total,
}

module _ (get_kernel_symbol : ℕ → Bytes → Option ℕ) (kmalloc : ℕ → ℕ → ℕ)
    (fresh : List (ℕ × ℕ) → Bytes) (fuel start : ℕ) (m : Bytes) (elf : is_elf64 start m ≡ true)
    (exec : (read_ehdr m start).e_type ≡ 2) (image : IsImage m start)
    (enough : count m start < fuel) where
  executable :
      (s : Bytes × List (ℕ × ℕ))
      → load_exec fresh fuel start m ≡ some ((read_ehdr m start).e_entry, s)
      → load_elf64 get_kernel_symbol kmalloc fresh fuel start m
        ≡ some ((read_ehdr m start).e_entry, s)
  unfolding load_elf64
  executable s run = rw (elf, (==_iff _ 2).1 exec) run

  -- For an ELF file for 64 bits whose type is an executable, whose segments and the pages mapped
  -- for them do not lie over its headers and its contents, and which have no more bytes in the file
  -- than in memory and no more in memory than in their pages, with fuel for the program headers,
  -- `load_elf64` returns the entry point. Then each segment that is to be loaded has in memory its
  -- bytes of the file and zeros behind them, but for bytes that a later segment or a page mapped
  -- for one covers, and memory outside all segments and pages mapped for them is as before.
  pub load_elf64-image :
      ((j : ℕ) → Loads m start j → IsCovered m start j)
      → (m' : Bytes) × (pages : List (ℕ × ℕ)) × (load_elf64 get_kernel_symbol kmalloc fresh fuel
            start m
          ≡ some ((read_ehdr m start).e_entry, (m', pages)))
        × ((j k : ℕ)
            → Loads m start j
            → k < (header m start j).p_memsz
            → ((l : ℕ)
                → j < l
                → Loads m start l
                → Outside m start l ((header m start j).p_vaddr + k))
            → m' ((header m start j).p_vaddr + k) ≡ segment_byte m start j k)
        × ((a : ℕ) → ((j : ℕ) → Loads m start j → Outside m start j a) → m' a ≡ m a)
  unfolding load_exec
  load_elf64-image covered =
      let (m', pages, run, loaded) =
        load_segments_total m start image fresh (count m start) fuel 0 m [] (omega arith) enough
          (λ a kept. refl) in
      let others = λ (a : ℕ) (out : (j : ℕ) → Loads m start j → Outside m start j a).
        loaded.others a (λ j le ld. out j ld) in
      let (_, _, _, entry) =
        read_ehdr-same m m' start (λ k l. others (start + k) (image.header_kept k l)) in
      (
        m',
        pages,
        executable (m', pages) (rw (run, entry) refl),
        λ j k ld less out. loaded.bytes j k (omega arith) ld less out,
        others,
      )

  -- Under the same conditions every byte in memory of a segment that is to be loaded, and whose
  -- address is that of a page, lies in one of the pages that `kalloc_f` is asked to map.
  pub load_elf64-pages :
      (m' : Bytes) × (pages : List (ℕ × ℕ)) × (load_elf64 get_kernel_symbol kmalloc fresh fuel start
          m
        ≡ some ((read_ehdr m start).e_entry, (m', pages)))
      × ((j k : ℕ)
          → Loads m start j
          → (header m start j).p_vaddr % 4096 ≡ 0
          → k < (header m start j).p_memsz
          → (a n i : ℕ) × Contains (a, n) pages
            × (i < n)
            × (((header m start j).p_vaddr + k) / 4096 ≡ (a + i * 4096) / 4096))
  unfolding load_exec
  load_elf64-pages =
      let (m', pages, run, loaded) =
        load_segments_total m start image fresh (count m start) fuel 0 m [] (omega arith) enough
          (λ a kept. refl) in
      let (_, _, _, entry) =
        read_ehdr-same m m' start
          (λ k l. loaded.others (start + k) (λ j le ld. image.header_kept k l j ld)) in
      (
        m',
        pages,
        executable (m', pages) (rw (run, entry) refl),
        λ j k ld aligned less. (
          (header m start j).p_vaddr,
          (header m start j).p_memsz / 4096 + 1,
          k / 4096,
          loaded.mapped j (omega arith) ld,
          omega arith,
          omega arith,
        ),
      )
