-- ===== src/Paging/Start/Tests.antt =====
-- The theorem on `init_paging` with eight tables from address 0x300000 on.
use smpl_osv.Base.{ℕ, ◌+◌, ◌<◌, ◌≡◌, refl, arith, some}
use smpl_osv.Mmu.{walk}
use smpl_osv.Paging.{Paging}
use smpl_osv.Paging.Tree.{IsTree}
use smpl_osv.Paging.Start.{Statics, init_paging}
use smpl_osv.Paging.Start.Filled.{IsStatics}
use smpl_osv.Paging.Start.Identity.{start_level, init_paging-IsTree}

abbrev statics : Statics
statics = record { pml4 = 0x300; pd_ptr_table = 0x301; pd = 0x302; pt = λ k. 0x303 + k }

abbrev loaded : Paging
loaded = record {
  frames = λ f i. 7;
  cr3 = 0x200;
  current = 0x300;
  pmm = record { stack = λ i. 0; esp = 0; stack_size = 0 };
}

statics-IsStatics : IsStatics statics
statics-IsStatics = record {
  pml4_apart = (omega arith, omega arith);
  pd_ptr_table_apart = omega arith;
  pt_apart = λ k l. (omega arith, omega arith, omega arith);
  pt_differ = λ j k l u ne. ground arith;
  fits = (omega arith, omega arith, omega arith);
  pt_fits = λ k l. omega arith;
}

init_paging-IsTree_example :
    IsTree (start_level statics) (init_paging statics loaded)
    × ((addr : ℕ)
        → addr < 0xA00000
        → walk (init_paging statics loaded).frames 0x300 addr ≡ some addr)
init_paging-IsTree_example =
    init_paging-IsTree statics statics-IsStatics loaded refl (λ f i. omega arith)
