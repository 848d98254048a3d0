-- ===== src/Loader/Paging/Tests.antt =====
-- The loader's page tables at nine frames in a row.
use smpl_osv.Base.{◌+◌, ◌≡◌, some, arith}
use smpl_osv.Mmu.{Frames, walk}
use smpl_osv.Loader.Paging.Rows.{IsLayout}
use smpl_osv.Loader.Paging.Identity.{paging_setup-identity}
use smpl_osv.Loader.Paging.{Layout, paging_setup}

abbrev nine_frames : Layout
nine_frames = record { pml4 = 300; pd_ptr_table = 301; pd = 302; pt = λ k. 303 + k }

nine_frames-IsLayout : IsLayout nine_frames
nine_frames-IsLayout = record {
  pml4_apart = (omega arith, omega arith, omega arith);
  pd_ptr_table_apart = (omega arith, omega arith);
  pd_apart = omega arith;
  pt_apart = λ k l. (omega arith, omega arith, omega arith);
  pt_differ = λ j k l u ne. omega arith;
  fits = (omega arith, omega arith);
  pt_fits = λ k l. omega arith;
}

abbrev garbage : Frames
garbage f i = f + i

paging_setup-identity_example : walk (paging_setup nine_frames garbage) 300 0xB8000 ≡ some 0xB8000
paging_setup-identity_example =
    paging_setup-identity nine_frames nine_frames-IsLayout garbage 0xB8000 (omega arith)
