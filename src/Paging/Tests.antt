-- ===== src/Paging/Tests.antt =====
-- The theorems on page tables in a memory that holds only an empty first table.
use smpl_osv.Base.{
  ℕ, ◌+◌, ◌*◌, ◌%◌, ◌^◌, ◌≡◌, ◌≢◌, ◌⊎◌, refl, arith, some, none, update, ◌==◌, if◌then◌else◌, ◌&&◌,
  true,
}
use smpl_osv.Pmm.{falloc}
use smpl_osv.Mmu.{walk}
use smpl_osv.Paging.Tree.{IsTree, Fresh}
use smpl_osv.Paging.Mapped.{mapf-walk}
use smpl_osv.Paging.Unmap.{mapf-unmap}
use smpl_osv.Paging.{Paging, mapf, is_present, to_physical, unmap}

abbrev level : ℕ → ℕ
level f = if f == 100 then 4 else 0

-- The first table is at frame 100; `falloc` has the frames 201, 202 and 203.
abbrev empty : Paging
empty = record {
  frames = λ f i. if f == 100 && i == 511 then 100 * 4096 + 3 else 0;
  cr3 = 100;
  current = 100;
  pmm = record { stack = λ i. (201 + i) * 4096; esp = 3; stack_size = 3 };
}

no_entry : (f i : ℕ) → (f ≢ 100) ⊎ (i ≢ 511) → is_present (empty.frames f i) ≢ true
no_entry f i apart present = ground arith

empty-IsTree : IsTree level empty
empty-IsTree = record {
  same_top = refl;
  top_level = refl;
  recursive = refl;
  words = λ f i. ground arith;
  down = λ n f i pos lev inside apart present. absurd (no_entry f i apart present);
}

three_free : Fresh level empty.pmm 3
unfolding falloc update
three_free = (
  203,
  refl,
  omega arith,
  refl,
  λ n. (202, refl, omega arith, refl, λ n'. (201, refl, omega arith, refl, λ n''. tt)),
)

mapf-walk_example :
    (s' : Paging) × (level' : ℕ → ℕ) × (mapf (77 * 2 ^ 12) 0x1000000 3 empty ≡ some s')
    × (walk s'.frames s'.cr3 0x1000000 ≡ some (77 * 2 ^ 12 + 0x1000000 % 2 ^ 12))
    × IsTree level' s'
mapf-walk_example =
    mapf-walk 0x1000000 3 (omega arith) (omega arith) level empty 77 empty-IsTree three_free
      (omega arith)

mapf-unmap_example :
    (s' : Paging) × (s'' : Paging) × (mapf (77 * 2 ^ 12) 0x1000000 3 empty ≡ some s')
    × (to_physical 0x1000000 s' ≡ some (77 * 2 ^ 12 % 2 ^ 32))
    × (unmap 0x1000000 s' ≡ some s'')
    × (walk s''.frames s''.cr3 0x1000000 ≡ none)
mapf-unmap_example =
    mapf-unmap 0x1000000 3 (omega arith) (omega arith) level empty 77 empty-IsTree three_free
      (omega arith)
