-- ===== src/Pmm/Tests.antt =====
-- Runs of pmm.c, and its theorems at small stacks.
use smpl_osv.Base.{ℕ, ◌+◌, ◌-◌, ◌^◌, ◌≡◌, refl, some, List, [], ◌∷◌, arith}
use smpl_osv.Pmm.{
  Pmm, falloc, ffree, pmm_mark_frame, pmm_get_stack_size, free_frames, alloc, free, run,
}
use smpl_osv.Pmm.Refine.{lifo, run-lifo}
use smpl_osv.Pmm.Boot.{Region, mark_regions, promised, mark_regions-count}
use smpl_osv.Pmm.Conserve.{count, System, take, here, next, copies, population, Reach-copies}

abbrev empty : Pmm
empty = record { stack = λ _. 0; esp = 0; stack_size = 0 }

abbrev two : Pmm
two = record { stack = λ i. 0x1400000 + i; esp = 2; stack_size = 2 }

run-lifo_example :
    ((run (free 7 ∷ alloc ∷ alloc ∷ []) two).0 ≡ 7 ∷ 0x1400001 ∷ [])
    × (free_frames (run (free 7 ∷ alloc ∷ alloc ∷ []) two).1 ≡ 0x1400000 ∷ [])
unfolding lifo
run-lifo_example =
    run-lifo (free 7 ∷ alloc ∷ alloc ∷ []) two (0x1400001 ∷ 0x1400000 ∷ []) (7 ∷ 0x1400001 ∷ [])
      (0x1400000 ∷ []) (omega arith) refl refl

-- There is no test for an empty stack: the depth wraps.
empty_wraps : (falloc empty).1.esp ≡ 2 ^ 32 - 1
unfolding falloc
empty_wraps = refl

peak : pmm_get_stack_size (ffree 5 (pmm_mark_frame 3 empty)) ≡ 2
unfolding ffree pmm_mark_frame pmm_get_stack_size
peak = refl

abbrev map_of_two : List Region
map_of_two =
    record { start = 0; end = 0x9fc00; type = 1 }
    ∷ record { start = 0x13fe000; end = 0x1401000; type = 1 }
    ∷ []

mark_regions-count_example :
    (t : Pmm) × (mark_regions map_of_two empty ≡ some t)
    × ((a : ℕ) → count a (free_frames t) ≡ count a (free_frames empty) + promised map_of_two a)
mark_regions-count_example = mark_regions-count map_of_two empty (omega arith) (omega arith)

-- The frame at the exclusive end of the second region is handed out.
end_is_promised : promised map_of_two 0x1401000 ≡ 1
unfolding promised
end_is_promised = refl

abbrev start : System
start = record { pmm = two; held = [] }

Reach-copies_example :
    ((a : ℕ)
      → copies (record { pmm = (falloc two).1; held = (falloc two).0 ∷ [] }) a ≡ copies start a)
    × (population (record { pmm = (falloc two).1; held = (falloc two).0 ∷ [] }) ≡ 2)
Reach-copies_example = Reach-copies (next here (take start (omega arith))) (omega arith)
