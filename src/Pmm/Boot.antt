-- ===== src/Pmm/Boot.antt =====
-- The loop of `kernel_main` (src/kernel/src/kernel.c) that hands the usable frames to pmm.c.
use smpl_osv.Base.{
  ℕ, zero, suc, ◌+◌, ◌-◌, ◌/◌, ◌%◌, ◌^◌, ◌≤◌, ◌<◌, ◌≡◌, refl, ap, ◌∙◌, Option, none, some, Bool,
  ◌&&◌, List, [], ◌∷◌, arith, All, ltb, leb, le→leb, ◌==◌, if◌then◌else◌, Bool-cases, inl, inr,
}
use smpl_osv.Base.Bits.{u64}
use smpl_osv.Pmm.{Pmm, pmm_mark_frame, free_frames}
use smpl_osv.Pmm.Conserve.{count}
use smpl_osv.Pmm.Refine.{free_frames-mark, mark-esp}

-- `bootinfo_mem_region_t`.
pub record Region : Type 0 where
  pub start : ℕ
  pub end : ℕ
  pub type : ℕ

-- Frames up to here hold the kernel, its tables and the frame stack.
abbrev pub reserved_top : ℕ
reserved_top = 0x13ff000

abbrev pub keep : ℕ → Pmm → Pmm
keep addr s = if ltb reserved_top addr then pmm_mark_frame addr s else s

-- `for (addr = start; addr <= end; addr += 4096)`; `none` means that the fuel ran out.
pub mark_range : ℕ → ℕ → ℕ → Pmm → Option Pmm
mark_range zero addr end s = none
mark_range (suc fuel) addr end s =
    let rest = mark_range fuel (u64 (addr + 4096)) end (keep addr s) in
    if leb addr end then rest else some s

-- One round for each frame, and one for the test that fails.
pub mark_region : Region → Pmm → Option Pmm
unfolding mark_range
mark_region r s =
    if r.type == 1 then mark_range ((r.end - r.start) / 4096 + 2) r.start r.end s else some s

-- All entries of the memory map; its count is a `uint8_t`, as is the loop's index.
pub mark_regions : List Region → Pmm → Option Pmm
mark_regions [] s = some s
mark_regions (r ∷ rs) s = elim (mark_region r s) [ none ↦ none | some t ↦ mark_regions rs t ]

-- The frames that a range offers, the last first: `n` of them from `addr`, less the reserved ones.
unfoldable pub offered : ℕ → ℕ → List ℕ → List ℕ
offered zero addr fs = fs
offered (suc n) addr fs = offered n (addr + 4096) (if ltb reserved_top addr then addr ∷ fs else fs)

abbrev pub frame_count : ℕ → ℕ → ℕ
frame_count start end = (end + 4096 - start) / 4096

keep-free_frames :
    (addr : ℕ) (s : Pmm) (fs : List ℕ)
    → s.esp + 1 < 2 ^ 32
    → free_frames s ≡ fs
    → (free_frames (keep addr s) ≡ (if ltb reserved_top addr then addr ∷ fs else fs))
      × ((keep addr s).esp ≤ s.esp + 1)
keep-free_frames addr s fs h e = elim (Bool-cases (ltb reserved_top addr)) [
  | inl hi ↦ rw hi (free_frames-mark addr s h ∙ ap (◌∷◌ addr) e, omega (arith, mark-esp addr s h))
  | inr lo ↦ rw lo (e, omega arith)
]

mark_range-suc :
    (fuel addr end : ℕ) (s : Pmm)
    → addr ≤ end
    → addr + 4096 < 2 ^ 64
    → mark_range (suc fuel) addr end s ≡ mark_range fuel (addr + 4096) end (keep addr s)
unfolding mark_range
mark_range-suc fuel addr end s h w =
    let step : u64 (addr + 4096) ≡ addr + 4096 = omega arith in rw (le→leb addr end h, step)

mark_range-done :
    (fuel addr end : ℕ) (s : Pmm) → end < addr → mark_range (suc fuel) addr end s ≡ some s
unfolding mark_range
mark_range-done fuel addr end s h = ground arith

-- With `n` frames left in the range, `n + 1` rounds are enough.
mark_range-offered :
    (fuel n addr end : ℕ) (s : Pmm) (fs : List ℕ)
    → n < fuel
    → end + 4096 < 2 ^ 64
    → frame_count addr end ≡ n
    → addr < 2 ^ 64
    → s.esp + n < 2 ^ 32
    → free_frames s ≡ fs
    → (t : Pmm) × (mark_range fuel addr end s ≡ some t)
      × (free_frames t ≡ offered n addr fs)
      × (t.esp ≤ s.esp + n)
unfolding offered
mark_range-offered zero n addr end s fs f w c a d e = absurd (omega arith)
mark_range-offered (suc fuel) zero addr end s fs f w c a d e =
    (s, mark_range-done fuel addr end s (omega arith), e, omega arith)
mark_range-offered (suc fuel) (suc n) addr end s fs f w c a d e =
    let kept = keep-free_frames addr s fs (omega arith) e in
    let (t, r, ff, dep) =
      mark_range-offered fuel n (addr + 4096) end (keep addr s) _ (omega arith) w (omega arith)
        (omega arith) (omega arith) kept.0 in
    (t, mark_range-suc fuel addr end s (omega arith) (omega arith) ∙ r, ff, omega arith)

-- Whether a frame is one of those that the range has to give.
abbrev pub wanted : ℕ → ℕ → ℕ → Bool
wanted start end a = leb start a && leb a end && (a - start) % 4096 == 0 && ltb reserved_top a

count-offered :
    (n addr end a : ℕ) (fs : List ℕ)
    → frame_count addr end ≡ n
    → count a (offered n addr fs) ≡ count a fs + (if wanted addr end a then 1 else 0)
unfolding count offered
count-offered zero addr end a fs c = ground arith
count-offered (suc n) addr end a fs c = ground (
  arith,
  count-offered n (addr + 4096) end a (if ltb reserved_top addr then addr ∷ fs else fs)
      (omega arith),
)

abbrev pub Fits : Region → Type 0
Fits r = (r.start < 2 ^ 64) × (r.end + 4096 < 2 ^ 64)

abbrev pub region_frames : Region → ℕ
region_frames r = if r.type == 1 then frame_count r.start r.end else 0

abbrev pub total_frames : List Region → ℕ
total_frames [] = 0
total_frames (r ∷ rs) = region_frames r + total_frames rs

-- How many usable regions of the map have to give the frame.
abbrev pub gives : Region → ℕ → ℕ
gives r a = if r.type == 1 && wanted r.start r.end a then 1 else 0

unfoldable pub promised : List Region → ℕ → ℕ
promised [] a = 0
promised (r ∷ rs) a = gives r a + promised rs a

mark_region-count :
    (r : Region) (s : Pmm)
    → Fits r
    → s.esp + region_frames r < 2 ^ 32
    → (t : Pmm) × (mark_region r s ≡ some t)
      × (t.esp ≤ s.esp + region_frames r)
      × ((a : ℕ) → count a (free_frames t) ≡ count a (free_frames s) + gives r a)
unfolding mark_region
mark_region-count r s w d = elim (Bool-cases (r.type == 1)) [
  | inl usable ↦
      let d' : s.esp + frame_count r.start r.end < 2 ^ 32 = ground arith in
      let (t, run, ff, dep) =
        mark_range-offered ((r.end - r.start) / 4096 + 2) (frame_count r.start r.end) r.start r.end
          s (free_frames s) (omega arith) w.1 refl w.0 d' refl in
      rw usable (t, run, dep, λ a. rw ff (count-offered _ r.start r.end a (free_frames s) refl))
  | inr reserved ↦ rw reserved (s, refl, omega arith, λ a. omega arith)
]

-- The boot loop walks every region of the memory map to its end, and then each frame is free as
-- often as it was before and once more for each region of type 1 that has it among the addresses
-- `start`, `start + 4096`, … up to and including `end` that lie above the reserved ones; so the
-- frame at the end of a region, which is not part of it, is freed too. Each region ends at least
-- 4096 below 2 ^ 64, and the 32-bit depth of the stack does not wrap.
pub mark_regions-count :
    (rs : List Region) (s : Pmm)
    → All Fits rs
    → s.esp + total_frames rs < 2 ^ 32
    → (t : Pmm) × (mark_regions rs s ≡ some t)
      × ((a : ℕ) → count a (free_frames t) ≡ count a (free_frames s) + promised rs a)
unfolding mark_regions promised
mark_regions-count [] s w d = (s, refl, λ a. omega arith)
mark_regions-count (r ∷ rs) s w d =
    let (t, run, dep, got) = mark_region-count r s w.0 (omega arith) in
    let (u, run', got') = mark_regions-count rs t w.1 (omega arith) in
    (u, rw (run, mark_regions) run', λ a. omega (arith, got' a, got a))
