-- ===== src/Pmm/Refine.antt =====
-- The allocator of pmm.c against a list of free frames: last in, first out.
use smpl_osv.Base.{
  ℕ, zero, suc, ◌+◌, ◌-◌, ◌^◌, ◌≤◌, ◌<◌, ◌≡◌, refl, sym, ap, ◌∙◌, Option, none, some, inl, inr,
  Option-cases, List, [], ◌∷◌, arith, length, update, update_self, update_ne,
}
use smpl_osv.Base.Bits.{u32}
use smpl_osv.Pmm.{
  Pmm, falloc, ffree, pmm_mark_frame, entries, free_frames, Op, alloc, free, mark, run,
}

-- The promise: a call takes the frame that was given back last; `none` if there is none to take.
unfoldable pub lifo : List Op → List ℕ → Option (List ℕ × List ℕ)
lifo [] fs = some ([], fs)
lifo (alloc ∷ ops) [] = none
lifo (alloc ∷ ops) (f ∷ fs) =
    let rest = lifo ops fs in elim rest [ none ↦ none | some (out, gs) ↦ some (f ∷ out, gs) ]
lifo (free f ∷ ops) fs = lifo ops (f ∷ fs)
lifo (mark f ∷ ops) fs = lifo ops (f ∷ fs)

entries-update_above : (f : ℕ → ℕ) (i v n : ℕ) → n ≤ i → entries (update f i v) n ≡ entries f n
entries-update_above f i v zero h = refl
entries-update_above f i v (suc n) h =
    rw (update_ne f i v n (omega arith), entries-update_above f i v n (omega arith))

pub entries-push : (f : ℕ → ℕ) (n v m : ℕ) → m ≡ n + 1 → entries (update f n v) m ≡ v ∷ entries f n
entries-push f n v m e =
    let e' : m ≡ suc n = omega arith in
    rw e' (rw (update_self f n v, entries-update_above f n v n (omega arith)))

pub free_frames-ffree :
    (f : ℕ) (s : Pmm) → s.esp + 1 < 2 ^ 32 → free_frames (ffree f s) ≡ f ∷ free_frames s
unfolding ffree
free_frames-ffree f s h = entries-push s.stack s.esp f _ (omega arith)

pub free_frames-mark :
    (f : ℕ) (s : Pmm) → s.esp + 1 < 2 ^ 32 → free_frames (pmm_mark_frame f s) ≡ f ∷ free_frames s
unfolding pmm_mark_frame
free_frames-mark f s h = entries-push s.stack s.esp f _ (omega arith)

take_top :
    (g : ℕ → ℕ) (n f : ℕ) (fs : List ℕ)
    → n < 2 ^ 32
    → entries g n ≡ f ∷ fs
    → (g (u32 (n + 2 ^ 32 - 1)) ≡ f) × (entries g (u32 (n + 2 ^ 32 - 1)) ≡ fs)
take_top g zero f fs h e = absurd (cc)
take_top g (suc n) f fs h e =
    let top : u32 (suc n + 2 ^ 32 - 1) ≡ n = omega arith in rw top (cc, cc)

pub falloc-free_frames :
    (s : Pmm) (f : ℕ) (fs : List ℕ)
    → s.esp < 2 ^ 32
    → free_frames s ≡ f ∷ fs
    → ((falloc s).0 ≡ f) × (free_frames (falloc s).1 ≡ fs)
unfolding falloc
falloc-free_frames s f fs h e = take_top s.stack s.esp f fs h e

length-entries : (g : ℕ → ℕ) (n : ℕ) → length (entries g n) ≡ n
length-entries g zero = refl
length-entries g (suc n) = ap suc (length-entries g n)

-- The depth of the stack is the number of free frames.
pub esp-free_frames : (s : Pmm) (fs : List ℕ) → free_frames s ≡ fs → s.esp ≡ length fs
esp-free_frames s fs e = sym (length-entries s.stack s.esp) ∙ ap length e

lifo-alloc :
    (ops : List Op) (f : ℕ) (fs out gs : List ℕ)
    → lifo (alloc ∷ ops) (f ∷ fs) ≡ some (out, gs)
    → (rest : List ℕ) × (out ≡ f ∷ rest) × (lifo ops fs ≡ some (rest, gs))
unfolding lifo
lifo-alloc ops f fs out gs r = elim (Option-cases (lifo ops fs)) [
  | inl z ↦ absurd (ground arith)
  | inr ((rest, gs'), z) ↦ (rest, ground arith, ground arith)
]

pub falloc-esp : (s : Pmm) → 0 < s.esp → s.esp < 2 ^ 32 → (falloc s).1.esp + 1 ≡ s.esp
unfolding falloc
falloc-esp s p h = omega arith

pub ffree-esp : (f : ℕ) (s : Pmm) → s.esp + 1 < 2 ^ 32 → (ffree f s).esp ≡ s.esp + 1
unfolding ffree
ffree-esp f s h = omega arith

pub mark-esp : (f : ℕ) (s : Pmm) → s.esp + 1 < 2 ^ 32 → (pmm_mark_frame f s).esp ≡ s.esp + 1
unfolding pmm_mark_frame
mark-esp f s h = omega arith

-- Whatever the calls, as long as the promise can be kept and the 32-bit depth does not wrap,
-- pmm.c returns the frames that the list returns, in the same order, and ends with its free frames.
pub run-lifo :
    (ops : List Op) (s : Pmm) (fs out gs : List ℕ)
    → s.esp + length ops < 2 ^ 32
    → free_frames s ≡ fs
    → lifo ops fs ≡ some (out, gs)
    → ((run ops s).0 ≡ out) × (free_frames (run ops s).1 ≡ gs)
unfolding run lifo
run-lifo [] s fs out gs h e r = (cc, cc)
run-lifo (alloc ∷ ops) s [] out gs h e r = absurd (cc)
run-lifo (alloc ∷ ops) s (f ∷ fs) out gs h e r =
    let (rest, shape, r') = lifo-alloc ops f fs out gs r in
    let taken = falloc-free_frames s f fs (omega arith) e in
    let depth : 0 < s.esp = omega (arith, esp-free_frames s (f ∷ fs) e) in
    let ih = run-lifo ops (falloc s).1 fs rest gs (omega (arith, falloc-esp s depth)) taken.1 r' in
    (cc, ih.1)
run-lifo (free f ∷ ops) s fs out gs h e r =
    run-lifo ops (ffree f s) (f ∷ fs) out gs (omega (arith, ffree-esp f s))
      (free_frames-ffree f s (omega arith) ∙ ap (◌∷◌ f) e) r
run-lifo (mark f ∷ ops) s fs out gs h e r =
    run-lifo ops (pmm_mark_frame f s) (f ∷ fs) out gs (omega (arith, mark-esp f s))
      (free_frames-mark f s (omega arith) ∙ ap (◌∷◌ f) e) r
