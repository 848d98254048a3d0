-- ===== src/Pmm/Conserve.antt =====
-- pmm.c among clients that give back only what they hold: no frame is lost or handed out twice.
use smpl_osv.Base.{
  ℕ, zero, suc, ◌+◌, ◌^◌, ◌<◌, ◌≡◌, refl, ap, ◌∙◌, List, [], ◌∷◌, arith, length, ◌==◌,
  if◌then◌else◌,
}
use smpl_osv.Pmm.{Pmm, falloc, ffree, free_frames, entries}
use smpl_osv.Pmm.Refine.{free_frames-ffree, falloc-free_frames, falloc-esp, ffree-esp}

unfoldable pub count : ℕ → List ℕ → ℕ
count a [] = 0
count a (f ∷ fs) = (if f == a then 1 else 0) + count a fs

-- The allocator, and the frames that its clients hold.
pub record System : Type 0 where
  pub pmm : Pmm
  pub held : List ℕ

-- The list without the first occurrence of the frame.
unfoldable pub remove : ℕ → List ℕ → List ℕ
remove a [] = []
remove a (f ∷ fs) = if f == a then fs else f ∷ remove a fs

-- A client takes a frame while there is one, or gives back a frame that it holds.
pub data Step : System → System → Type 0 where
  take :
      (s : System)
      → 0 < s.pmm.esp
      → Step s (record { pmm = (falloc s.pmm).1; held = (falloc s.pmm).0 ∷ s.held })
  give :
      (s : System) (f : ℕ)
      → 0 < count f s.held
      → Step s (record { pmm = ffree f s.pmm; held = remove f s.held })

pub data Reach (s : System) : System → Type 0 where
  here : Reach s s
  next : {t u : System} → Reach s t → Step t u → Reach s u

-- How often a frame stands among the free and the held ones, and how many there are.
abbrev pub copies : System → ℕ → ℕ
copies s a = count a s.held + count a (free_frames s.pmm)

abbrev pub population : System → ℕ
population s = length s.held + s.pmm.esp

count-remove :
    (a f : ℕ) (fs : List ℕ)
    → 0 < count f fs
    → count a fs ≡ (if f == a then 1 else 0) + count a (remove f fs)
unfolding count remove
count-remove a f [] h = absurd (omega arith)
count-remove a f (g ∷ fs) h = ground (arith, count-remove a f fs)

length-remove : (f : ℕ) (fs : List ℕ) → 0 < count f fs → length fs ≡ suc (length (remove f fs))
unfolding count remove
length-remove f [] h = absurd (omega arith)
length-remove f (g ∷ fs) h = ground (arith, length-remove f fs)

entries-pop :
    (s : Pmm) → 0 < s.esp → s.esp < 2 ^ 32 → free_frames s ≡ (falloc s).0 ∷ free_frames (falloc s).1
entries-pop s p h = go s.esp refl
  where
    go : (n : ℕ) → s.esp ≡ n → free_frames s ≡ (falloc s).0 ∷ free_frames (falloc s).1
    go zero e = absurd (omega arith)
    go (suc n) e =
        let shape : free_frames s ≡ s.stack n ∷ entries s.stack n = ap (entries s.stack) e in
        let (top, rest) = falloc-free_frames s (s.stack n) (entries s.stack n) h shape in cc

-- Both steps keep the number of copies of each frame and the population.
Step-copies :
    {s t : System} (a : ℕ)
    → Step s t
    → population s < 2 ^ 32
    → (copies t a ≡ copies s a) × (population t ≡ population s)
unfolding count
Step-copies a (take s p) w = (
  rw (entries-pop s.pmm p (omega arith)) (omega arith),
  omega (arith, falloc-esp s.pmm p (omega arith)),
)
Step-copies a (give s f held) w =
    let left = length-remove f s.held held in
    let room : s.pmm.esp + 1 < 2 ^ 32 = omega (arith, left) in
    (
      rw (free_frames-ffree f s.pmm room) (omega (arith, count-remove a f s.held held)),
      omega (arith, ffree-esp f s.pmm room),
    )

-- Along any sequence of such steps each frame has as many copies, free and held together, as at
-- the start, so one that was on the stack once is never with two clients or both held and free;
-- and no frame is lost. The frames are fewer than 2 ^ 32.
pub Reach-copies :
    {s t : System}
    → Reach s t
    → population s < 2 ^ 32
    → ((a : ℕ) → copies t a ≡ copies s a) × (population t ≡ population s)
Reach-copies here w = (λ a. refl, refl)
Reach-copies (next r st) w =
    let (same, pop) = Reach-copies r w in
    let last = λ (a : ℕ). Step-copies a st (omega arith) in
    (λ a. (last a).0 ∙ same a, (last 0).1 ∙ pop)
