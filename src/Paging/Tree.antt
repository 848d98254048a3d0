-- ===== src/Paging/Tree.antt =====
-- The tables in use form a tree of four levels, apart from the recursive entry, and each step of
-- `mapf` keeps it one.
use smpl_osv.Base.{
  ℕ, zero, suc, ◌*◌, ◌^◌, ◌<◌, ◌≤◌, ◌≡◌, ◌≢◌, ◌⊎◌, inl, inr, ap, ◌∙◌, sym, arith, some, true,
  Bool-cases, ◌==◌, ==_iff, update,
}
use mathlib.Core.Path.{subst, ap₂}
use smpl_osv.Pmm.{Pmm, falloc}
use smpl_osv.Mmu.{Frames, follow, store, store_self, store-index, store-frame}
use smpl_osv.Paging.{Paging, is_present}

-- A table of level `suc n` leads to tables of level `n`; what is no table has level 0, and mapped
-- pages are not looked at.
pub record IsTree (level : ℕ → ℕ) (s : Paging) : Type 0 where
  pub same_top : s.current ≡ s.cr3
  pub top_level : level s.cr3 ≡ 4
  pub recursive : follow (s.frames s.cr3 511) ≡ some s.cr3
  pub words : (f i : ℕ) → s.frames f i < 2 ^ 64
  pub down :
      (n f i : ℕ)
      → 1 ≤ n
      → level f ≡ suc n
      → i < 512
      → (f ≢ s.cr3) ⊎ (i ≢ 511)
      → is_present (s.frames f i) ≡ true
      → (g : ℕ) × (follow (s.frames f i) ≡ some g) × (level g ≡ n)

-- The next `k` frames that `falloc` returns are whole frames, none of them a table.
abbrev pub Fresh : (ℕ → ℕ) → Pmm → ℕ → Type 0
Fresh level pmm zero = Unit
Fresh level pmm (suc k) =
    (g : ℕ) × ((falloc pmm).0 ≡ g * 2 ^ 12)
    × (g < 2 ^ 40)
    × (level g ≡ 0)
    × ((n : ℕ) → Fresh (update level g n) (falloc pmm).1 k)

pub Fresh-less : (k : ℕ) (level : ℕ → ℕ) (pmm : Pmm) → Fresh level pmm (suc k) → Fresh level pmm k
Fresh-less zero level pmm f = tt
Fresh-less (suc k) level pmm (g, at, l, free, rest) =
    (g, at, l, free, λ n. Fresh-less k (update level g n) (falloc pmm).1 (rest n))

-- What `ensure` leaves for the entry `i` of table `f`: a table `g` of level `n` behind it, and all
-- other entries of tables as they were.
pub record Ensured (level : ℕ → ℕ) (s : Paging) (f i n k : ℕ) (level' : ℕ → ℕ) (s' : Paging) (g : ℕ)
    : Type 0 where
  pub tree : IsTree level' s'
  pub link : follow (s'.frames f i) ≡ some g
  pub child : level' g ≡ n
  pub top : s'.cr3 ≡ s.cr3
  pub fresh : Fresh level' s'.pmm k
  pub levels : (x : ℕ) → level x ≢ 0 → level' x ≡ level x
  pub others : (x j : ℕ) → level x ≢ 0 → (x ≢ f) ⊎ (j ≢ i) → s'.frames x j ≡ s.frames x j

pub store-other : (f i v : ℕ) (m : Frames) (x j : ℕ) → (x ≢ f) ⊎ (j ≢ i) → store f i v m x j ≡ m x j
store-other f i v m x j (inl ne) = store-frame f i v m x j ne
store-other f i v m x j (inr ne) = store-index f i v m x j ne

pub same_or_other : (x f j i : ℕ) → ((x ≡ f) × (j ≡ i)) ⊎ ((x ≢ f) ⊎ (j ≢ i))
same_or_other x f j i = elim (Bool-cases (x == f)) [
  | inr a ↦ inr (inl (ground arith))
  | inl a ↦ elim (Bool-cases (j == i)) [
    | inl b ↦ inl ((==_iff x f).0 a, (==_iff j i).0 b)
    | inr b ↦ inr (inr (ground arith))
  ]
]

pub store-words :
    (f i v : ℕ) (m : Frames)
    → v < 2 ^ 64
    → ((x j : ℕ) → m x j < 2 ^ 64)
    → (x j : ℕ) → store f i v m x j < 2 ^ 64
store-words f i v m l all x j = elim (same_or_other x f j i) [
  | inl (e, d) ↦
      subst (λ w. w < 2 ^ 64) (sym (ap₂ (λ a b. store f i v m a b) e d ∙ store_self f i v m)) l
  | inr ne ↦ subst (λ w. w < 2 ^ 64) (sym (store-other f i v m x j ne)) (all x j)
]

-- A changed entry that leads to the same level as before, or to a new table, keeps the tree.
pub store-IsTree :
    (level : ℕ → ℕ) (s : Paging) (f i n v g : ℕ)
    → IsTree level s
    → level f ≡ suc n
    → (f ≢ s.cr3) ⊎ (i ≢ 511)
    → v < 2 ^ 64
    → follow v ≡ some g
    → level g ≡ n
    → IsTree level (record s { frames = store f i v s.frames })
store-IsTree level s f i n v g tree lev off l at child =
    let m = store f i v s.frames in
    let away : (s.cr3 ≢ f) ⊎ (511 ≢ i) = elim off [
      | inl a ↦ inl (λ e. a (sym e))
      | inr b ↦ inr (λ e. b (sym e))
    ] in
    record {
      same_top = tree.same_top;
      top_level = tree.top_level;
      recursive = ap follow (store-other f i v s.frames s.cr3 511 away) ∙ tree.recursive;
      words = store-words f i v s.frames l tree.words;
      down = λ n' x j pos lev' inside apart present. elim (same_or_other x f j i) [
        | inl (e, d) ↦
            let here = ap₂ (λ a b. store f i v s.frames a b) e d ∙ store_self f i v s.frames in
            let up : suc n ≡ suc n' = sym lev ∙ ap level (sym e) ∙ lev' in
            (g, ap follow here ∙ at, child ∙ omega (arith, up))
        | inr ne ↦
            let same = store-other f i v s.frames x j ne in
            let (g', to, low) =
              tree.down n' x j pos lev' inside apart (ap is_present (sym same) ∙ present) in
            (g', ap follow same ∙ to, low)
      ];
    }
