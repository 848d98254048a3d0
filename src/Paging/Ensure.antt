-- ===== src/Paging/Ensure.antt =====
-- Each of the three upper steps of `mapf` leaves a table behind the entry and keeps the tree.
use smpl_osv.Base.{
  ℕ, suc, ◌*◌, ◌^◌, ◌<◌, ◌≤◌, ◌≡◌, ◌≢◌, ◌⊎◌, inl, inr, refl, ap, ◌∙◌, sym, arith, bit_and, bit_or,
  some, true, false, Bool-cases, ◌==◌, ==_iff, update, update_self, update_ne, if◌then◌else◌, ltb,
  lt→ltb,
}
use mathlib.Core.Path.{subst, ap₂}
use smpl_osv.Pmm.{falloc}
use smpl_osv.Mmu.{follow, store, store_self}
use smpl_osv.Paging.Entries.{new_entry, kept_entry}
use smpl_osv.Paging.Tree.{
  IsTree, Fresh, Fresh-less, Ensured, store-other, store-words, same_or_other, store-IsTree,
}
use smpl_osv.Paging.{Paging, locate, is_present, ensure}

module _ (level : ℕ → ℕ) (s : Paging) (f i n k window flags : ℕ) (tree : IsTree level s)
    (pos : 1 ≤ n) (lev : level f ≡ suc n) (inside : i < 512) (off : (f ≢ s.cr3) ⊎ (i ≢ 511))
    (few : flags < 2 ^ 12) where
  abbrev kept : ℕ
  kept = bit_or (bit_and (s.frames f i) 0xFFFFFFFFFFFFF001) flags

  ensure-present :
      is_present (s.frames f i) ≡ true
      → ensure (f, i) window flags s ≡ some (record s { frames = store f i kept s.frames })
  unfolding ensure
  ensure-present e = rw e refl

  ensure_kept :
      is_present (s.frames f i) ≡ true
      → Fresh level s.pmm (suc k)
      → (g : ℕ) × Ensured level s f i n k level (record s { frames = store f i kept s.frames }) g
  ensure_kept e fresh =
      let (g, at, low) = tree.down n f i pos lev inside off e in
      let (to, fits) = kept_entry (s.frames f i) g flags (tree.words f i) few at in
      (
        g,
        record {
          tree = store-IsTree level s f i n kept g tree lev off fits to low;
          link = ap follow (store_self f i kept s.frames) ∙ to;
          child = low;
          top = refl;
          fresh = Fresh-less k level s.pmm fresh;
          levels = λ x ne. refl;
          others = λ x j ne apart. store-other f i kept s.frames x j apart;
        },
      )

  -- A frame that is no table, cleared and put behind the entry.
  abbrev fresh_word : ℕ
  fresh_word = bit_or (bit_or (falloc s.pmm).0 1) flags

  abbrev linked : Paging
  linked = record s { frames = store f i fresh_word s.frames; pmm = (falloc s.pmm).1 }

  abbrev cleared : ℕ → Paging
  cleared g = record linked {
    frames = update linked.frames g (λ j. if ltb j 512 then 0 else linked.frames g j);
  }

  ensure-absent :
      (g : ℕ)
      → is_present (s.frames f i) ≡ false
      → locate linked window ≡ some (g, 0)
      → ensure (f, i) window flags s ≡ some (cleared g)
  unfolding ensure
  ensure-absent g e at = rw (e, at) refl

  cleared_ne : (g x j : ℕ) → x ≢ g → (cleared g).frames x j ≡ linked.frames x j
  cleared_ne g x j ne =
      ap (λ (r : ℕ → ℕ). r j)
        (update_ne linked.frames g (λ j. if ltb j 512 then 0 else linked.frames g j) x ne)

  cleared_self : (g j : ℕ) → j < 512 → (cleared g).frames g j ≡ 0
  cleared_self g j l =
      ap (λ (r : ℕ → ℕ). r j)
        (update_self linked.frames g (λ j. if ltb j 512 then 0 else linked.frames g j))
      ∙ rw (lt→ltb j 512 l) refl

  linked-words : fresh_word < 2 ^ 64 → (x j : ℕ) → linked.frames x j < 2 ^ 64
  linked-words l = store-words f i fresh_word s.frames l tree.words

  cleared-words : (g : ℕ) → fresh_word < 2 ^ 64 → (x j : ℕ) → (cleared g).frames x j < 2 ^ 64
  unfolding update
  cleared-words g l x j = ground (arith, linked-words l x j, linked-words l g j)

  raised : (g x : ℕ) → level g ≡ 0 → level x ≢ 0 → update level g n x ≡ level x
  raised g x free used = update_ne level g n x (λ e. used (ap level e ∙ free))

  cleared-IsTree :
      (g : ℕ)
      → level g ≡ 0
      → follow fresh_word ≡ some g
      → fresh_word < 2 ^ 64
      → IsTree (update level g n) (cleared g)
  cleared-IsTree g free to fits =
      let used = λ (x : ℕ) (u : level x ≢ 0). λ (e : x ≡ g). u (ap level e ∙ free) in
      let top_used : level s.cr3 ≢ 0 = omega (arith, tree.top_level) in
      let away : (s.cr3 ≢ f) ⊎ (511 ≢ i) = elim off [
        | inl a ↦ inl (λ e. a (sym e))
        | inr b ↦ inr (λ e. b (sym e))
      ] in
      record {
        same_top = tree.same_top;
        top_level = raised g s.cr3 free top_used ∙ tree.top_level;
        recursive =
            ap follow (
              cleared_ne g s.cr3 511 (used s.cr3 top_used)
              ∙ store-other f i fresh_word s.frames s.cr3 511 away)
            ∙ tree.recursive;
        words = cleared-words g fits;
        down = λ n' x j above lev' low apart present. elim (Bool-cases (x == g)) [
          | inl e ↦
              let here = (==_iff x g).0 e in
              let empty = ap (λ a. (cleared g).frames a j) here ∙ cleared_self g j low in
              let no : false ≡ true = sym (ap is_present empty) ∙ present in cc
          | inr e ↦
              let ne : x ≢ g = ground arith in
              let old : level x ≡ suc n' = sym (update_ne level g n x ne) ∙ lev' in
              let same = cleared_ne g x j ne in
              elim (same_or_other x f j i) [
                | inl (a, b) ↦
                    let entry =
                      same
                      ∙ ap₂ (λ y z. linked.frames y z) a b
                      ∙ store_self f i fresh_word s.frames in
                    let up : suc n ≡ suc n' = sym lev ∙ ap level (sym a) ∙ old in
                    (g, ap follow entry ∙ to, update_self level g n ∙ omega (arith, up))
                | inr other ↦
                    let entry = same ∙ store-other f i fresh_word s.frames x j other in
                    let (g', at, lower) =
                      tree.down n' x j above old low apart (ap is_present (sym entry) ∙ present) in
                    (g', ap follow entry ∙ at, raised g g' free (omega (arith, lower)) ∙ lower)
              ]
        ];
      }

  ensure_fresh :
      (g : ℕ)
      → (falloc s.pmm).0 ≡ g * 2 ^ 12
      → g < 2 ^ 40
      → level g ≡ 0
      → Fresh (update level g n) (falloc s.pmm).1 k
      → Ensured level s f i n k (update level g n) (cleared g) g
  ensure_fresh g at l free rest =
      let (to, fits) =
        subst
          (λ a.
            (follow (bit_or (bit_or a 1) flags) ≡ some g) × (bit_or (bit_or a 1) flags < 2 ^ 64))
          (sym at) (new_entry g flags l few) in
      let table : f ≢ g = λ e. absurd (omega (arith, lev, ap level e, free)) in
      record {
        tree = cleared-IsTree g free to fits;
        link = ap follow (cleared_ne g f i table ∙ store_self f i fresh_word s.frames) ∙ to;
        child = update_self level g n;
        top = refl;
        fresh = rest;
        levels = λ x used. raised g x free used;
        others = λ x j used apart.
            cleared_ne g x j (λ e. used (ap level e ∙ free))
            ∙ store-other f i fresh_word s.frames x j apart;
      }

  -- The window opens on the table behind the entry wherever the other entries of tables are as they
  -- were.
  abbrev Window : Type 0
  Window =
      (s1 : Paging) (g : ℕ)
      → s1.cr3 ≡ s.cr3
      → ((x j : ℕ) → level x ≢ 0 → (x ≢ f) ⊎ (j ≢ i) → s1.frames x j ≡ s.frames x j)
      → follow (s1.frames f i) ≡ some g
      → locate s1 window ≡ some (g, 0)

  pub ensure-Ensured :
      Fresh level s.pmm (suc k)
      → Window
      → (level' : ℕ → ℕ) × (s' : Paging) × (g : ℕ) × (ensure (f, i) window flags s ≡ some s')
        × Ensured level s f i n k level' s' g
  ensure-Ensured fresh opens = elim (Bool-cases (is_present (s.frames f i))) [
    | inl e ↦
        let (g, done) = ensure_kept e fresh in
        (level, record s { frames = store f i kept s.frames }, g, ensure-present e, done)
    | inr e ↦
        let (g, at, l, free, rest) = fresh in
        let done = ensure_fresh g at l free (rest n) in
        let to : follow (linked.frames f i) ≡ some g =
          ap follow (store_self f i fresh_word s.frames)
          ∙ ap (λ a. follow (bit_or (bit_or a 1) flags)) at
          ∙ (new_entry g flags l few).0 in
        let found =
          opens linked g refl (λ x j used apart. store-other f i fresh_word s.frames x j apart)
            to in
        (update level g n, cleared g, g, ensure-absent g e found, done)
  ]
