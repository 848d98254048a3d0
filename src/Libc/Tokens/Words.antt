-- ===== src/Libc/Tokens/Words.antt =====
-- The pieces of a string between delimiters, as lists.
use smpl_osv.Base.{
  ℕ, ◌+◌, ◌<◌, All, length-append, ◌≤◌, ◌≡◌, refl, sym, ◌∙◌, ◌⊎◌, inl, inr, List, [], ◌∷◌, ◌++◌,
  arith, length, take, drop, ◌==◌, false, Bool-cases, if◌then◌else◌,
}
use mathlib.Core.List.{append-nil, append_assoc}
use smpl_osv.Libc.Tokens.Spans.{leading, span}

abbrev pub close : List ℕ → List (List ℕ) → List (List ℕ)
close [] rest = rest
close (x ∷ xs) rest = (x ∷ xs) ∷ rest

-- The pieces between the delimiters that are not empty; `cur` is the piece that is being read.
abbrev pub split : ℕ → List ℕ → List ℕ → List (List ℕ)
split c cur [] = close cur []
split c cur (x ∷ xs) = if c == x then close cur (split c [] xs) else split c (cur ++ x ∷ []) xs

abbrev pub words : ℕ → List ℕ → List (List ℕ)
words c xs = split c [] xs

pub split-leading : (c : ℕ) (xs : List ℕ) → split c [] xs ≡ split c [] (drop (leading c xs) xs)
split-leading c [] = refl
split-leading c (x ∷ xs) = elim (Bool-cases (c == x)) [
  | inl e ↦ rw e (split-leading c xs)
  | inr e ↦ let s : split c [] (x ∷ xs) ≡ split c (x ∷ []) xs = rw e refl in rw e (sym s)
]

abbrev pub after : ℕ → List ℕ → List (List ℕ)
after c [] = []
after c (x ∷ xs) = split c [] xs

split-span :
    (c : ℕ) (cur xs : List ℕ)
    → split c cur xs ≡ close (cur ++ take (span c xs) xs) (after c (drop (span c xs) xs))
split-span c cur [] = rw (append-nil cur) refl
split-span c cur (x ∷ xs) = elim (Bool-cases (c == x)) [
  | inl e ↦ rw (e, append-nil cur) refl
  | inr e ↦
      rw e (
        split-span c (cur ++ x ∷ []) xs ∙ rw (append_assoc cur (x ∷ []) (take (span c xs) xs)) refl)
]

-- What is left behind the delimiters at the front: nothing, or a string that starts otherwise.
pub leading-cases :
    (c : ℕ) (xs : List ℕ)
    → (drop (leading c xs) xs ≡ [])
      ⊎ ((y : ℕ) × (ys : List ℕ) × (drop (leading c xs) xs ≡ y ∷ ys) × ((c == y) ≡ false))
leading-cases c [] = inl refl
leading-cases c (x ∷ xs) = elim (Bool-cases (c == x)) [
  | inl e ↦ rw e (leading-cases c xs)
  | inr e ↦ inr (x, xs, rw e refl, e)
]

pub span-le : (c : ℕ) (xs : List ℕ) → span c xs ≤ length xs
span-le c [] = omega arith
span-le c (x ∷ xs) = elim (Bool-cases (c == x)) [
  | inl e ↦ rw e (omega arith)
  | inr e ↦ rw e (omega (arith, span-le c xs))
]

pub leading-le : (c : ℕ) (xs : List ℕ) → leading c xs ≤ length xs
leading-le c [] = omega arith
leading-le c (x ∷ xs) = elim (Bool-cases (c == x)) [
  | inl e ↦ rw e (omega (arith, leading-le c xs))
  | inr e ↦ rw e (omega arith)
]

pub split_word :
    (c y : ℕ) (ys rest : List ℕ)
    → (c == y) ≡ false
    → drop (span c ys) ys ≡ rest
    → words c (y ∷ ys) ≡ (y ∷ take (span c ys) ys) ∷ after c rest
split_word c y ys rest e r = rw (e, split-span c (y ∷ []) ys, r) refl

close_short :
    (n : ℕ) (cur : List ℕ) (ws : List (List ℕ))
    → length cur < n
    → All (λ w. length w < n) ws
    → All (λ w. length w < n) (close cur ws) × (length (close cur ws) ≤ length cur + length ws)
close_short n [] ws l all = (all, omega arith)
close_short n (y ∷ ys) ws l all = ((l, all), omega arith)

-- A piece is no longer than the string, and there are no more pieces than bytes.
split-short :
    (c n : ℕ) (cur xs : List ℕ)
    → length cur + length xs < n
    → All (λ w. length w < n) (split c cur xs) × (length (split c cur xs) ≤ length cur + length xs)
split-short c n [] [] l = (tt, omega arith)
split-short c n (y ∷ ys) [] l = ((omega arith, tt), omega arith)
split-short c n cur (x ∷ xs) l = elim (Bool-cases (c == x)) [
  | inl e ↦
      let (all, few) = split-short c n [] xs (omega arith) in
      let (all', few') = close_short n cur (split c [] xs) (omega arith) all in
      rw e (all', omega (arith, few, few'))
  | inr e ↦
      let size = length-append cur (x ∷ []) in
      let (all, few) = split-short c n (cur ++ x ∷ []) xs (omega arith) in
      rw e (all, omega (arith, few))
]

pub words-short :
    (c : ℕ) (xs : List ℕ)
    → All (λ w. length w < length xs + 2) (words c xs) × (length (words c xs) ≤ length xs)
words-short c xs =
    let (all, few) = split-short c (length xs + 2) [] xs (omega arith) in (all, omega (arith, few))
