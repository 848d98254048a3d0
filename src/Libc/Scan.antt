-- ===== src/Libc/Scan.antt =====
-- What the routines of string.c that only read return: `strlen` and `strcmp`.
use smpl_osv.Base.{
  ℕ, zero, suc, ◌+◌, ◌<◌, ◌≡◌, refl, sym, ap, ◌∙◌, ◌↔◌, List, [], ◌∷◌, arith, length, ◌==◌, some,
  Bool, true, ==_refl, ==_ne, ==_iff, Bool-cases, inl, inr, if◌then◌else◌,
}
use smpl_osv.Base.Int.{ℤ, pos, negsuc, sub_ℕ, sub_ℕ-eq-zero_iff}
use mathlib.Core.Path.{subst}
use smpl_osv.Libc.Cstr.{IsCstr, IsCstr_move}
use smpl_osv.Libc.{Bytes, strlen_from, strlen, strcmp, is_zero, same_string, string_eq}

strlen_from_lem :
    (fuel str size : ℕ) (xs : List ℕ) (m : Bytes)
    → length xs < fuel
    → IsCstr m (str + size) xs
    → strlen_from fuel str size m ≡ some (size + length xs)
unfolding strlen_from
strlen_from_lem zero str size xs m f s = ground arith
strlen_from_lem (suc fuel) str size [] m f s = rw s (ap some (omega arith))
strlen_from_lem (suc fuel) str size (x ∷ xs) m f (here, ne, rest) =
    rw (here, ==_ne x 0 ne)
      (strlen_from_lem fuel str (size + 1) xs m (omega arith)
          (IsCstr_move m _ _ xs (omega arith) rest)
        ∙ ap some (omega arith))

-- The difference of the first two bytes that differ, a string's end counting as a zero byte.
abbrev pub compare_strings : List ℕ → List ℕ → ℤ
compare_strings [] [] = pos 0
compare_strings [] (y ∷ ys) = sub_ℕ 0 y
compare_strings (x ∷ xs) [] = sub_ℕ x 0
compare_strings (x ∷ xs) (y ∷ ys) = if x == y then compare_strings xs ys else sub_ℕ x y

strcmp-compare :
    (fuel s1 s2 : ℕ) (xs ys : List ℕ) (m : Bytes)
    → length xs < fuel
    → IsCstr m s1 xs
    → IsCstr m s2 ys
    → strcmp fuel s1 s2 m ≡ some (compare_strings xs ys)
unfolding strcmp
strcmp-compare zero s1 s2 xs ys m f p q = ground arith
strcmp-compare (suc fuel) s1 s2 [] [] m f p q = rw (p, q) refl
strcmp-compare (suc fuel) s1 s2 [] (y ∷ ys) m f p (q, ne, qs) = rw (p, q) refl
strcmp-compare (suc fuel) s1 s2 (x ∷ xs) [] m f (p, nx, ps) q = rw (p, q, ==_ne x 0 nx) refl
strcmp-compare (suc fuel) s1 s2 (x ∷ xs) (y ∷ ys) m f (p, nx, ps) (q, ny, qs) =
    elim (Bool-cases (x == y)) [
      | inl e ↦
          rw (p, q, ==_ne x 0 nx, e)
            (strcmp-compare fuel (s1 + 1) (s2 + 1) xs ys m (omega arith) ps qs)
      | inr e ↦ rw (p, q, ==_ne x 0 nx, e) refl
    ]

compare_strings-zero :
    (xs ys : List ℕ) (m : Bytes) (p q : ℕ)
    → IsCstr m p xs
    → IsCstr m q ys
    → compare_strings xs ys ≡ pos 0
    → xs ≡ ys
compare_strings-zero [] [] m p q s t e = refl
compare_strings-zero [] (y ∷ ys) m p q s (t, ny, ts) e = ground (arith, sub_ℕ-eq-zero_iff 0 y)
compare_strings-zero (x ∷ xs) [] m p q (s, nx, ss) t e = ground (arith, sub_ℕ-eq-zero_iff x 0)
compare_strings-zero (x ∷ xs) (y ∷ ys) m p q (s, nx, ss) (t, ny, ts) e =
    elim (Bool-cases (x == y)) [
      | inl h ↦
          let same = (==_iff x y).0 h in
          let r : compare_strings (x ∷ xs) (y ∷ ys) ≡ compare_strings xs ys = rw h refl in
          let tail = compare_strings-zero xs ys m (p + 1) (q + 1) ss ts (sym r ∙ e) in
          ap (λ z. z ∷ xs) same ∙ ap (λ zs. y ∷ zs) tail
      | inr h ↦
          let r : compare_strings (x ∷ xs) (y ∷ ys) ≡ sub_ℕ x y = rw h refl in
          let same = (sub_ℕ-eq-zero_iff x y).0 (sym r ∙ e) in ground arith
    ]

compare_strings_self : (xs : List ℕ) → compare_strings xs xs ≡ pos 0
compare_strings_self [] = refl
compare_strings_self (x ∷ xs) = rw (==_refl x) (compare_strings_self xs)

-- On strings, with fuel for the first, `strcmp` returns the difference of the first two bytes that
-- differ, the terminator counting as a zero byte, and it returns 0 exactly when the strings are
-- equal.
pub strcmp-equal :
    (fuel s1 s2 : ℕ) (xs ys : List ℕ) (m : Bytes)
    → length xs < fuel
    → IsCstr m s1 xs
    → IsCstr m s2 ys
    → (strcmp fuel s1 s2 m ≡ some (compare_strings xs ys))
      × ((compare_strings xs ys ≡ pos 0) ↔ (xs ≡ ys))
strcmp-equal fuel s1 s2 xs ys m f p q = (
  strcmp-compare fuel s1 s2 xs ys m f p q,
  (
    compare_strings-zero xs ys m s1 s2 p q,
    λ e. subst (λ zs. compare_strings xs zs ≡ pos 0) e (compare_strings_self xs),
  ),
)

pub is_zero_iff : (z : ℤ) → (is_zero z ≡ true) ↔ (z ≡ pos 0)
is_zero_iff (pos zero) = (λ e. refl, λ e. refl)
is_zero_iff (pos (suc n)) = (λ e. cc, λ e. cc)
is_zero_iff (negsuc n) = (λ e. cc, λ e. cc)

-- The test of the callers, `!strcmp`.
pub same_string-equal :
    (fuel a b : ℕ) (xs ys : List ℕ) (m : Bytes)
    → length xs < fuel
    → IsCstr m a xs
    → IsCstr m b ys
    → (r : Bool) × (same_string fuel a b m ≡ some r) × ((r ≡ true) ↔ (xs ≡ ys))
same_string-equal fuel a b xs ys m f p q =
    let (run, equal) = strcmp-equal fuel a b xs ys m f p q in
    let z = compare_strings xs ys in
    (
      is_zero z,
      rw run refl,
      (λ e. equal.0 ((is_zero_iff z).0 e), λ e. (is_zero_iff z).1 (equal.1 e)),
    )

-- With fuel for the string, `strlen` returns the number of bytes before the terminator.
pub strlen-length :
    (fuel str : ℕ) (xs : List ℕ) (m : Bytes)
    → length xs < fuel
    → IsCstr m str xs
    → strlen fuel str m ≡ some (length xs)
unfolding strlen
strlen-length fuel str xs m f s =
    strlen_from_lem fuel str 0 xs m f (IsCstr_move m str (str + 0) xs (omega arith) s)
    ∙ ap some (omega arith)

pub string_eq_refl : (xs : List ℕ) → string_eq xs xs ≡ true
string_eq_refl [] = refl
string_eq_refl (x ∷ xs) = rw (==_refl x, string_eq_refl xs) refl

pub string_eq-eq : (xs ys : List ℕ) → string_eq xs ys ≡ true → xs ≡ ys
string_eq-eq [] [] h = refl
string_eq-eq [] (y ∷ ys) h = ground arith
string_eq-eq (x ∷ xs) [] h = ground arith
string_eq-eq (x ∷ xs) (y ∷ ys) h = ground (arith, string_eq-eq xs ys)

pub string_eq_iff : (xs ys : List ℕ) → (string_eq xs ys ≡ true) ↔ (xs ≡ ys)
string_eq_iff xs ys =
    (string_eq-eq xs ys, λ e. subst (λ zs. string_eq xs zs ≡ true) e (string_eq_refl xs))
