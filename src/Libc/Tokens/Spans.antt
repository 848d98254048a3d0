-- ===== src/Libc/Tokens/Spans.antt =====
-- `strspn` and `strcspn` of string.c for a set of one byte.
use smpl_osv.Base.{
  ℕ, zero, suc, ◌+◌, ◌%◌, ◌^◌, ◌<◌, ◌≡◌, refl, ap, ◌∙◌, ◌≢◌, inl, inr, List, [], ◌∷◌, arith, length,
  ◌==◌, some, ==_ne, Bool-cases, if◌then◌else◌,
}
use smpl_osv.Libc.Cstr.{IsCstr}
use smpl_osv.Libc.{Bytes, among, strspn_from, strspn, strchr, strcspn_from, strcspn}

-- How many bytes at the front are the delimiter, and how many are not.
abbrev pub leading : ℕ → List ℕ → ℕ
leading c [] = 0
leading c (x ∷ xs) = if c == x then suc (leading c xs) else 0

abbrev pub span : ℕ → List ℕ → ℕ
span c [] = 0
span c (x ∷ xs) = if c == x then 0 else suc (span c xs)

module _ (m : Bytes) (d c : ℕ) (delim : IsCstr m d (c ∷ [])) where
  among_one : (fuel x : ℕ) → among (suc (suc fuel)) d x m ≡ some (c == x)
  unfolding among
  among_one fuel x = elim (Bool-cases (c == x)) [
    | inl e ↦ rw (delim.0, ==_ne c 0 delim.1, e) refl
    | inr e ↦ rw (delim.0, ==_ne c 0 delim.1, delim.2, e) refl
  ]

  strchr_one : (fuel x : ℕ) → x ≢ 0 → strchr (suc (suc fuel)) d x m ≡ some (if c == x then d else 0)
  unfolding strchr
  strchr_one fuel x ne = elim (Bool-cases (c == x)) [
    | inl e ↦ rw (delim.0, e) refl
    | inr e ↦ rw (delim.0, ==_ne c 0 delim.1, delim.2, e, ==_ne 0 x (λ z. ne (omega arith))) refl
  ]

  strspn_from_lem :
      (fuel n p : ℕ) (xs : List ℕ)
      → length xs < fuel
      → IsCstr m p xs
      → strspn_from (suc fuel) n p d m ≡ some (n + leading c xs)
  unfolding strspn_from
  strspn_from_lem zero n p xs f s = ground arith
  strspn_from_lem (suc fuel) n p [] f s = rw s (ap some (omega arith))
  strspn_from_lem (suc fuel) n p (x ∷ xs) f (here, ne, rest) = elim (Bool-cases (c == x)) [
    | inl e ↦
        rw (here, ==_ne x 0 ne, among_one fuel x, e)
          (strspn_from_lem fuel (n + 1) (p + 1) xs (omega arith) rest ∙ ap some (omega arith))
    | inr e ↦ rw (here, ==_ne x 0 ne, among_one fuel x, e) (ap some (omega arith))
  ]

  pub strspn-leading :
      (fuel p : ℕ) (xs : List ℕ)
      → suc (length xs) < fuel
      → IsCstr m p xs
      → strspn fuel p d m ≡ some (leading c xs)
  unfolding strspn
  strspn-leading zero p xs f s = ground arith
  strspn-leading (suc fuel) p xs f s =
      strspn_from_lem fuel 0 p xs (omega arith) s ∙ ap some (omega arith)

  strcspn_from_lem :
      (fuel n p : ℕ) (xs : List ℕ)
      → length xs < fuel
      → n + length xs < 2 ^ 32
      → d ≢ 0
      → IsCstr m p xs
      → strcspn_from (suc fuel) n p d m ≡ some (n + span c xs)
  unfolding strcspn_from
  strcspn_from_lem zero n p xs f w nz s = ground arith
  strcspn_from_lem (suc fuel) n p [] f w nz s = rw s (ap some (omega arith))
  strcspn_from_lem (suc fuel) n p (x ∷ xs) f w nz (here, ne, rest) = elim (Bool-cases (c == x)) [
    | inl e ↦ rw (here, ==_ne x 0 ne, strchr_one fuel x ne, e, ==_ne d 0 nz) (ap some (omega arith))
    | inr e ↦
        let step : (n + 1) % 2 ^ 32 ≡ n + 1 = omega arith in
        rw (here, ==_ne x 0 ne, strchr_one fuel x ne, e, step)
          (strcspn_from_lem fuel (n + 1) (p + 1) xs (omega arith) (omega arith) nz rest
            ∙ ap some (omega arith))
  ]

  pub strcspn-span :
      (fuel p : ℕ) (xs : List ℕ)
      → suc (length xs) < fuel
      → length xs < 2 ^ 32
      → d ≢ 0
      → p ≢ 0
      → IsCstr m p xs
      → strcspn fuel p d m ≡ some (span c xs)
  unfolding strcspn
  strcspn-span zero p xs f w nz np s = ground arith
  strcspn-span (suc fuel) p xs f w nz np s =
      rw (==_ne p 0 np, ==_ne d 0 nz)
        (strcspn_from_lem fuel 0 p xs (omega arith) (omega arith) nz s ∙ ap some (omega arith))
