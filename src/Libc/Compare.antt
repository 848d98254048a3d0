-- ===== src/Libc/Compare.antt =====
-- `strncmp` of string.c on strings.
use smpl_osv.Base.{
  ℕ, zero, suc, ◌+◌, ◌%◌, ◌<◌, ◌≡◌, refl, sym, ap, ◌∙◌, ◌≢◌, ◌↔◌, List, [], ◌∷◌, arith, take, ◌==◌,
  Bool, true, false, ==_ne, ==_iff, Bool-cases, inl, inr, ◌⊎◌,
}
use mathlib.Core.Path.{ap₂}
use smpl_osv.Base.Int.{ℤ, pos, sub_ℕ-eq-zero_iff}
use smpl_osv.Libc.Cstr.{IsCstr}
use smpl_osv.Libc.Scan.{is_zero_iff}
use smpl_osv.Libc.{Bytes, char_diff, is_zero, strncmp_from, strncmp}

-- Every cell holds a byte.
abbrev pub IsBytes : Bytes → Type 0
IsBytes m = (i : ℕ) → m i < 256

char_diff-zero : (a b : ℕ) → a < 256 → b < 256 → is_zero (char_diff a b) ≡ true → a ≡ b
char_diff-zero a b la lb e =
    let same = (sub_ℕ-eq-zero_iff ((a + 128) % 256) ((b + 128) % 256)).0 ((is_zero_iff _).0 e) in
    omega arith

char_diff_self : (a : ℕ) → char_diff a a ≡ pos 0
char_diff_self a = (sub_ℕ-eq-zero_iff _ _).1 refl

pub differ : {b : Bool} → b ≡ false → b ≢ true
differ e f = cc

strncmp_from-stop :
    (n : ℕ) (r : ℤ) (s1 s2 : ℕ) (m : Bytes) → is_zero r ≡ false → strncmp_from n r s1 s2 m ≡ r
unfolding strncmp_from
strncmp_from-stop zero r s1 s2 m e = refl
strncmp_from-stop (suc n) r s1 s2 m e = rw e refl

strncmp_from-step :
    (n s1 s2 : ℕ) (m : Bytes)
    → (m s1 ≢ 0) ⊎ (m s2 ≢ 0)
    → strncmp_from (suc n) (pos 0) s1 s2 m
      ≡ strncmp_from n (char_diff (m s1) (m s2)) (s1 + 1) (s2 + 1) m
unfolding strncmp_from
strncmp_from-step n s1 s2 m (inl ne) = rw (==_ne (m s1) 0 ne) refl
strncmp_from-step n s1 s2 m (inr ne) = elim (Bool-cases (m s1 == 0)) [
  | inl e ↦ rw (e, ==_ne (m s2) 0 ne) refl
  | inr e ↦ rw e refl
]

strncmp_from_ne :
    (n s1 s2 : ℕ) (m : Bytes)
    → IsBytes m
    → m s1 ≢ m s2
    → is_zero (strncmp_from (suc n) (pos 0) s1 s2 m) ≡ false
strncmp_from_ne n s1 s2 m b ne =
    let d = char_diff (m s1) (m s2) in
    let live : (m s1 ≢ 0) ⊎ (m s2 ≢ 0) = ground arith in
    let step = ap is_zero (strncmp_from-step n s1 s2 m live) in
    elim (Bool-cases (is_zero d)) [
      | inl e ↦ absurd (ne (char_diff-zero (m s1) (m s2) (b s1) (b s2) e))
      | inr e ↦ step ∙ ap is_zero (strncmp_from-stop n d (s1 + 1) (s2 + 1) m e) ∙ e
    ]

strncmp_from_eq :
    (n s1 s2 : ℕ) (m : Bytes)
    → m s1 ≡ m s2
    → m s1 ≢ 0
    → strncmp_from (suc n) (pos 0) s1 s2 m ≡ strncmp_from n (pos 0) (s1 + 1) (s2 + 1) m
strncmp_from_eq n s1 s2 m e ne =
    strncmp_from-step n s1 s2 m (inl ne)
    ∙ ap (λ r. strncmp_from n r (s1 + 1) (s2 + 1) m)
        (ap (char_diff (m s1)) (sym e) ∙ char_diff_self (m s1))

-- Zero is returned for equal beginnings, and for no others.
strncmp_from-take :
    (n s1 s2 : ℕ) (xs ys : List ℕ) (m : Bytes)
    → IsBytes m
    → IsCstr m s1 xs
    → IsCstr m s2 ys
    → is_zero (strncmp_from n (pos 0) s1 s2 m) ≡ true
    → take n xs ≡ take n ys
unfolding strncmp_from
strncmp_from-take zero s1 s2 xs ys m b s t e = refl
strncmp_from-take (suc n) s1 s2 [] [] m b s t e = refl
strncmp_from-take (suc n) s1 s2 [] (y ∷ ys) m b s (t, ny, ts) e =
    absurd (differ (strncmp_from_ne n s1 s2 m b (λ h. ny (sym t ∙ sym h ∙ s))) e)
strncmp_from-take (suc n) s1 s2 (x ∷ xs) [] m b (s, nx, ss) t e =
    absurd (differ (strncmp_from_ne n s1 s2 m b (λ h. nx (sym s ∙ h ∙ t))) e)
strncmp_from-take (suc n) s1 s2 (x ∷ xs) (y ∷ ys) m b (s, nx, ss) (t, ny, ts) e =
    elim (Bool-cases (x == y)) [
      | inl h ↦
          let same = (==_iff x y).0 h in
          let next = strncmp_from_eq n s1 s2 m (s ∙ same ∙ sym t) (λ z. nx (sym s ∙ z)) in
          ap₂ (λ z zs. z ∷ zs) same
            (strncmp_from-take n (s1 + 1) (s2 + 1) xs ys m b ss ts (sym (ap is_zero next) ∙ e))
      | inr h ↦
          let ne : m s1 ≢ m s2 = ground arith in absurd (differ (strncmp_from_ne n s1 s2 m b ne) e)
    ]

take-strncmp_from :
    (n s1 s2 : ℕ) (xs ys : List ℕ) (m : Bytes)
    → IsCstr m s1 xs
    → IsCstr m s2 ys
    → take n xs ≡ take n ys
    → strncmp_from n (pos 0) s1 s2 m ≡ pos 0
unfolding strncmp_from
take-strncmp_from zero s1 s2 xs ys m s t e = refl
take-strncmp_from (suc n) s1 s2 [] [] m s t e = rw (s, t) refl
take-strncmp_from (suc n) s1 s2 [] (y ∷ ys) m s t e = cc
take-strncmp_from (suc n) s1 s2 (x ∷ xs) [] m s t e = cc
take-strncmp_from (suc n) s1 s2 (x ∷ xs) (y ∷ ys) m (s, nx, ss) (t, ny, ts) e =
    let (head, tail) : (x ≡ y) × (take n xs ≡ take n ys) = (cc, cc) in
    strncmp_from_eq n s1 s2 m (s ∙ head ∙ sym t) (λ z. nx (sym s ∙ z))
    ∙ take-strncmp_from n (s1 + 1) (s2 + 1) xs ys m ss ts tail

-- On strings of bytes, `strncmp` returns 0 exactly when the first `n` bytes agree, or all of them
-- where the strings are shorter.
pub strncmp-take_iff :
    (s1 s2 n : ℕ) (xs ys : List ℕ) (m : Bytes)
    → IsBytes m
    → IsCstr m s1 xs
    → IsCstr m s2 ys
    → (strncmp s1 s2 n m ≡ pos 0) ↔ (take n xs ≡ take n ys)
unfolding strncmp
strncmp-take_iff s1 s2 n xs ys m b s t = (
  λ e. strncmp_from-take n s1 s2 xs ys m b s t (ap is_zero e),
  take-strncmp_from n s1 s2 xs ys m s t,
)
