-- ===== src/Tar/Size.antt =====
-- The octal size in a header is read as it was written.
use smpl_osv.Base.{
  ℕ, suc, zero, ◌+◌, ◌-◌, ◌*◌, ◌/◌, ◌%◌, ◌^◌, ◌<◌, ◌≤◌, ◌≡◌, refl, sym, ap, ◌∙◌, arith,
}
use mathlib.Core.Path.{ap₂}
use native.Mathlib.Nat.{
  pow-suc, pow-le-pow_right, div-add-mod, div-div-eq-div-mul, mul_assoc, mul_comm, mul-add,
  mod-eq_of_lt, mod-le,
}
use smpl_osv.Base.Bits.{u32}
use smpl_osv.Libc.{Bytes}
use smpl_osv.Tar.{digit, get_size_from, tar_get_size}

-- Eleven octal digits of `n`, the highest first.
abbrev pub IsOctal : Bytes → ℕ → ℕ → Type 0
IsOctal m at n = (j : ℕ) → j < 11 → m (at + (10 - j)) ≡ 48 + n / 8 ^ j % 8

digit_octal : (d : ℕ) → d < 8 → digit (48 + d) ≡ d
digit_octal d l = omega arith

octal_mod : (n p : ℕ) → n % (p * 8) ≡ n % p + n / p % 8 * p
octal_mod n p =
    let q = n / p in
    let whole = div-add-mod n (p * 8) in
    let nested : p * 8 * (n / (p * 8)) ≡ p * (8 * (q / 8)) =
      ap (λ x. p * 8 * x) (sym (div-div-eq-div-mul n p 8)) ∙ mul_assoc p 8 (q / 8) in
    let parts : p * q ≡ p * (8 * (q / 8)) + p * (q % 8) =
      ap (λ x. p * x) (sym (div-add-mod q 8)) ∙ mul-add p (8 * (q / 8)) (q % 8) in
    omega (arith, whole, nested, parts, div-add-mod n p, mul_comm p (q % 8))

digit_at :
    (m : Bytes) (at n j d : ℕ)
    → IsOctal m at n
    → j + suc d ≡ 11
    → digit (m (at + j)) ≡ n / 8 ^ d % 8
digit_at m at n j d o e =
    let found : m (at + j) ≡ 48 + n / 8 ^ d % 8 = ap m (omega arith) ∙ o d (omega arith) in
    ap digit found ∙ digit_octal (n / 8 ^ d % 8) (omega arith)

get_size_from-IsOctal :
    (m : Bytes) (at n j d : ℕ)
    → n < 2 ^ 32
    → IsOctal m at n
    → j + d ≡ 11
    → get_size_from j (u32 (8 ^ d)) (n % 8 ^ d) at m ≡ n
unfolding get_size_from
get_size_from-IsOctal m at n zero d l o e =
    let all : d ≡ 11 = omega arith in ap (λ k. n % 8 ^ k) all ∙ omega arith
get_size_from-IsOctal m at n (suc j) d l o e =
    let small : 8 ^ d ≤ 8 ^ 10 =
      pow-le-pow_right {n = 8} (omega arith) {i = d} {j = 10} (omega arith) in
    let more : 8 ^ suc d ≡ 8 ^ d * 8 = pow-suc 8 d in
    let size : u32 (n % 8 ^ d + digit (m (at + j)) * u32 (8 ^ d)) ≡ n % 8 ^ suc d =
      ap (λ v. u32 (n % 8 ^ d + v * u32 (8 ^ d))) (digit_at m at n j d o (omega arith))
      ∙ ap (λ c. u32 (n % 8 ^ d + n / 8 ^ d % 8 * c)) {x = u32 (8 ^ d)} {y = 8 ^ d} (omega arith)
      ∙ ap u32 (sym (octal_mod n (8 ^ d)) ∙ ap (λ p. n % p) (sym more))
      ∙ mod-eq_of_lt (omega (arith, mod-le n (8 ^ suc d))) in
    let count : u32 (u32 (8 ^ d) * 8) ≡ u32 (8 ^ suc d) = omega arith in
    ap₂ (λ c s. get_size_from j c s at m) count size
    ∙ get_size_from-IsOctal m at n j (suc d) l o (omega arith)

-- Eleven octal digits of a number of 32 bits are read as that number.
pub tar_get_size-IsOctal :
    (m : Bytes) (at n : ℕ) → n < 2 ^ 32 → IsOctal m at n → tar_get_size at m ≡ n
unfolding tar_get_size
tar_get_size-IsOctal m at n l o =
    ap (λ s. get_size_from 11 1 s at m) (omega arith) ∙ get_size_from-IsOctal m at n 11 0 l o refl
