-- ===== src/Base/Bits/Fields.antt =====
-- Laws of the bitwise operations on numbers made of two fields.
use Prim.Native.Nat.{ℕ, zero, suc, ◌+◌, ◌*◌, ◌/◌, ◌%◌, ◌^◌, ◌<◌, bit_and, bit_or, max}
use mathlib.Core.Path.{◌≡◌, ap}
use native.Mathlib.Nat.{pow-suc}
use native.Mathlib.Omega.{arith}
use smpl_osv.Base.Bits.Digit.{bit_or_digit, bit_and_digit, bit_or-nil, bit_and-nil, zero-bit_or}

pub double_pow : (q k : ℕ) → q * 2 ^ suc k ≡ 2 * (q * 2 ^ k)
double_pow q k = omega (arith, ap (λ (t : ℕ). q * t) (pow-suc 2 k))

pub bit_or-field :
    (k q r f : ℕ) → r < 2 ^ k → f < 2 ^ k → bit_or (q * 2 ^ k + r) f ≡ q * 2 ^ k + bit_or r f
bit_or-field zero q r f h g = ground (arith, bit_or-nil q, zero-bit_or 0)
bit_or-field (suc k) q r f h g = ground (
  arith,
  bit_or_digit (q * 2 ^ suc k + r) f,
  bit_or_digit r f,
  double_pow q k,
  pow-suc 2 k,
  bit_or-field k q (r / 2) (f / 2) (omega (arith, pow-suc 2 k)) (omega (arith, pow-suc 2 k)),
)

pub bit_or-lt : (k r f : ℕ) → r < 2 ^ k → f < 2 ^ k → bit_or r f < 2 ^ k
bit_or-lt zero r f h g = ground (arith, zero-bit_or 0)
bit_or-lt (suc k) r f h g = ground (
  arith,
  bit_or_digit r f,
  pow-suc 2 k,
  bit_or-lt k (r / 2) (f / 2) (omega (arith, pow-suc 2 k)) (omega (arith, pow-suc 2 k)),
)

pub bit_and-field :
    (k q r p s : ℕ)
    → r < 2 ^ k
    → s < 2 ^ k
    → bit_and (q * 2 ^ k + r) (p * 2 ^ k + s) ≡ bit_and q p * 2 ^ k + bit_and r s
bit_and-field zero q r p s h g = ground (arith, bit_and-nil 0)
bit_and-field (suc k) q r p s h g = ground (
  arith,
  bit_and_digit (q * 2 ^ suc k + r) (p * 2 ^ suc k + s),
  bit_and_digit r s,
  double_pow q k,
  double_pow p k,
  double_pow (bit_and q p) k,
  pow-suc 2 k,
  bit_and-field k q (r / 2) p (s / 2) (omega (arith, pow-suc 2 k)) (omega (arith, pow-suc 2 k)),
)

pub bit_or-parity : (a b : ℕ) → bit_or a b % 2 ≡ max (a % 2) (b % 2)
bit_or-parity a b = ground (arith, bit_or_digit a b)
