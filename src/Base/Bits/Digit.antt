-- ===== src/Base/Bits/Digit.antt =====
-- The native operations stand for a recursion on binary digits with fuel. Here the fuel is dropped:
-- one equation for the lowest digit.
use Prim.Native.Nat.{
  ℕ, zero, suc, ◌+◌, ◌*◌, ◌/◌, ◌%◌, ◌≤◌, min, max, bit_and, bit_or, digits, bit_and-bitwise,
  bit_or-bitwise,
}
use mathlib.Core.Path.{◌≡◌, refl}
use native.Mathlib.Omega.{arith}

module _ (rest : ℕ → ℕ) (op : ℕ → ℕ → ℕ) where
  more_fuel : (m n a b : ℕ) → a ≤ m → a ≤ n → digits rest op m a b ≡ digits rest op n a b
  more_fuel zero zero a b p q = refl
  more_fuel zero (suc n) zero b p q = refl
  more_fuel zero (suc n) (suc a) b p q = absurd (omega arith)
  more_fuel (suc m) zero zero b p q = refl
  more_fuel (suc m) zero (suc a) b p q = absurd (omega arith)
  more_fuel (suc m) (suc n) zero b p q = refl
  more_fuel (suc m) (suc n) (suc a) b p q =
      rw (more_fuel m n (suc a / 2) (b / 2) (omega arith) (omega arith))

zero-bit_and : (b : ℕ) → bit_and 0 b ≡ 0
zero-bit_and b = bit_and-bitwise 0 b

pub zero-bit_or : (b : ℕ) → bit_or 0 b ≡ b
zero-bit_or b = bit_or-bitwise 0 b

pub bit_and_digit : (a b : ℕ) → bit_and a b ≡ bit_and (a / 2) (b / 2) * 2 + min (a % 2) (b % 2)
bit_and_digit zero b = omega (arith, zero-bit_and b, zero-bit_and (b / 2))
bit_and_digit (suc a) b = omega (
  arith,
  bit_and-bitwise (suc a) b,
  bit_and-bitwise (suc a / 2) (b / 2),
  more_fuel (λ _. 0) min a (suc a / 2) (suc a / 2) (b / 2) (omega arith) (omega arith),
)

pub bit_or_digit : (a b : ℕ) → bit_or a b ≡ bit_or (a / 2) (b / 2) * 2 + max (a % 2) (b % 2)
bit_or_digit zero b = omega (arith, zero-bit_or b, zero-bit_or (b / 2))
bit_or_digit (suc a) b = omega (
  arith,
  bit_or-bitwise (suc a) b,
  bit_or-bitwise (suc a / 2) (b / 2),
  more_fuel (λ y. y) max a (suc a / 2) (suc a / 2) (b / 2) (omega arith) (omega arith),
)

and_nil_below : (n a : ℕ) → a ≤ n → bit_and a 0 ≡ 0
and_nil_below n zero h = refl
and_nil_below zero (suc a) h = absurd (omega arith)
and_nil_below (suc n) (suc a) h =
    omega (arith, bit_and_digit (suc a) 0, and_nil_below n (suc a / 2) (omega arith))

pub bit_and-nil : (a : ℕ) → bit_and a 0 ≡ 0
bit_and-nil a = and_nil_below a a (omega arith)

or_nil_below : (n a : ℕ) → a ≤ n → bit_or a 0 ≡ a
or_nil_below n zero h = refl
or_nil_below zero (suc a) h = absurd (omega arith)
or_nil_below (suc n) (suc a) h =
    omega (arith, bit_or_digit (suc a) 0, or_nil_below n (suc a / 2) (omega arith))

pub bit_or-nil : (a : ℕ) → bit_or a 0 ≡ a
bit_or-nil a = or_nil_below a a (omega arith)
