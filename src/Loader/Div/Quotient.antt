-- ===== src/Loader/Div/Quotient.antt =====
-- The loops of `_64bit_divide` compute quotient and remainder.
use smpl_osv.Base.{
  ℕ, zero, suc, ◌+◌, ◌-◌, ◌*◌, ◌/◌, ◌%◌, ◌^◌, ◌≤◌, ◌<◌, ◌≡◌, refl, sym, ap, ◌∙◌, arith, bit_or, leb,
  ltb, Bool-cases, inl, inr, leb→le, ltb→lt, some, true, false, Option,
}
use native.Mathlib.Nat.{
  pow-suc, mul_assoc, mul-le-mul_left, one-le-pow, add-mul, pow-le-pow_right, mod-eq_of_lt,
  div-eq_of_lt, mul-le-mul_right, add-mul-div_left, add-mul-mod_self_left,
}
use mathlib.Core.Path.{ap₂}
use smpl_osv.Base.Bits.{u64, bit_or_add}
use smpl_osv.Loader.Div.{ashldi3, lshrdi3, rounds, double, divide_loop}
use smpl_osv.Loader.Div.Shift.{ashldi3-one, lshrdi3-one}

pow_double : (a k : ℕ) → (a + a) * 2 ^ k ≡ a * 2 ^ suc k
pow_double a k =
    omega (
      arith,
      add-mul a a (2 ^ k),
      pow-suc 2 k,
      ap (λ t. a * t) (pow-suc 2 k),
      mul_assoc a (2 ^ k) 2,
    )

some_pair : {a b c d : ℕ} → a ≡ c → b ≡ d → ◌≡◌ {A = Option (ℕ × ℕ)} (some (a, b)) (some (c, d))
some_pair e f = ap₂ (λ s l. some (s, l)) e f

double_more :
    (fuel limit shifts locald : ℕ)
    → leb locald limit ≡ true
    → double (suc fuel) limit shifts locald ≡ double fuel limit (shifts + 1) (u64 (locald + locald))
unfolding double
double_more fuel limit shifts locald h = rw h refl

-- The doubled divider is the largest that the dividend still holds.
pub double_lem :
    (fuel dividend shifts locald : ℕ)
    → 1 ≤ locald
    → locald ≤ dividend
    → dividend < 2 ^ 64
    → dividend < locald * 2 ^ suc fuel
    → (k : ℕ) × (double (suc fuel) (dividend / 2) shifts locald ≡ some (shifts + k, locald * 2 ^ k))
      × (locald * 2 ^ k ≤ dividend)
      × (dividend < locald * 2 ^ suc k)
unfolding double
double_lem zero dividend shifts locald pos le w enough =
    let stop : leb locald (dividend / 2) ≡ false = ground (arith, pow-suc 2 0) in
    (0, rw stop (some_pair (omega arith) (omega arith)), omega arith, enough)
double_lem (suc fuel) dividend shifts locald pos le w enough =
    elim (Bool-cases (leb locald (dividend / 2))) [
      | inl h ↦
          let twice = locald + locald in
          let half = leb→le locald (dividend / 2) h in
          let same : u64 twice ≡ twice = omega arith in
          let (k, run, low, high) =
            double_lem fuel dividend (shifts + 1) twice (omega arith) (omega arith) w
              (omega (arith, pow_double locald (suc fuel))) in
          (
            suc k,
            double_more (suc fuel) (dividend / 2) shifts locald h
                ∙ ap (double (suc fuel) (dividend / 2) (shifts + 1)) same
                ∙ run
                ∙ some_pair {a = shifts + 1 + k} {c = shifts + suc k} (omega arith)
                    (pow_double locald k),
            omega (arith, pow_double locald k),
            omega (arith, pow_double locald (suc k)),
          )
      | inr h ↦
          let above : dividend / 2 < locald = ground arith in
          (0, rw h (some_pair (omega arith) (omega arith)), omega arith, omega arith)
    ]

pow_split : (d k : ℕ) → 2 ^ (d + k) ≡ 2 ^ d * 2 ^ k
pow_split d zero = ap (λ e. 2 ^ e) {x = d + 0} {y = d} (omega arith) ∙ omega arith
pow_split d (suc k) =
    ap (λ e. 2 ^ e) {x = d + suc k} {y = suc (d + k)} (omega arith)
    ∙ omega (
      arith,
      pow-suc 2 (d + k),
      pow-suc 2 k,
      pow_split d k,
      mul_assoc (2 ^ d) (2 ^ k) 2,
      ap (λ e. 2 ^ d * e) (pow-suc 2 k),
    )

smaller_shift : (divider k t : ℕ) → divider * 2 ^ k < divider * 2 ^ t → k < t
smaller_shift divider k t l = elim (Bool-cases (ltb k t)) [
  | inl h ↦ ltb→lt k t h
  | inr h ↦
      let le : t ≤ k = ground arith in
      absurd (omega (arith, mul-le-mul_left divider (pow-le-pow_right {n = 2} (omega arith) le)))
]

-- The next bit of the quotient, below all that are set.
next_bit :
    (q t k : ℕ) → k < t → k < 64 → bit_or (q * 2 ^ t) (ashldi3 1 k) ≡ (q * 2 ^ (t - k) + 1) * 2 ^ k
next_bit q t k l k64 =
    let d = t - k in
    let whole : 2 ^ t ≡ 2 ^ d * 2 ^ k = ap (λ e. 2 ^ e) (omega arith) ∙ pow_split d k in
    let below : 2 ^ k < 2 ^ t =
      omega (arith, pow-le-pow_right {n = 2} (omega arith) l, pow-suc 2 k, one-le-pow k 2) in
    ap (bit_or (q * 2 ^ t)) (ashldi3-one k k64)
    ∙ bit_or_add t q (2 ^ k) below
    ∙ ap (λ e. q * e + 2 ^ k) whole
    ∙ omega (arith, mul_assoc q (2 ^ d) (2 ^ k), add-mul (q * 2 ^ d) 1 (2 ^ k))

pow_fits : (divider k : ℕ) → 1 ≤ divider → divider * 2 ^ k < 2 ^ 64 → k < 64
pow_fits divider k pos l = smaller_shift 1 k 64 (omega (arith, mul-le-mul_right (2 ^ k) pos))

divide_round :
    (fuel divider result dividend k : ℕ)
    → leb divider dividend ≡ true
    → double rounds (lshrdi3 dividend 1) 0 divider ≡ some (k, divider * 2 ^ k)
    → divide_loop (suc fuel) divider result dividend
      ≡ divide_loop fuel divider (bit_or result (ashldi3 1 k)) (dividend - divider * 2 ^ k)
unfolding divide_loop
divide_round fuel divider result dividend k h half = rw (h, half) refl

-- What one round takes off the dividend is what it adds to the quotient.
round_sum :
    (divider q t k dividend : ℕ)
    → 1 ≤ divider
    → k < t
    → divider * 2 ^ k ≤ dividend
    → let rest = dividend - divider * 2 ^ k in
      ((q * 2 ^ (t - k) + 1) * 2 ^ k + rest / divider ≡ q * 2 ^ t + dividend / divider)
      × (rest % divider ≡ dividend % divider)
round_sum divider q t k dividend pos l low =
    let d = t - k in
    let rest = dividend - divider * 2 ^ k in
    let all : rest + divider * 2 ^ k ≡ dividend = omega arith in
    let whole : 2 ^ t ≡ 2 ^ d * 2 ^ k = ap (λ e. 2 ^ e) (omega arith) ∙ pow_split d k in
    let quotient = sym (ap (λ n. n / divider) all) ∙ add-mul-div_left rest (2 ^ k) pos in
    (
      omega (
        arith,
        quotient,
        ap (λ e. q * e) whole,
        mul_assoc q (2 ^ d) (2 ^ k),
        add-mul (q * 2 ^ d) 1 (2 ^ k),
      ),
      sym (add-mul-mod_self_left rest divider (2 ^ k)) ∙ ap (λ n. n % divider) all,
    )

-- A partial quotient that ends in `t` zero bits, with less left than fits into those.
pub divide_loop_lem :
    (fuel divider q t dividend : ℕ)
    → 1 ≤ divider
    → t < fuel
    → dividend < 2 ^ 64
    → dividend < divider * 2 ^ t
    → divide_loop fuel divider (q * 2 ^ t) dividend
      ≡ some (q * 2 ^ t + dividend / divider, dividend % divider)
unfolding divide_loop
divide_loop_lem zero divider q t dividend pos f w b = ground arith
divide_loop_lem (suc fuel) divider q t dividend pos f w b =
    elim (Bool-cases (leb divider dividend)) [
      | inl h ↦
          let le = leb→le divider dividend h in
          let big : dividend < divider * 2 ^ 65 = omega (arith, mul-le-mul_right (2 ^ 65) pos) in
          let (k, found, low, high) = double_lem 64 dividend 0 divider pos le w big in
          let half =
            ap (λ limit. double rounds limit 0 divider) (lshrdi3-one dividend w)
            ∙ found
            ∙ some_pair {a = 0 + k} {c = k} (omega arith) refl in
          let less = smaller_shift divider k t (omega arith) in
          let k64 = pow_fits divider k pos (omega arith) in
          let next = dividend - divider * 2 ^ k in
          let (quotient, remainder) = round_sum divider q t k dividend pos less low in
          divide_round fuel divider (q * 2 ^ t) dividend k h half
          ∙ ap (λ result. divide_loop fuel divider result next) (next_bit q t k less k64)
          ∙ divide_loop_lem fuel divider (q * 2 ^ (t - k) + 1) k next pos (omega arith)
              (omega arith) (omega (arith, pow_double divider k, add-mul divider divider (2 ^ k)))
          ∙ some_pair quotient remainder
      | inr h ↦
          let short : dividend < divider = ground arith in
          rw h (some_pair (omega (arith, div-eq_of_lt short)) (sym (mod-eq_of_lt short)))
    ]
