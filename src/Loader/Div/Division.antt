-- ===== src/Loader/Div/Division.antt =====
-- The loader's 64-bit division and remainder against those of arithmetic.
use smpl_osv.Base.{
  ℕ, ◌*◌, ◌/◌, ◌%◌, ◌^◌, ◌≤◌, ◌<◌, ◌≡◌, refl, sym, ap, ◌∙◌, arith, leb, ltb, le→leb, lt→ltb,
  ltb-false, Bool-cases, inl, inr, ==_ne, leb→le, ltb→lt, some, false, if◌then◌else◌, ◌&&◌,
}
use native.Mathlib.Nat.{div-eq_of_lt, mul-le-mul_right}
use smpl_osv.Loader.Div.{rounds, divide, udivdi3, umoddi3}
use smpl_osv.Loader.Div.Quotient.{divide_loop_lem}

divide_wide :
    (num den : ℕ)
    → num < 2 ^ 64
    → 1 ≤ den
    → 2 ^ 32 ≤ num
    → divide num den ≡ some (num / den, num % den)
unfolding divide
divide_wide num den w pos big =
    let large : leb num 0xFFFFFFFF ≡ false = ground arith in
    let fits : num < den * 2 ^ 64 = omega (arith, mul-le-mul_right (2 ^ 64) pos) in
    rw (==_ne den 0 (omega arith), large)
      (divide_loop_lem rounds den 0 64 num pos (omega arith) w fits
        ∙ ap (λ q. some (q, num % den)) (omega arith))

divide_narrow :
    (num den : ℕ)
    → num < 2 ^ 32
    → 1 ≤ den
    → den < 2 ^ 32
    → divide num den ≡ some (num / den, num % den)
unfolding divide
divide_narrow num den small pos narrow =
    let n : num % 2 ^ 32 ≡ num = omega arith in
    let d : den % 2 ^ 32 ≡ den = omega arith in
    rw
      (
        ==_ne den 0 (omega arith),
        le→leb num 0xFFFFFFFF (omega arith),
        ltb-false 0xFFFFFFFF den (omega arith),
        n,
        d,
      )
      refl

divide_mixed : (num den : ℕ) → num < 2 ^ 32 → 2 ^ 32 ≤ den → divide num den ≡ some (0, den)
unfolding divide
divide_mixed num den small wide =
    rw
      (
        ==_ne den 0 (omega arith),
        le→leb num 0xFFFFFFFF (omega arith),
        lt→ltb 0xFFFFFFFF den (omega arith),
      )
      refl

results :
    (num den q r : ℕ)
    → divide num den ≡ some (q, r)
    → (udivdi3 num den ≡ some q) × (umoddi3 num den ≡ some r)
unfolding udivdi3 umoddi3
results num den q r e = (rw (e, udivdi3) refl, rw (e, umoddi3) refl)

-- For 64-bit numbers and a divider that is not 0, both divisions return: `__udivdi3` the quotient,
-- and `__umoddi3` the remainder, except that it returns the divider itself where the dividend fits
-- into 32 bits and the divider does not.
pub udivdi3-quotient :
    (num den : ℕ)
    → num < 2 ^ 64
    → 1 ≤ den
    → (udivdi3 num den ≡ some (num / den))
      × (umoddi3 num den ≡ some (if ltb num (2 ^ 32) && leb (2 ^ 32) den then den else num % den))
udivdi3-quotient num den w pos = elim (Bool-cases (ltb num (2 ^ 32))) [
  | inr h ↦
      rw h (results num den (num / den) (num % den) (divide_wide num den w pos (ground arith)))
  | inl h ↦
      let small = ltb→lt num (2 ^ 32) h in
      elim (Bool-cases (leb (2 ^ 32) den)) [
        | inl g ↦
            let wide = leb→le (2 ^ 32) den g in
            let (quotient, remainder) = results num den 0 den (divide_mixed num den small wide) in
            rw (h, g) (quotient ∙ ap some (sym (div-eq_of_lt (omega arith))), remainder)
        | inr g ↦
            let narrow = divide_narrow num den small pos (ground arith) in
            rw (h, g) (results num den (num / den) (num % den) narrow)
      ]
]
