-- ===== src/Loader/Div/Shift.antt =====
-- The shifts that the division of div.c makes.
use smpl_osv.Base.{
  ℕ, zero, suc, ◌+◌, ◌*◌, ◌/◌, ◌%◌, ◌^◌, ◌<◌, ◌≡◌, refl, ap, ◌∙◌, arith, bit_or, Bool-cases, inl,
  inr, Bool, true, false, ◌==◌, ==_iff, ◌&&◌,
}
use smpl_osv.Base.Bits.{add-bit_or}
use smpl_osv.Loader.Div.{ashldi3, lshrdi3}

abbrev pub all_below : (ℕ → Bool) → ℕ → Bool
all_below p zero = true
all_below p (suc n) = p n && all_below p n

and_left : (a b : Bool) → (a && b) ≡ true → a ≡ true
and_left true b e = refl
and_left false b e = e

and_right : (a b : Bool) → (a && b) ≡ true → b ≡ true
and_right true b e = e
and_right false b e = ground arith

pub all_below-true : (p : ℕ → Bool) (n : ℕ) → all_below p n ≡ true → (i : ℕ) → i < n → p i ≡ true
all_below-true p zero e i l = ground arith
all_below-true p (suc n) e i l = elim (Bool-cases (i == n)) [
  | inl h ↦ ap p ((==_iff i n).0 h) ∙ and_left (p n) (all_below p n) e
  | inr h ↦ all_below-true p n (and_right (p n) (all_below p n) e) i (ground arith)
]

-- The shifts of one by less than 64 are tried one by one.
pub ashldi3-one : (s : ℕ) → s < 64 → ashldi3 1 s ≡ 2 ^ s
unfolding ashldi3
ashldi3-one s l = (==_iff _ _).0 (all_below-true (λ s. ashldi3 1 s == 2 ^ s) 64 refl s l)

pub lshrdi3-one : (x : ℕ) → x < 2 ^ 64 → lshrdi3 x 1 ≡ x / 2
unfolding lshrdi3
lshrdi3-one x l =
    let h = x / 2 ^ 32 in
    let top : h * 2 ^ 31 % 2 ^ 32 ≡ h % 2 * 2 ^ 31 = omega arith in
    ap (λ b. h / 2 * 2 ^ 32 + bit_or (x % 2 ^ 32 / 2) b) top
    ∙ omega (arith, add-bit_or 31 (h % 2) (x % 2 ^ 32 / 2) (omega arith))
