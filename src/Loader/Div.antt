-- ===== src/Loader/Div.antt =====
-- The loader's 64-bit arithmetic on a 32-bit machine, src/loader/src/util/div.c.
pub mod Shift
pub mod Quotient
pub mod Division
mod Tests
use smpl_osv.Base.{
  ℕ, zero, suc, ◌+◌, ◌-◌, ◌*◌, ◌/◌, ◌%◌, ◌^◌, Bool, Option, none, some, ◌==◌, if◌then◌else◌, leb,
  ltb, bit_or,
}
use smpl_osv.Base.Bits.{u32, u64, shl, shr}

-- `union overlay64`: the two halves of a word.
pub record Overlay : Type 0 where
  lower : ℕ
  higher : ℕ

abbrev pub overlay : ℕ → Overlay
overlay x = record { lower = x % 2 ^ 32; higher = x / 2 ^ 32 }

abbrev pub longw : Overlay → ℕ
longw o = o.higher * 2 ^ 32 + o.lower

pub ashldi3 : ℕ → ℕ → ℕ
ashldi3 num shift =
    let output = overlay num in
    if leb 32 shift
    then longw (record { lower = 0; higher = u32 (shl output.lower (shift - 32)) })
    else if shift == 0
    then num
    else longw (record {
      higher = bit_or (u32 (shl output.higher shift)) (shr output.lower (32 - shift));
      lower = u32 (shl output.lower shift);
    })

pub lshrdi3 : ℕ → ℕ → ℕ
lshrdi3 num shift =
    let output = overlay num in
    if leb 32 shift
    then longw (record { lower = shr output.higher (shift - 32); higher = 0 })
    else if shift == 0
    then num
    else longw (record {
      lower = bit_or (shr output.lower shift) (u32 (shl output.higher (32 - shift)));
      higher = shr output.higher shift;
    })

-- The inner loop: the divider doubled while it is at most half of the dividend, and how often.
pub double : ℕ → ℕ → ℕ → ℕ → Option (ℕ × ℕ)
double zero limit shifts locald = none
double (suc fuel) limit shifts locald =
    let rest = double fuel limit (shifts + 1) (u64 (locald + locald)) in
    if leb locald limit then rest else some (shifts, locald)

-- The rounds that either loop may take; a 64-bit number cannot be doubled or halved more often.
abbrev pub rounds : ℕ
rounds = 65

-- The outer loop, from a partial result and the dividend left: the quotient and the remainder.
pub divide_loop : ℕ → ℕ → ℕ → ℕ → Option (ℕ × ℕ)
divide_loop zero divider result dividend = none
divide_loop (suc fuel) divider result dividend =
    if leb divider dividend
    then elim (double rounds (lshrdi3 dividend 1) 0 divider) [
      | some found ↦
          divide_loop fuel divider (bit_or result (ashldi3 1 found.0)) (dividend - found.1)
      | none ↦ none
    ]
    else some (result, dividend)

-- `_64bit_divide`: the result and what is stored at `rem_p`. A divider of 0 divides by zero,
-- `none`.
pub divide : ℕ → ℕ → Option (ℕ × ℕ)
divide dividend divider =
    if divider == 0
    then none
    else if leb dividend 0xFFFFFFFF
    then if ltb 0xFFFFFFFF divider
      then some (0, divider)
      else some (u32 dividend / u32 divider, u32 dividend % u32 divider)
    else divide_loop rounds divider 0 dividend

pub udivdi3 : ℕ → ℕ → Option ℕ
unfolding divide
udivdi3 num den = elim (divide num den) [ some r ↦ some r.0 | none ↦ none ]

pub umoddi3 : ℕ → ℕ → Option ℕ
unfolding divide
umoddi3 num den = elim (divide num den) [ some r ↦ some r.1 | none ↦ none ]
