-- ===== src/Loader/Div/Tests.antt =====
-- The division at numbers of more than 32 bits.
use smpl_osv.Base.{◌/◌, ◌%◌, ◌^◌, ◌≡◌, some, arith, ltb, leb, ◌&&◌, if◌then◌else◌}
use smpl_osv.Loader.Div.Division.{udivdi3-quotient}
use smpl_osv.Loader.Div.{udivdi3, umoddi3}

udivdi3-quotient_example :
    (udivdi3 100000000000 7 ≡ some (100000000000 / 7))
    × (umoddi3 100000000000 7
        ≡ some (if ltb 100000000000 (2 ^ 32) && leb (2 ^ 32) 7 then 7 else 100000000000 % 7))
udivdi3-quotient_example = udivdi3-quotient 100000000000 7 (omega arith) (omega arith)

-- 5 modulo 2^32 is 5, and the code returns 2^32.
wrong_remainder : umoddi3 5 (2 ^ 32) ≡ some (2 ^ 32)
wrong_remainder =
    let (quotient, remainder) = udivdi3-quotient 5 (2 ^ 32) (omega arith) (omega arith) in remainder
