-- ===== src/Paging/Index.antt =====
-- The indices that paging.c takes from an address are those that the processor takes.
use smpl_osv.Base.{ℕ, ◌*◌, ◌/◌, ◌%◌, ◌^◌, ◌<◌, ◌≡◌, ap, ◌∙◌, arith, bit_and, bit_or}
use smpl_osv.Base.Bits.{bit_and_low, bit_or_add}
use smpl_osv.Base.Bits.Fields.{bit_and-field}
use smpl_osv.Paging.{pml4_idx, pdp_idx, pd_idx, pt_idx}

pub pml4_idx_lem : (v : ℕ) → v < 2 ^ 64 → pml4_idx v ≡ v / 2 ^ 39 % 512
pml4_idx_lem v l = bit_and_low 9 _ ∙ omega arith

pub pd_idx_lem : (v : ℕ) → pd_idx v ≡ v / 2 ^ 21 % 512
pd_idx_lem v = bit_and_low 9 _ ∙ omega arith

pub pt_idx_lem : (v : ℕ) → pt_idx v ≡ v / 2 ^ 12 % 512
pt_idx_lem v = bit_and_low 9 _ ∙ omega arith

pub pdp_idx_lem : (v : ℕ) → v < 2 ^ 64 → pdp_idx v ≡ v / 2 ^ 30 % 512
pdp_idx_lem v l =
    let hi = v / 2 ^ 32 % 2 ^ 30 in
    let upper : bit_and (v / 2 ^ 32 % 2 ^ 32 * 2 ^ 2 % 2 ^ 32) 0x1FC ≡ hi % 128 * 2 ^ 2 =
      ap (λ a. bit_and a 0x1FC) (omega arith)
      ∙ bit_and-field 2 hi 0 127 0 (omega arith) (omega arith)
      ∙ omega (arith, bit_and_low 7 hi) in
    let lower = bit_and_low 2 (v % 2 ^ 32 / 2 ^ 30) in
    ap (λ a. bit_or a (bit_and (v % 2 ^ 32 / 2 ^ 30) 3)) upper
    ∙ ap (bit_or (hi % 128 * 2 ^ 2)) lower
    ∙ bit_or_add 2 (hi % 128) (v % 2 ^ 32 / 2 ^ 30 % 2 ^ 2) (omega arith)
    ∙ omega arith
