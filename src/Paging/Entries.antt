-- ===== src/Paging/Entries.antt =====
-- The entries that mapf writes, and the windows on the tables that the recursive entry opens.
use smpl_osv.Base.{
  ℕ, ◌+◌, ◌-◌, ◌*◌, ◌/◌, ◌%◌, ◌^◌, ◌<◌, ◌≡◌, ap, ◌∙◌, sym, arith, bit_and, bit_or, some, none,
  Bool-cases, inl, inr, ==_iff, ◌==◌, Option, some_inj,
}
use mathlib.Core.Path.{ap₂, subst}
use smpl_osv.Base.Bits.{bit_and_low}
use smpl_osv.Base.Bits.Fields.{bit_and-field, bit_or-field, bit_or-lt, bit_or-parity}
use smpl_osv.Mmu.{follow, walk}
use smpl_osv.Paging.{Paging, locate, pdp_mapping, pd_mapping}

pub locate-chain :
    (s : Paging) (a i4 i3 i2 i1 o f3 f2 f1 f0 : ℕ)
    → a / 2 ^ 39 % 512 ≡ i4
    → a / 2 ^ 30 % 512 ≡ i3
    → a / 2 ^ 21 % 512 ≡ i2
    → a / 2 ^ 12 % 512 ≡ i1
    → a % 2 ^ 12 ≡ 8 * o
    → o < 512
    → follow (s.frames s.cr3 i4) ≡ some f3
    → follow (s.frames f3 i3) ≡ some f2
    → follow (s.frames f2 i2) ≡ some f1
    → follow (s.frames f1 i1) ≡ some f0
    → locate s a ≡ some (f0, o)
unfolding walk
locate-chain s a i4 i3 i2 i1 o f3 f2 f1 f0 e4 e3 e2 e1 eo l g4 g3 g2 g1 =
    rw
      (
        ap (λ i. follow (s.frames s.cr3 i)) e4 ∙ g4,
        ap (λ i. follow (s.frames f3 i)) e3 ∙ g3,
        ap (λ i. follow (s.frames f2 i)) e2 ∙ g2,
        ap (λ i. follow (s.frames f1 i)) e1 ∙ g1,
      )
      (ap₂ (λ x y. some (x, y)) (omega arith) (omega arith))

module _ (s : Paging) (recursive : follow (s.frames s.cr3 511) ≡ some s.cr3) where
  pub locate-pdp :
      (i4 o t3 : ℕ)
      → i4 < 512
      → o < 512
      → follow (s.frames s.cr3 i4) ≡ some t3
      → locate s (pdp_mapping i4 + 8 * o) ≡ some (t3, o)
  locate-pdp i4 o t3 l u g =
      locate-chain s (pdp_mapping i4 + 8 * o) 511 511 511 i4 o s.cr3 s.cr3 s.cr3 t3 (omega arith)
        (omega arith) (omega arith) (omega arith) (omega arith) u recursive recursive recursive g

  pub locate-pd :
      (i4 i3 o t3 t2 : ℕ)
      → i4 < 512
      → i3 < 512
      → o < 512
      → follow (s.frames s.cr3 i4) ≡ some t3
      → follow (s.frames t3 i3) ≡ some t2
      → locate s (pd_mapping i4 i3 + 8 * o) ≡ some (t2, o)
  locate-pd i4 i3 o t3 t2 l u v g h =
      locate-chain s (pd_mapping i4 i3 + 8 * o) 511 511 i4 i3 o s.cr3 s.cr3 t3 t2 (omega arith)
        (omega arith) (omega arith) (omega arith) (omega arith) v recursive recursive g h

  pub locate-pt :
      (i4 i3 i2 o t3 t2 t1 : ℕ)
      → i4 < 2
      → i3 < 512
      → i2 < 512
      → o < 512
      → follow (s.frames s.cr3 i4) ≡ some t3
      → follow (s.frames t3 i3) ≡ some t2
      → follow (s.frames t2 i2) ≡ some t1
      → locate s (0xFFFFFF8000000000 + 0x40000000 * i4 + 0x200000 * i3 + 0x1000 * i2 + 8 * o)
        ≡ some (t1, o)
  locate-pt i4 i3 i2 o t3 t2 t1 l u v w g h k =
      locate-chain s _ 511 i4 i3 i2 o s.cr3 t3 t2 t1 (omega arith) (omega arith) (omega arith)
        (omega arith) (omega arith) w recursive g h k

follow-flags : (q f : ℕ) → f < 2 ^ 12 → f % 2 ≡ 1 → follow (q * 2 ^ 12 + f) ≡ some (q % 2 ^ 40)
follow-flags q f u odd = ground arith

follow-inv : (e g : ℕ) → follow e ≡ some g → (e % 2 ≡ 1) × (e / 2 ^ 12 % 2 ^ 40 ≡ g)
follow-inv e g at = elim (Bool-cases (e % 2 == 1)) [
  | inl h ↦ ((==_iff (e % 2) 1).0 h, some_inj _ _ (rw h at at))
  | inr h ↦ let no : ◌≡◌ {A = Option ℕ} none (some g) = rw h at at in (cc, cc)
]

-- A word for frame `q` that is present, with more flags.
flagged :
    (q flags : ℕ)
    → q < 2 ^ 52
    → flags < 2 ^ 12
    → (follow (bit_or (q * 2 ^ 12 + 1) flags) ≡ some (q % 2 ^ 40))
      × (bit_or (q * 2 ^ 12 + 1) flags < 2 ^ 64)
flagged q flags l u =
    let low = bit_or-lt 12 1 flags (omega arith) u in
    let word = bit_or-field 12 q 1 flags (omega arith) u in
    let odd : bit_or 1 flags % 2 ≡ 1 = ground (arith, bit_or-parity 1 flags) in
    (ap follow word ∙ follow-flags q (bit_or 1 flags) low odd, omega (arith, word, low))

-- The entry for a frame with the flags, as `mapf` makes it.
pub new_entry :
    (g flags : ℕ)
    → g < 2 ^ 40
    → flags < 2 ^ 12
    → (follow (bit_or (bit_or (g * 2 ^ 12) 1) flags) ≡ some g)
      × (bit_or (bit_or (g * 2 ^ 12) 1) flags < 2 ^ 64)
new_entry g flags l u =
    let one : bit_or (g * 2 ^ 12) 1 ≡ g * 2 ^ 12 + 1 =
      ap (λ x. bit_or x 1) {x = g * 2 ^ 12} {y = g * 2 ^ 12 + 0} (omega arith)
      ∙ bit_or-field 12 g 0 1 (omega arith) (omega arith) in
    let (at, fits) = flagged g flags (omega arith) u in
    (
      ap (λ x. follow (bit_or x flags)) one ∙ at ∙ ap some (omega arith),
      subst (λ x. bit_or x flags < 2 ^ 64) (sym one) fits,
    )

-- An entry that keeps its frame and takes new flags.
pub kept_entry :
    (e g flags : ℕ)
    → e < 2 ^ 64
    → flags < 2 ^ 12
    → follow e ≡ some g
    → (follow (bit_or (bit_and e 0xFFFFFFFFFFFFF001) flags) ≡ some g)
      × (bit_or (bit_and e 0xFFFFFFFFFFFFF001) flags < 2 ^ 64)
kept_entry e g flags w u at =
    let (odd, frame) = follow-inv e g at in
    let q = e / 2 ^ 12 in
    let one : bit_and e 0xFFFFFFFFFFFFF001 ≡ q * 2 ^ 12 + 1 =
      ap (λ x. bit_and x 0xFFFFFFFFFFFFF001) {x = e} {y = q * 2 ^ 12 + e % 2 ^ 12} (omega arith)
      ∙ bit_and-field 12 q (e % 2 ^ 12) (2 ^ 52 - 1) 1 (omega arith) (omega arith)
      ∙ omega (arith, bit_and_low 52 q, bit_and_low 1 (e % 2 ^ 12)) in
    let (to, fits) = flagged q flags (omega arith) u in
    (
      ap (λ x. follow (bit_or x flags)) one ∙ to ∙ ap some frame,
      subst (λ x. bit_or x flags < 2 ^ 64) (sym one) fits,
    )

-- What `to_physical` returns of a new entry.
pub low_frame :
    (g flags : ℕ)
    → flags < 2 ^ 12
    → bit_and (bit_or (bit_or (g * 2 ^ 12) 1) flags) 0xFFFFF000 ≡ g % 2 ^ 20 * 2 ^ 12
low_frame g flags u =
    let one : bit_or (g * 2 ^ 12) 1 ≡ g * 2 ^ 12 + 1 =
      ap (λ x. bit_or x 1) {x = g * 2 ^ 12} {y = g * 2 ^ 12 + 0} (omega arith)
      ∙ bit_or-field 12 g 0 1 (omega arith) (omega arith) in
    let low = bit_or 1 flags in
    ap (λ x. bit_and (bit_or x flags) 0xFFFFF000) one
    ∙ ap (λ x. bit_and x 0xFFFFF000) (bit_or-field 12 g 1 flags (omega arith) u)
    ∙ bit_and-field 12 g low (2 ^ 20 - 1) 0 (bit_or-lt 12 1 flags (omega arith) u) (omega arith)
    ∙ omega (arith, bit_and_low 20 g, bit_and_low 0 low)
