-- ===== src/Mmu.antt =====
-- The page tables as the processor reads them: frames of 512 words of 64 bits, and the walk through
-- four levels of them that translates an address. Large pages are left out.
use smpl_osv.Base.{
  ℕ, ◌+◌, ◌*◌, ◌/◌, ◌%◌, ◌^◌, ◌<◌, ◌≡◌, ◌≢◌, ap, ◌∙◌, Option, some, none, ◌==◌, if◌then◌else◌,
  update, update_self, update_ne, bit_or, arith,
}
use smpl_osv.Base.Bits.{bit_or_add}

infixl 5 ◌>>=◌
abbrev ◌>>=◌ {ℓ κ} : {A : Type ℓ} {B : Type κ} → Option A → (A → Option B) → Option B
none >>= f = none
some a >>= f = f a

-- The words by the number of their frame and their index in it.
abbrev pub Frames : Type 0
Frames = ℕ → ℕ → ℕ

unfoldable pub store : ℕ → ℕ → ℕ → Frames → Frames
store frame i v m = update m frame (update (m frame) i v)

-- The frame that a present entry points to.
abbrev pub follow : ℕ → Option ℕ
follow e = if e % 2 == 1 then some (e / 2 ^ 12 % 2 ^ 40) else none

unfoldable pub walk : Frames → ℕ → ℕ → Option ℕ
walk m top addr = do
  directories ← follow (m top (addr / 2 ^ 39 % 512))
  directory ← follow (m directories (addr / 2 ^ 30 % 512))
  table ← follow (m directory (addr / 2 ^ 21 % 512))
  frame ← follow (m table (addr / 2 ^ 12 % 512))
  some (frame * 2 ^ 12 + addr % 2 ^ 12)

-- An entry for the frame with the flags present and writable.
pub follow-entry : (frame : ℕ) → frame < 2 ^ 40 → follow (bit_or (frame * 2 ^ 12) 3) ≡ some frame
follow-entry frame l = ap follow (bit_or_add 12 frame 3 (omega arith)) ∙ ground arith

pub store_self : (frame i v : ℕ) (m : Frames) → store frame i v m frame i ≡ v
unfolding store
store_self frame i v m =
    ap (λ (t : ℕ → ℕ). t i) (update_self m frame (update (m frame) i v)) ∙ update_self (m frame) i v

pub store-index : (frame i v : ℕ) (m : Frames) (f j : ℕ) → j ≢ i → store frame i v m f j ≡ m f j
unfolding store update
store-index frame i v m f j ne = ground arith

pub store-frame : (frame i v : ℕ) (m : Frames) (f j : ℕ) → f ≢ frame → store frame i v m f j ≡ m f j
unfolding store
store-frame frame i v m f j ne =
    ap (λ (t : ℕ → ℕ). t j) (update_ne m frame (update (m frame) i v) f ne)
