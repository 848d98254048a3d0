-- ===== src/Elf/Image/Fields.antt =====
-- The fields of ELF headers depend on the bytes of the header alone.
use smpl_osv.Base.{ℕ, ◌+◌, ◌≤◌, ◌<◌, ◌≡◌, refl, ap, ◌∙◌, arith}
use smpl_osv.Libc.{Bytes}
use smpl_osv.Elf.{le16, le32, le64, read_ehdr, read_phdr}

-- Two memories that hold the same `n` bytes from `p` on.
abbrev pub SameAt : Bytes → Bytes → ℕ → ℕ → Type 0
SameAt m m' p n = (k : ℕ) → k < n → m' (p + k) ≡ m (p + k)

pub SameAt-part : (m m' : Bytes) (p q n k : ℕ) → SameAt m m' p n → q + k ≤ n → SameAt m m' (p + q) k
SameAt-part m m' p q n k h le i l =
    ap m' (omega arith) ∙ h (q + i) (omega arith) ∙ ap m (omega arith)

pub le16_same : (m m' : Bytes) (p : ℕ) → SameAt m m' p 2 → le16 m' p ≡ le16 m p
le16_same m m' p h =
    let first : p + 0 ≡ p = omega arith in
    omega (arith, ap m first, ap m' first, h 0 (omega arith), h 1 (omega arith))

pub le32_same : (m m' : Bytes) (p : ℕ) → SameAt m m' p 4 → le32 m' p ≡ le32 m p
le32_same m m' p h =
    let low = le16_same m m' p (λ k l. h k (omega arith)) in
    let high = le16_same m m' (p + 2) (SameAt-part m m' p 2 4 2 h (omega arith)) in
    omega (arith, low, high)

pub le64_same : (m m' : Bytes) (p : ℕ) → SameAt m m' p 8 → le64 m' p ≡ le64 m p
le64_same m m' p h =
    let low = le32_same m m' p (λ k l. h k (omega arith)) in
    let high = le32_same m m' (p + 4) (SameAt-part m m' p 4 8 4 h (omega arith)) in
    omega (arith, low, high)

pub read_phdr-same : (m m' : Bytes) (p : ℕ) → SameAt m m' p 56 → read_phdr m' p ≡ read_phdr m p
read_phdr-same m m' p h =
    let at = λ (q k : ℕ) (le : q + k ≤ 56). SameAt-part m m' p q 56 k h le in
    let t = le32_same m m' p (λ k l. h k (omega arith)) in
    rw
      (
        t,
        le64_same m m' (p + 8) (at 8 8 (omega arith)),
        le64_same m m' (p + 16) (at 16 8 (omega arith)),
        le64_same m m' (p + 32) (at 32 8 (omega arith)),
        le64_same m m' (p + 40) (at 40 8 (omega arith)),
      )
      refl

-- The fields of the header that the loop reads.
pub read_ehdr-same :
    (m m' : Bytes) (p : ℕ)
    → SameAt m m' p 64
    → ((read_ehdr m' p).e_phoff ≡ (read_ehdr m p).e_phoff)
      × ((read_ehdr m' p).e_phentsize ≡ (read_ehdr m p).e_phentsize)
      × ((read_ehdr m' p).e_phnum ≡ (read_ehdr m p).e_phnum)
      × ((read_ehdr m' p).e_entry ≡ (read_ehdr m p).e_entry)
read_ehdr-same m m' p h = (
  le64_same m m' (p + 32) (SameAt-part m m' p 32 64 8 h (omega arith)),
  le16_same m m' (p + 54) (SameAt-part m m' p 54 64 2 h (omega arith)),
  le16_same m m' (p + 56) (SameAt-part m m' p 56 64 2 h (omega arith)),
  le64_same m m' (p + 24) (SameAt-part m m' p 24 64 8 h (omega arith)),
)
