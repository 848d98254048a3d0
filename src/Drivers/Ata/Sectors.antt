-- ===== src/Drivers/Ata/Sectors.antt =====
-- The requests that `ata_read_sectors` of ata.c makes of a disk.
use smpl_osv.Base.{
  ℕ, zero, suc, ◌+◌, ◌-◌, ◌*◌, ◌/◌, ◌%◌, ◌^◌, ◌≤◌, ◌<◌, ◌≡◌, refl, sym, ◌≢◌, arith, true, false,
  ◌==◌, ==_iff, ==_ne, Bool-cases, inl, inr, if◌then◌else◌, bit_and, bit_or, List, [], ◌∷◌,
}
use mathlib.Core.Path.{subst}
use smpl_osv.Base.Bits.{u8, u16, u32, shl, shr, bit_and_low, bit_or_add}
use smpl_osv.Drivers.Ports.{Device, outb}
use smpl_osv.Drivers.Ata.{AtaDevice, io_base, ata_read_sectors}

-- The registers of a disk as the list of writes to them, the latest first.
abbrev pub recorder : Device (List (ℕ × ℕ))
recorder = record { write = λ w port v s. (port, v) ∷ s; read = λ w port s. (0, s) }

-- The latest value of a register, and the one before it: a register keeps both.
abbrev pub latest : ℕ → List (ℕ × ℕ) → ℕ
latest port [] = 0
latest port ((p, v) ∷ ws) = if p == port then v else latest port ws

abbrev pub previous : ℕ → List (ℕ × ℕ) → ℕ
previous port [] = 0
previous port ((p, v) ∷ ws) = if p == port then latest port ws else previous port ws

abbrev pub request : AtaDevice → ℕ → ℕ → List (ℕ × ℕ)
request dev lba sec_count = (ata_read_sectors recorder dev lba sec_count []).1

io_primary : (bus : ℕ) → (bus == 0) ≡ true → io_base bus ≡ 0x1F0
io_primary bus b = rw b refl

io_secondary : (bus : ℕ) → (bus == 0) ≡ false → io_base bus ≡ 0x170
io_secondary bus b = rw b refl

drive_long : (s : ℕ) → s ≤ 1 → bit_or 0x40 (s * 2 ^ 4) ≡ 64 + 16 * s
drive_long zero h = refl
drive_long (suc zero) h = refl
drive_long (suc (suc s)) h = absurd (omega arith)

-- What the registers at `base` hold of a request with numbers of 48 bits: the number of the sector,
-- the number of sectors, the drive, and the command before the last.
abbrev pub HoldsLong : ℕ → List (ℕ × ℕ) → ℕ → ℕ → ℕ → Type 0
HoldsLong base log slave lba sec_count =
    (latest (base + 3) log
        + 2 ^ 8 * latest (base + 4) log
        + 2 ^ 16 * latest (base + 5) log
        + 2 ^ 24 * previous (base + 3) log
        + 2 ^ 32 * previous (base + 4) log
        + 2 ^ 40 * previous (base + 5) log
      ≡ lba)
    × (latest (base + 2) log + 2 ^ 8 * previous (base + 2) log ≡ sec_count)
    × (latest (base + 6) log ≡ 64 + 16 * slave)
    × (previous (base + 7) log ≡ 0x24)

abbrev long_log : ℕ → ℕ → ℕ → ℕ → List (ℕ × ℕ)
long_log base slave lba sec_count =
    (u16 (base + 7), u8 0xE7)
    ∷ (u16 (base + 7), u8 0x24)
    ∷ (u16 (base + 5), u8 (u8 (shr lba 16)))
    ∷ (u16 (base + 4), u8 (u8 (shr lba 8)))
    ∷ (u16 (base + 3), u8 (u8 lba))
    ∷ (u16 (base + 2), u8 (bit_and sec_count 0xFF))
    ∷ (u16 (base + 5), u8 (u8 (shr lba 40)))
    ∷ (u16 (base + 4), u8 (u8 (shr lba 32)))
    ∷ (u16 (base + 3), u8 (u8 (shr lba 24)))
    ∷ (u16 (base + 2), u8 (shr sec_count 8))
    ∷ (u16 (base + 6), u8 (bit_or 0x40 (shl slave 4)))
    ∷ []

request-long :
    (dev : AtaDevice) (lba sec_count : ℕ)
    → dev.lba48 ≢ 0
    → request dev lba sec_count ≡ long_log (io_base dev.bus) dev.slave lba sec_count
unfolding ata_read_sectors outb
request-long dev lba sec_count long = rw (==_ne dev.lba48 0 long) refl

long_primary :
    (slave lba sec_count : ℕ)
    → slave ≤ 1
    → lba < 2 ^ 48
    → sec_count < 2 ^ 16
    → HoldsLong 0x1F0 (long_log 0x1F0 slave lba sec_count) slave lba sec_count
long_primary slave lba sec_count one h n =
    let drive = drive_long slave one in
    let low = bit_and_low 8 sec_count in
    (omega arith, omega (arith, low), omega (arith, drive), refl)

long_secondary :
    (slave lba sec_count : ℕ)
    → slave ≤ 1
    → lba < 2 ^ 48
    → sec_count < 2 ^ 16
    → HoldsLong 0x170 (long_log 0x170 slave lba sec_count) slave lba sec_count
long_secondary slave lba sec_count one h n =
    let drive = drive_long slave one in
    let low = bit_and_low 8 sec_count in
    (omega arith, omega (arith, low), omega (arith, drive), refl)

-- The same with numbers of 28 bits; the bit for the drive is that of the other one.
abbrev pub HoldsShort : ℕ → List (ℕ × ℕ) → ℕ → ℕ → ℕ → Type 0
HoldsShort base log slave lba sec_count =
    (latest (base + 3) log
        + 2 ^ 8 * latest (base + 4) log
        + 2 ^ 16 * latest (base + 5) log
        + 2 ^ 24 * (latest (base + 6) log % 16)
      ≡ lba)
    × (latest (base + 2) log ≡ sec_count)
    × (latest (base + 6) log / 16 ≡ 14 + (1 - slave))
    × (previous (base + 7) log ≡ 0x20)

-- The byte for the drive.
abbrev short_drive : ℕ → ℕ → ℕ
short_drive slave lba =
    bit_or (bit_or 0xE0 (shl (if slave == 0 then 1 else 0) 4)) (bit_and (shr (u32 lba) 24) 0x0F)

abbrev short_log : ℕ → ℕ → ℕ → ℕ → List (ℕ × ℕ)
short_log base slave lba sec_count =
    (u16 (base + 7), u8 0xE7)
    ∷ (u16 (base + 7), u8 0x20)
    ∷ (u16 (base + 5), u8 (u8 (shr (u32 lba) 16)))
    ∷ (u16 (base + 4), u8 (u8 (shr (u32 lba) 8)))
    ∷ (u16 (base + 3), u8 (u8 (u32 lba)))
    ∷ (u16 (base + 2), u8 sec_count)
    ∷ (u16 (base + 6), u8 (short_drive slave lba))
    ∷ (u16 (base + 1), u8 0)
    ∷ []

request-short :
    (dev : AtaDevice) (lba sec_count : ℕ)
    → dev.lba48 ≡ 0
    → request dev lba sec_count ≡ short_log (io_base dev.bus) dev.slave lba sec_count
unfolding ata_read_sectors outb
request-short dev lba sec_count short = rw ((==_iff dev.lba48 0).1 short) refl

drive_short :
    (slave lba : ℕ)
    → slave ≤ 1
    → lba < 2 ^ 28
    → short_drive slave lba ≡ (14 + (1 - slave)) * 16 + lba / 2 ^ 24
drive_short zero lba one h =
    let low = bit_and_low 4 (u32 lba / 2 ^ 24) in
    let part : u32 lba / 2 ^ 24 % 2 ^ 4 ≡ lba / 2 ^ 24 = omega arith in
    rw (low, part) (bit_or_add 4 15 (lba / 2 ^ 24) (omega arith))
drive_short (suc zero) lba one h =
    let low = bit_and_low 4 (u32 lba / 2 ^ 24) in
    let part : u32 lba / 2 ^ 24 % 2 ^ 4 ≡ lba / 2 ^ 24 = omega arith in
    rw (low, part) (bit_or_add 4 14 (lba / 2 ^ 24) (omega arith))
drive_short (suc (suc s)) lba one h = absurd (omega arith)

short_primary :
    (slave lba sec_count : ℕ)
    → slave ≤ 1
    → lba < 2 ^ 28
    → sec_count < 2 ^ 8
    → HoldsShort 0x1F0 (short_log 0x1F0 slave lba sec_count) slave lba sec_count
short_primary slave lba sec_count one h n =
    let drive = drive_short slave lba one h in
    (omega (arith, drive), omega arith, omega (arith, drive), refl)

short_secondary :
    (slave lba sec_count : ℕ)
    → slave ≤ 1
    → lba < 2 ^ 28
    → sec_count < 2 ^ 8
    → HoldsShort 0x170 (short_log 0x170 slave lba sec_count) slave lba sec_count
short_secondary slave lba sec_count one h n =
    let drive = drive_short slave lba one h in
    (omega (arith, drive), omega arith, omega (arith, drive), refl)

-- For a master or a slave, the registers of its bus hold what `ata_read_sectors` is asked for: for
-- a disk with numbers of 48 bits the sector and the number of sectors, in two halves, and the
-- drive; for another the sector in 28 bits and the number of sectors in 8, but the other drive.
pub ata_read_sectors-registers :
    (dev : AtaDevice) (lba sec_count : ℕ)
    → dev.slave ≤ 1
    → (dev.lba48 ≢ 0
        → lba < 2 ^ 48
        → sec_count < 2 ^ 16
        → HoldsLong (io_base dev.bus) (request dev lba sec_count) dev.slave lba sec_count)
      × (dev.lba48 ≡ 0
          → lba < 2 ^ 28
          → sec_count < 2 ^ 8
          → HoldsShort (io_base dev.bus) (request dev lba sec_count) dev.slave lba sec_count)
ata_read_sectors-registers dev lba sec_count one = (
  λ long h n.
      subst (λ log. HoldsLong (io_base dev.bus) log dev.slave lba sec_count)
        (sym (request-long dev lba sec_count long))
        (elim (Bool-cases (dev.bus == 0)) [
          | inl b ↦
              subst
                (λ base.
                  HoldsLong base (long_log base dev.slave lba sec_count) dev.slave lba sec_count)
                (sym (io_primary dev.bus b)) (long_primary dev.slave lba sec_count one h n)
          | inr b ↦
              subst
                (λ base.
                  HoldsLong base (long_log base dev.slave lba sec_count) dev.slave lba sec_count)
                (sym (io_secondary dev.bus b)) (long_secondary dev.slave lba sec_count one h n)
        ]),
  λ short h n.
      subst (λ log. HoldsShort (io_base dev.bus) log dev.slave lba sec_count)
        (sym (request-short dev lba sec_count short))
        (elim (Bool-cases (dev.bus == 0)) [
          | inl b ↦
              subst
                (λ base.
                  HoldsShort base (short_log base dev.slave lba sec_count) dev.slave lba sec_count)
                (sym (io_primary dev.bus b)) (short_primary dev.slave lba sec_count one h n)
          | inr b ↦
              subst
                (λ base.
                  HoldsShort base (short_log base dev.slave lba sec_count) dev.slave lba sec_count)
                (sym (io_secondary dev.bus b)) (short_secondary dev.slave lba sec_count one h n)
        ]),
)
