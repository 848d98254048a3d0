-- ===== src/Drivers/Ports.antt =====
-- The ports of io.c, and pit.c and serial.c on them. What is behind the ports is a parameter.
use smpl_osv.Base.{ℕ, zero, suc, ◌+◌, ◌/◌, true, false, Option, none, some, ◌==◌, bit_and}
use smpl_osv.Base.Bits.{u8, u16, u32, shr}

-- The devices behind the ports: a write or a read of so many bits.
pub record Device (S : Type 0) : Type 0 where
  pub write : ℕ → ℕ → ℕ → S → S
  pub read : ℕ → ℕ → S → ℕ × S

module _ {S : Type 0} (d : Device S) where
  unfoldable pub outb : ℕ → ℕ → S → S
  outb port value s = d.write 8 (u16 port) (u8 value) s

  unfoldable pub outw : ℕ → ℕ → S → S
  outw port value s = d.write 16 (u16 port) (u16 value) s

  unfoldable pub outl : ℕ → ℕ → S → S
  outl port value s = d.write 32 (u16 port) (u32 value) s

  unfoldable pub inb : ℕ → S → ℕ × S
  inb port s = let (v, s') = d.read 8 (u16 port) s in (u8 v, s')

  unfoldable pub inw : ℕ → S → ℕ × S
  inw port s = let (v, s') = d.read 16 (u16 port) s in (u16 v, s')

  unfoldable pub inl : ℕ → S → ℕ × S
  inl port s = let (v, s') = d.read 32 (u16 port) s in (u32 v, s')

  -- The divisor of the timer's frequency, with a positive `hz`.
  pub pit_phase : ℕ → S → S
  unfolding outb
  pit_phase hz s =
      let divisor = 1193180 / hz in
      outb 0x40 (bit_and (shr divisor 8) 0xFF) (outb 0x40 (bit_and divisor 0xFF) (outb 0x43 0x34 s))

  pub is_transmit_empty : S → ℕ × S
  unfolding inb
  is_transmit_empty s = let (v, s') = inb (0x3F8 + 5) s in (bit_and v 0x20, s')

  -- The wait for the line takes fuel.
  pub serial_putchar : ℕ → ℕ → S → Option S
  unfolding is_transmit_empty outb
  serial_putchar zero c s = none
  serial_putchar (suc fuel) c s =
      let (ready, s') = is_transmit_empty s in
      elim (ready == 0) [ true ↦ serial_putchar fuel c s' | false ↦ some (outb 0x3F8 c s') ]
