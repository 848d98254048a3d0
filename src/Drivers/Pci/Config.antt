-- ===== src/Drivers/Pci/Config.antt =====
-- What `pci_config_read_word` of pci.c reads from a bus.
use smpl_osv.Base.{
  ℕ, ◌+◌, ◌-◌, ◌*◌, ◌/◌, ◌%◌, ◌^◌, ◌<◌, ◌≡◌, refl, arith, true, ◌==◌, ==_iff, Bool-cases, inl, inr,
  if◌then◌else◌, bit_and, ◌&&◌,
}
use smpl_osv.Base.Bits.{u32, bit_or_add, add-bit_or}
use smpl_osv.Drivers.Ports.{Device, outl}
use smpl_osv.Drivers.Ports.{inl as in32}
use smpl_osv.Drivers.Pci.{config_address, pci_config_read_word}
use smpl_osv.Loader.Div.Shift.{all_below, all_below-true}

-- A bus with this configuration space, by bus, slot, function and register of four bytes. The state
-- is the address that was written last; bit 31 enables it.
abbrev pub pci_bus : (ℕ → ℕ → ℕ → ℕ → ℕ) → Device ℕ
pci_bus space = record {
  write = λ w port v s. if port == 0xCF8 then v else s;
  read = λ w port s. (
    if port == 0xCFC && s / 2 ^ 31 == 1
        then space (s / 2 ^ 16 % 256) (s / 2 ^ 11 % 32) (s / 2 ^ 8 % 8) (s / 4 % 64)
        else 2 ^ 32 - 1,
    s,
  );
}

and_fc_table : all_below (λ x. bit_and x 0xFC == x / 4 * 4) 256 ≡ true
and_fc_table = refl

and_2_table : all_below (λ x. bit_and x 2 == x / 2 % 2 * 2) 256 ≡ true
and_2_table = refl

and_fc : (x : ℕ) → x < 256 → bit_and x 0xFC ≡ x / 4 * 4
and_fc x h = (==_iff _ _).0 (all_below-true (λ y. bit_and y 0xFC == y / 4 * 4) 256 and_fc_table x h)

and_2 : (x : ℕ) → x < 256 → bit_and x 2 ≡ x / 2 % 2 * 2
and_2 x h = (==_iff _ _).0 (all_below-true (λ y. bit_and y 2 == y / 2 % 2 * 2) 256 and_2_table x h)

config_address-sum :
    (bus slot func offset : ℕ)
    → bus < 256
    → slot < 32
    → func < 8
    → offset < 256
    → config_address bus slot func offset
      ≡ 2 ^ 31 + bus * 2 ^ 16 + slot * 2 ^ 11 + func * 2 ^ 8 + offset / 4 * 4
unfolding config_address
config_address-sum bus slot func offset hb hs hf ho =
    let a = bit_or_add 16 bus (slot * 2 ^ 11) (omega arith) in
    let b = bit_or_add 11 (bus * 32 + slot) (func * 2 ^ 8) (omega arith) in
    let c = bit_or_add 8 ((bus * 32 + slot) * 8 + func) (offset / 4 * 4) (omega arith) in
    let low = ((bus * 32 + slot) * 8 + func) * 2 ^ 8 + offset / 4 * 4 in
    let e = add-bit_or 31 1 low (omega arith) in
    let ab : bus * 2 ^ 16 + slot * 2 ^ 11 ≡ (bus * 32 + slot) * 2 ^ 11 = omega arith in
    let bc : (bus * 32 + slot) * 2 ^ 11 + func * 2 ^ 8 ≡ ((bus * 32 + slot) * 8 + func) * 2 ^ 8 =
      omega arith in
    rw (a, ab, b, bc, and_fc offset ho, c) (omega arith)

-- What the bus answers for an address whose parts are these.
bus_answer :
    (space : ℕ → ℕ → ℕ → ℕ → ℕ) (a bus slot func register s : ℕ)
    → a ≡ 2 ^ 31 + bus * 2 ^ 16 + slot * 2 ^ 11 + func * 2 ^ 8 + register * 4
    → bus < 256
    → slot < 32
    → func < 8
    → register < 64
    → (in32 (pci_bus space) 0xCFC (outl (pci_bus space) 0xCF8 a s)).0
      ≡ u32 (space bus slot func register)
unfolding in32 outl
bus_answer space a bus slot func register s e hb hs hf hr =
    let whole : a % 2 ^ 32 ≡ a = omega arith in
    let enabled : (a / 2 ^ 31 == 1) ≡ true = (==_iff _ 1).1 (omega arith) in
    let b : a / 2 ^ 16 % 256 ≡ bus = omega arith in
    let sl : a / 2 ^ 11 % 32 ≡ slot = omega arith in
    let f : a / 2 ^ 8 % 8 ≡ func = omega arith in
    let r : a / 4 % 64 ≡ register = omega arith in rw (whole, enabled, b, sl, f, r) refl

-- For numbers in range, `pci_config_read_word` reads from a bus the half of the register at the
-- offset that bit 1 of the offset selects.
pub pci_config_read_word-pci_bus :
    (space : ℕ → ℕ → ℕ → ℕ → ℕ) (bus slot func offset s : ℕ)
    → bus < 256
    → slot < 32
    → func < 8
    → offset < 256
    → space bus slot func (offset / 4) < 2 ^ 32
    → (pci_config_read_word (pci_bus space) bus slot func offset s).0 ≡ (
        if offset / 2 % 2 == 1
        then space bus slot func (offset / 4) / 2 ^ 16
        else space bus slot func (offset / 4) % 2 ^ 16)
unfolding pci_config_read_word
pci_config_read_word-pci_bus space bus slot func offset s hb hs hf ho hv =
    let answer =
      bus_answer space (config_address bus slot func offset) bus slot func (offset / 4) s
        (config_address-sum bus slot func offset hb hs hf ho) hb hs hf (omega arith) in
    let shift = and_2 offset ho in
    let whole : u32 (space bus slot func (offset / 4)) ≡ space bus slot func (offset / 4) =
      omega arith in
    elim (Bool-cases (offset / 2 % 2 == 1)) [
      | inl h ↦
          let one : offset / 2 % 2 ≡ 1 = (==_iff _ _).0 h in
          rw (answer, whole, shift, one) (omega arith)
      | inr h ↦
          let zero : offset / 2 % 2 ≡ 0 = ground arith in
          rw (answer, whole, shift, zero) (omega arith)
    ]
