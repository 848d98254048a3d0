-- ===== src/Interrupts/Gates.antt =====
-- The gates that `setup_idt` leaves, as the processor reads them.
use smpl_osv.Base.{
  ℕ, zero, suc, ◌+◌, ◌*◌, ◌/◌, ◌^◌, ◌≤◌, ◌<◌, ◌≡◌, refl, sym, ◌∙◌, ◌≢◌, ◌⊎◌, inl, inr, Bool-cases,
  true, arith, ltb, lt→ltb, ◌==◌, ==_iff, if◌then◌else◌, update, update_ne,
}
use mathlib.Core.Path.{subst}
use smpl_osv.Base.Bits.{u8, bit_and_low}
use smpl_osv.Interrupts.{
  Gate, Interrupts, zero_gate, set_gate, set_gates, setup_idt, set_isr_handler, set_irq_handler,
  setup_syscalls,
}

-- The entry point that a gate holds.
abbrev pub target : Gate → ℕ
target g = g.offset_1 + g.offset_2 * 2 ^ 16 + g.offset_3 * 2 ^ 32

-- A present gate to `base` through the kernel's code segment.
pub record IsGate (g : Gate) (base flags : ℕ) : Type 0 where
  to_base : target g ≡ base
  segment : g.selector ≡ 0x08
  flags_set : g.type_attr ≡ flags
  no_stack : g.ist ≡ 0
  zeroed : g.reserved ≡ 0

set_gate_self :
    (num base flags : ℕ) (gates : ℕ → Gate)
    → num < 256
    → base < 2 ^ 64
    → flags < 256
    → IsGate (set_gate num base 0x08 flags gates num) base flags
unfolding set_gate update
set_gate_self num base flags gates n b f =
    let here : (num == u8 num) ≡ true = ground arith in
    rw here (record {
      to_base = ground (arith, bit_and_low 16 base, bit_and_low 16 (base / 2 ^ 16));
      segment = refl;
      flags_set = omega arith;
      no_stack = refl;
      zeroed = refl;
    })

set_gate_ne :
    (num base sel flags : ℕ) (gates : ℕ → Gate) (v : ℕ)
    → num < 256
    → v ≢ num
    → set_gate num base sel flags gates v ≡ gates v
unfolding set_gate
set_gate_ne num base sel flags gates v n ne = update_ne gates (u8 num) _ v (omega arith)

set_gates-inside :
    (first : ℕ) (entry : ℕ → ℕ) (n : ℕ) (gates : ℕ → Gate) (v : ℕ)
    → first + n ≤ 256
    → ((i : ℕ) → entry i < 2 ^ 64)
    → v < n
    → IsGate (set_gates first entry n gates (first + v)) (entry v) 0x8E
unfolding set_gates
set_gates-inside first entry zero gates v f w l = ground arith
set_gates-inside first entry (suc n) gates v f w l =
    let rest = set_gates first entry n gates in
    elim (Bool-cases (v == n)) [
      | inl e ↦
          subst
            (λ k. IsGate (set_gate (first + n) (entry n) 0x08 0x8E rest (first + k)) (entry k) 0x8E)
            (sym ((==_iff v n).0 e))
            (set_gate_self (first + n) (entry n) 0x8E rest (omega arith) (w n) (omega arith))
      | inr e ↦
          let ne : v ≢ n = ground arith in
          subst (λ g. IsGate g (entry v) 0x8E)
            (sym (
              set_gate_ne (first + n) (entry n) 0x08 0x8E rest (first + v) (omega arith)
                (omega arith)))
            (set_gates-inside first entry n gates v (omega arith) w (omega arith))
    ]

set_gates-outside :
    (first : ℕ) (entry : ℕ → ℕ) (n : ℕ) (gates : ℕ → Gate) (v : ℕ)
    → first + n ≤ 256
    → (v < first) ⊎ (first + n ≤ v)
    → set_gates first entry n gates v ≡ gates v
unfolding set_gates
set_gates-outside first entry zero gates v f out = refl
set_gates-outside first entry (suc n) gates v f out =
    set_gate_ne (first + n) (entry n) 0x08 0x8E _ v (omega arith) (omega arith)
    ∙ set_gates-outside first entry n gates v (omega arith) (omega arith)

module _ (isr irq : ℕ → ℕ) (idt_entries : ℕ) (s : Interrupts) (isr_fits : (i : ℕ) → isr i < 2 ^ 64)
    (irq_fits : (i : ℕ) → irq i < 2 ^ 64) where
  abbrev cleared : ℕ → Gate
  cleared num = if ltb num 256 then zero_gate else s.gates num

  abbrev faults : ℕ → Gate
  faults = set_gates 0 isr 32 cleared

  abbrev irqs : ℕ → Gate
  irqs = set_gates 32 irq 16 faults

  last-other : (v : ℕ) → v ≢ 127 → (setup_idt isr irq idt_entries s).gates v ≡ irqs v
  unfolding setup_idt set_irq_handler set_isr_handler setup_syscalls
  last-other v ne = set_gate_ne 127 (isr 127) 0x08 0xEE irqs v (omega arith) ne

  -- With entry points of 64 bits, `setup_idt` leaves a gate to each exception's entry point, one to
  -- each of the sixteen hardware interrupts', the one of interrupt 127 that user code may call, and
  -- no other among the 256.
  pub setup_idt-IsGate :
      ((v : ℕ) → v < 32 → IsGate ((setup_idt isr irq idt_entries s).gates v) (isr v) 0x8E)
      × ((n : ℕ) → n < 16 → IsGate ((setup_idt isr irq idt_entries s).gates (32 + n)) (irq n) 0x8E)
      × IsGate ((setup_idt isr irq idt_entries s).gates 127) (isr 127) 0xEE
      × ((v : ℕ)
          → 48 ≤ v
          → v < 256
          → v ≢ 127
          → (setup_idt isr irq idt_entries s).gates v ≡ zero_gate)
  unfolding setup_idt set_irq_handler set_isr_handler setup_syscalls
  setup_idt-IsGate = (
    λ v l.
        subst (λ g. IsGate g (isr v) 0x8E)
          (sym (
            last-other v (omega arith)
            ∙ set_gates-outside 32 irq 16 faults v (omega arith) (omega arith)))
          (subst (λ k. IsGate (faults k) (isr v) 0x8E) (omega arith)
            (set_gates-inside 0 isr 32 cleared v (omega arith) isr_fits l)),
    λ n l.
        subst (λ g. IsGate g (irq n) 0x8E) (sym (last-other (32 + n) (omega arith)))
          (set_gates-inside 32 irq 16 faults n (omega arith) irq_fits l),
    set_gate_self 127 (isr 127) 0xEE irqs (omega arith) (isr_fits 127) (omega arith),
    λ v l u ne.
        last-other v ne
        ∙ set_gates-outside 32 irq 16 faults v (omega arith) (omega arith)
        ∙ set_gates-outside 0 isr 32 cleared v (omega arith) (omega arith)
        ∙ rw (lt→ltb v 256 u) refl,
  )
