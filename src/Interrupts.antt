-- ===== src/Interrupts.antt =====
-- The kernel's interrupts, src/kernel/src/int/interrupts.c and syscall.c: the gates, the tables of
-- handlers and system calls, and the writes to the interrupt controllers, newest first.
pub mod Gates
pub mod Handlers
mod Tests
use Prim.Native.String.{String}
use smpl_osv.Base.{
  ℕ, zero, suc, ◌+◌, ◌-◌, ◌*◌, ◌≡◌, Bool, true, false, Option, none, some, List, [], ◌∷◌, ◌==◌,
  if◌then◌else◌, ltb, leb, bit_and, bit_or, update, get_elem?,
}
use smpl_osv.Base.Bits.{u8, u16, u32, u64, shr}

-- `struct idt_descriptor`; its field `zero` is `reserved` here.
pub record Gate : Type 0 where
  offset_1 : ℕ
  selector : ℕ
  ist : ℕ
  type_attr : ℕ
  offset_2 : ℕ
  offset_3 : ℕ
  reserved : ℕ

pub record IdtPtr : Type 0 where
  pad : ℕ
  limit : ℕ
  offset : ℕ

-- `struct registers`.
pub record Registers : Type 0 where
  pub r15 : ℕ
  pub r14 : ℕ
  pub r13 : ℕ
  pub r12 : ℕ
  pub r11 : ℕ
  pub r10 : ℕ
  pub r9 : ℕ
  pub r8 : ℕ
  pub rsp : ℕ
  pub rdi : ℕ
  pub rsi : ℕ
  pub rbp : ℕ
  pub rdx : ℕ
  pub rcx : ℕ
  pub rbx : ℕ
  pub rax : ℕ
  pub int_no : ℕ
  pub err_code : ℕ
  pub rip : ℕ
  pub cs : ℕ
  pub rflags : ℕ
  pub userrsp : ℕ
  pub ss : ℕ

-- The functions whose addresses the kernel installs, and those of the modules.
pub data Handler : Type 0 where
  syscall_handler : Handler
  irq0_listener : Handler
  driver : ℕ → Handler

pub data Syscall : Type 0 where
  test_syscall : Syscall
  other_syscall : ℕ → Syscall

-- An absent entry is a null pointer.
pub record Interrupts : Type 0 where
  gates : ℕ → Gate
  idt_ptr : IdtPtr
  handlers : ℕ → Option Handler
  syscalls : ℕ → Option Syscall
  ports : List (ℕ × ℕ)

abbrev pub zero_gate : Gate
zero_gate = record {
  offset_1 = 0;
  selector = 0;
  ist = 0;
  type_attr = 0;
  offset_2 = 0;
  offset_3 = 0;
  reserved = 0;
}

pub set_gate : ℕ → ℕ → ℕ → ℕ → (ℕ → Gate) → ℕ → Gate
set_gate num base sel flags gates = update gates (u8 num) (record {
  reserved = 0;
  ist = 0;
  selector = u8 sel;
  type_attr = u8 flags;
  offset_1 = bit_and base 0xFFFF;
  offset_2 = bit_and (shr base 16) 0xFFFF;
  offset_3 = u32 (shr base 32);
})

-- `set_gate(num, base, 0x08, 0x8E)` for the entry points from `first` on, in ascending order.
pub set_gates : ℕ → (ℕ → ℕ) → ℕ → (ℕ → Gate) → ℕ → Gate
unfolding set_gate
set_gates first entry zero gates = gates
set_gates first entry (suc n) gates =
    set_gate (first + n) (entry n) 0x08 0x8E (set_gates first entry n gates)

pub set_isr_handler : ℕ → Option Handler → Interrupts → Interrupts
set_isr_handler interrupt handler s = record s {
  handlers = update s.handlers (u8 interrupt) handler;
}

-- The `warning` is left out.
pub set_irq_handler : ℕ → Option Handler → Interrupts → Interrupts
set_irq_handler interrupt handler s =
    let n = u8 interrupt in
    if ltb 15 n then s else record s { handlers = update s.handlers (n + 32) handler }

pub setup_syscalls : Interrupts → Interrupts
setup_syscalls s = record s { syscalls = update s.syscalls 0 (some test_syscall) }

-- The entry points `isr0` to `isr31` and `isr127`, `irq0` to `irq15`, and the address of
-- `idt_entries`.
pub setup_idt : (ℕ → ℕ) → (ℕ → ℕ) → ℕ → Interrupts → Interrupts
unfolding set_gate set_gates set_isr_handler set_irq_handler setup_syscalls
setup_idt isr irq idt_entries s =
    let cleared : ℕ → Gate = λ num. if ltb num 256 then zero_gate else s.gates num in
    let faults = set_gates 0 isr 32 cleared in
    let irqs = set_gates 32 irq 16 faults in
    let gates = set_gate 127 (isr 127) 0x08 0xEE irqs in
    let table : IdtPtr = record { pad = 0; limit = u16 (16 * 256 - 1); offset = u64 idt_entries } in
    let loaded = record s { gates = gates; idt_ptr = table } in
    setup_syscalls
      (set_irq_handler 0 (some irq0_listener) (set_isr_handler 127 (some syscall_handler) loaded))

pub outb : ℕ → ℕ → Interrupts → Interrupts
outb port value s = record s { ports = (port, u8 value) ∷ s.ports }

-- `inb` is what the controller answers after the writes so far.
module _ (inb : List (ℕ × ℕ) → ℕ → ℕ) where
  pub pic1_mask_irq : ℕ → Interrupts → Interrupts
  unfolding outb
  pic1_mask_irq irq_mask s = outb 0x21 (bit_or (inb s.ports 0x21) irq_mask) s

  pub pic2_mask_irq : ℕ → Interrupts → Interrupts
  unfolding outb
  pic2_mask_irq irq_mask s = outb 0xA1 (bit_or (inb s.ports 0xA1) irq_mask) s

  pub setup_pic : Interrupts → Interrupts
  unfolding outb pic1_mask_irq pic2_mask_irq
  setup_pic s =
      let mask = u8 (inb s.ports 0x21) in
      let mask1 = u8 (inb s.ports 0xA1) in
      let cascaded = outb 0xA0 0x11 (outb 0x20 0x11 s) in
      let based = outb 0xA1 0x28 (outb 0x21 0x20 cascaded) in
      let wired = outb 0xA1 2 (outb 0x21 4 based) in
      let moded = outb 0xA1 0x01 (outb 0x21 0x01 wired) in
      let masked = outb 0xA1 mask1 (outb 0x21 mask moded) in
      pic2_mask_irq 0x2F (pic1_mask_irq 0xF8 masked)

  pub setup_interrupts : (ℕ → ℕ) → (ℕ → ℕ) → ℕ → Interrupts → Interrupts
  unfolding setup_pic setup_idt
  setup_interrupts isr irq idt_entries s = setup_idt isr irq idt_entries (setup_pic s)
