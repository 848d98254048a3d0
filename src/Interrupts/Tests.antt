-- ===== src/Interrupts/Tests.antt =====
-- The theorems on interrupts at small tables.
use Prim.Native.String.{String}
use smpl_osv.Base.{
  ℕ, ◌+◌, ◌-◌, ◌≤◌, ◌<◌, ◌≡◌, refl, ◌≢◌, some, none, [], ◌∷◌, ◌++◌, arith, get_elem?, ltb,
  if◌then◌else◌,
}
use smpl_osv.Base.Bits.{u8}
use smpl_osv.Interrupts.Gates.{IsGate, setup_idt-IsGate}
use smpl_osv.Interrupts.Handlers.{
  irq_handler, irq_end, fault_handler, panic_messages, panicked, called,
}
use smpl_osv.Interrupts.Handlers.Dispatch.{setup_idt-fault_handler, irq_handler-acknowledges}
use smpl_osv.Interrupts.{Registers, Handler, syscall_handler, Interrupts, zero_gate, setup_idt}

abbrev empty : Interrupts
empty = record {
  gates = λ _. zero_gate;
  idt_ptr = record { pad = 0; limit = 0; offset = 0 };
  handlers = λ _. none;
  syscalls = λ _. none;
  ports = [];
}

abbrev isrs : ℕ → ℕ
isrs _ = 0xffff800000100000

abbrev irqs : ℕ → ℕ
irqs _ = 0xffff800000200000

abbrev interrupt : ℕ → Registers
interrupt n = record {
  r15 = 0;
  r14 = 0;
  r13 = 0;
  r12 = 0;
  r11 = 0;
  r10 = 0;
  r9 = 0;
  r8 = 0;
  rsp = 0;
  rdi = 0;
  rsi = 0;
  rbp = 0;
  rdx = 0;
  rcx = 0;
  rbx = 0;
  rax = 0;
  int_no = n;
  err_code = 0;
  rip = 0;
  cs = 0;
  rflags = 0;
  userrsp = 0;
  ss = 0;
}

abbrev fault : Registers
fault = interrupt 13

abbrev no_effect : Handler → Registers → Interrupts → Registers × Interrupts
no_effect h r s = (r, s)

setup_idt-IsGate_example :
    ((v : ℕ) → v < 32 → IsGate ((setup_idt isrs irqs 0x5000 empty).gates v) (isrs v) 0x8E)
    × ((n : ℕ) → n < 16 → IsGate ((setup_idt isrs irqs 0x5000 empty).gates (32 + n)) (irqs n) 0x8E)
    × IsGate ((setup_idt isrs irqs 0x5000 empty).gates 127) (isrs 127) 0xEE
    × ((v : ℕ)
        → 48 ≤ v
        → v < 256
        → v ≢ 127
        → (setup_idt isrs irqs 0x5000 empty).gates v ≡ zero_gate)
setup_idt-IsGate_example =
    setup_idt-IsGate isrs irqs 0x5000 empty (λ i. omega arith) (λ i. omega arith)

setup_idt-fault_handler_example :
    let s' = setup_idt isrs irqs 0x5000 empty in
    (fault.int_no < 32
      → (message : String) × (get_elem? panic_messages fault.int_no ≡ some message)
        × (fault_handler fault s' ≡ panicked message))
    × (fault.int_no ≡ 127 → fault_handler fault s' ≡ called syscall_handler)
    × (fault.int_no ≡ 32
        → irq_handler no_effect fault s' ≡ some (fault, irq_end (u8 (fault.int_no + 256 - 32)) s'))
setup_idt-fault_handler_example =
    setup_idt-fault_handler isrs irqs 0x5000 empty no_effect fault (λ v. refl)

irq_handler-acknowledges_example :
    (s' : Interrupts) × (irq_handler no_effect (interrupt 44) empty ≡ some (interrupt 44, s'))
    × (s'.ports ≡ (0x20, 0x20) ∷ (if ltb 44 40 then [] else (0xA0, 0x20) ∷ []) ++ [])
irq_handler-acknowledges_example =
    irq_handler-acknowledges no_effect (interrupt 44) empty (omega arith) (omega arith)
      (omega arith)
