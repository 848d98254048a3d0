-- ===== src/Interrupts/Handlers.antt =====
-- What the kernel does when an interrupt comes: interrupts.c's `fault_handler`, `irq_handler` and
-- `syscall_handler`, which the assembly entry points call.
pub mod Dispatch
use Prim.Native.String.{String}
use smpl_osv.Base.{
  ℕ, ◌+◌, ◌-◌, Option, none, some, List, [], ◌∷◌, if◌then◌else◌, ltb, leb, get_elem?,
}
use smpl_osv.Base.Bits.{u8}
use smpl_osv.Interrupts.{Registers, Handler, Syscall, test_syscall, other_syscall, Interrupts, outb}

-- `panic_messages`.
abbrev pub panic_messages : List String
panic_messages =
    "Division by zero" ∷ "Debug" ∷ "Non-maskable interrupt" ∷ "Breakpoint" ∷ "Detected overflow"
    ∷ "Out-of-bounds" ∷ "Invalid opcode" ∷ "No coprocessor" ∷ "Double fault"
    ∷ "Coprocessor segment overrun" ∷ "Bad TSS" ∷ "Segment not present" ∷ "Stack fault"
    ∷ "General protection fault" ∷ "Page fault" ∷ "Unknown interrupt" ∷ "Coprocessor fault"
    ∷ "Alignment check" ∷ "Machine check" ∷ "Reserved" ∷ "Reserved" ∷ "Reserved" ∷ "Reserved"
    ∷ "Reserved" ∷ "Reserved" ∷ "Reserved" ∷ "Reserved" ∷ "Reserved" ∷ "Reserved" ∷ "Reserved"
    ∷ "Reserved" ∷ "Reserved" ∷ []

-- How a handler is left: with a call of another, by returning, by a panic, or by a read out of a
-- table's bounds.
pub data Outcome : Type 0 where
  called : Handler → Outcome
  returned : Outcome
  panicked : String → Outcome
  undefined : Outcome

abbrev pub call_or_panic : Option Handler → Option String → Outcome
call_or_panic (some handler) message = called handler
call_or_panic none (some message) = panicked message
call_or_panic none none = undefined

pub fault_handler : Registers → Interrupts → Outcome
fault_handler r s =
    if ltb r.int_no 256
    then call_or_panic (s.handlers r.int_no) (get_elem? panic_messages r.int_no)
    else undefined

pub irq_end : ℕ → Interrupts → Interrupts
unfolding outb
irq_end int_no s =
    let slave = if leb 8 (u8 int_no) then outb 0xA0 0x20 s else s in outb 0x20 0x20 slave

module _ (run : Handler → Registers → Interrupts → Registers × Interrupts) where
  abbrev pub call_if_set : Option Handler → Registers → Interrupts → Registers × Interrupts
  call_if_set (some handler) r s = run handler r s
  call_if_set none r s = (r, s)

  -- `run` is what the called handler does, also to the registers that it gets a pointer to; the
  -- number of the interrupt is read from them when it has returned.
  pub irq_handler : Registers → Interrupts → Option (Registers × Interrupts)
  unfolding irq_end
  irq_handler r s =
      let (r', s') = call_if_set (s.handlers r.int_no) r s in
      if ltb r.int_no 256 then some (r', irq_end (u8 (r'.int_no + 256 - 32)) s') else none

abbrev pub get_syscall : ℕ → Interrupts → Option Syscall
get_syscall id s = if ltb id 256 then s.syscalls id else none

-- `run` is what the system calls of modules return. The log line of `test_syscall` is left out.
pub run_syscall : (ℕ → ℕ) → Syscall → ℕ
run_syscall run test_syscall = 0xAABBCCDD
run_syscall run (other_syscall f) = run f

-- A missing entry is called all the same, which nothing defines.
pub handle_syscall : (ℕ → ℕ) → Registers → Interrupts → Option Registers
unfolding run_syscall
handle_syscall run regs s = elim (get_syscall regs.rax s) [
  | some sys ↦ some (record regs { rax = run_syscall run sys })
  | none ↦ none
]
