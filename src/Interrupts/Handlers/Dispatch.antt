-- ===== src/Interrupts/Handlers/Dispatch.antt =====
-- Which function an interrupt reaches, and how hardware interrupts are acknowledged.
use Prim.Native.String.{String}
use smpl_osv.Base.{
  ℕ, zero, suc, ◌+◌, ◌-◌, ◌≤◌, ◌<◌, ◌≡◌, refl, ap, ◌∙◌, ◌≢◌, Bool-cases, inl, inr, true, arith, ltb,
  ltb-false, lt→ltb, ltb→lt, Bool, if◌then◌else◌, update, update_self, update_ne, Option, some,
  none, List, [], ◌∷◌, ◌++◌, get_elem?, length,
}
use smpl_osv.Base.Bits.{u8}
use smpl_osv.Interrupts.{
  Registers, Handler, syscall_handler, irq0_listener, Interrupts, outb, setup_idt, set_isr_handler,
  set_irq_handler, setup_syscalls,
}
use smpl_osv.Interrupts.Handlers.{
  called, panicked, panic_messages, fault_handler, irq_end, irq_handler, call_if_set,
}

get_elem?-some :
    {A : Type 0} (xs : List A) (i : ℕ) → i < length xs → (x : A) × (get_elem? xs i ≡ some x)
get_elem?-some [] i l = ground arith
get_elem?-some (x ∷ xs) zero l = (x, refl)
get_elem?-some (x ∷ xs) (suc i) l = get_elem?-some xs i (omega arith)

fault_handler-none :
    (r : Registers) (s : Interrupts) (message : String)
    → r.int_no < 256
    → s.handlers r.int_no ≡ none
    → get_elem? panic_messages r.int_no ≡ some message
    → fault_handler r s ≡ panicked message
unfolding fault_handler
fault_handler-none r s message l e at = rw (lt→ltb r.int_no 256 l, e, at) refl

irq_handler-some :
    (run : Handler → Registers → Interrupts → Registers × Interrupts) (r : Registers)
    (s : Interrupts)
    → r.int_no < 256
    → let (r', s') = call_if_set run (s.handlers r.int_no) r s in
      irq_handler run r s ≡ some (r', irq_end (u8 (r'.int_no + 256 - 32)) s')
unfolding irq_handler
irq_handler-some run r s l = rw (lt→ltb r.int_no 256 l) refl

-- After `setup_idt` on a table without handlers every processor exception panics with its message
-- from the table, interrupt 127 reaches `syscall_handler`, and the first hardware interrupt runs
-- `irq0_listener` and is then acknowledged by the number that the listener leaves in the registers.
pub setup_idt-fault_handler :
    (isr irq : ℕ → ℕ) (idt_entries : ℕ) (s : Interrupts)
    (run : Handler → Registers → Interrupts → Registers × Interrupts) (r : Registers)
    → ((v : ℕ) → s.handlers v ≡ none)
    → let s' = setup_idt isr irq idt_entries s in
      (r.int_no < 32
        → (message : String) × (get_elem? panic_messages r.int_no ≡ some message)
          × (fault_handler r s' ≡ panicked message))
      × (r.int_no ≡ 127 → fault_handler r s' ≡ called syscall_handler)
      × (r.int_no ≡ 32
          → let (r', s'') = run irq0_listener r s' in
            irq_handler run r s' ≡ some (r', irq_end (u8 (r'.int_no + 256 - 32)) s''))
unfolding setup_idt set_isr_handler set_irq_handler setup_syscalls fault_handler irq_handler update
setup_idt-fault_handler isr irq idt_entries s run r empty = (
  λ l.
      let away : r.int_no ≢ 32 = omega arith in
      let off : r.int_no ≢ 127 = omega arith in
      let other =
        update_ne (update s.handlers 127 (some syscall_handler)) 32 (some irq0_listener) r.int_no
          away
        ∙ update_ne s.handlers 127 (some syscall_handler) r.int_no off
        ∙ empty r.int_no in
      let (message, at) = get_elem?-some panic_messages r.int_no (omega arith) in
      (
        message,
        at,
        fault_handler-none r (setup_idt isr irq idt_entries s) message (omega arith) other at,
      ),
  λ e. rw e refl,
  λ e. rw e refl,
)

irq_end-ports :
    (n : ℕ) (s : Interrupts)
    → n < 16
    → (irq_end n s).ports ≡ (0x20, 0x20) ∷ (if ltb n 8 then [] else (0xA0, 0x20) ∷ []) ++ s.ports
unfolding irq_end outb
irq_end-ports n s l = ground arith

-- An interrupt runs its handler, if it has one, and then acknowledges: the first controller last,
-- and before it the second one as the registers say that the handler has left: where the number in
-- them is that of a hardware interrupt, the second one is acknowledged exactly if that came through
-- it.
pub irq_handler-acknowledges :
    (run : Handler → Registers → Interrupts → Registers × Interrupts) (r : Registers)
    (s : Interrupts)
    → r.int_no < 256
    → let (r', s') = call_if_set run (s.handlers r.int_no) r s in
      32 ≤ r'.int_no
      → r'.int_no < 48
      → (s'' : Interrupts) × (irq_handler run r s ≡ some (r', s''))
        × (s''.ports
            ≡ (0x20, 0x20) ∷ (if ltb r'.int_no 40 then [] else (0xA0, 0x20) ∷ []) ++ s'.ports)
unfolding irq_handler irq_end outb
irq_handler-acknowledges run r s small l u =
    let left = call_if_set run (s.handlers r.int_no) r s in
    let n = left.0.int_no in
    let number : u8 (n + 256 - 32) ≡ n - 32 = omega arith in
    let below : ltb (n - 32) 8 ≡ ltb n 40 = ground arith in
    (
      irq_end (u8 (n + 256 - 32)) left.1,
      irq_handler-some run r s small,
      ap (λ k. (irq_end k left.1).ports) number
          ∙ irq_end-ports (n - 32) left.1 (omega arith)
          ∙ ap (λ (b : Bool). (0x20, 0x20) ∷ (if b then [] else (0xA0, 0x20) ∷ []) ++ left.1.ports)
              below,
    )

set_irq_handler-in :
    (n : ℕ) (h : Option Handler) (s : Interrupts)
    → n < 16
    → (set_irq_handler n h s).handlers ≡ update s.handlers (n + 32) h
unfolding set_irq_handler
set_irq_handler-in n h s l =
    let same : u8 n ≡ n = omega arith in rw (same, ltb-false 15 n (omega arith)) refl

set_irq_handler-out :
    (n : ℕ) (h : Option Handler) (s : Interrupts) → 16 ≤ n → n < 256 → set_irq_handler n h s ≡ s
unfolding set_irq_handler
set_irq_handler-out n h s l u = let out : ltb 15 (u8 n) ≡ true = ground arith in rw out refl

-- A handler set for one of the sixteen hardware interrupts is the entry of that interrupt, and no
-- other entry changes; for a number above fifteen nothing changes.
pub set_irq_handler-handlers :
    (n : ℕ) (h : Handler) (s : Interrupts)
    → n < 256
    → let s' = set_irq_handler n (some h) s in
      (n < 16 → s'.handlers (n + 32) ≡ some h)
      × ((v : ℕ) → v ≢ n + 32 → s'.handlers v ≡ s.handlers v)
      × (16 ≤ n → s' ≡ s)
unfolding set_irq_handler update
set_irq_handler-handlers n h s f = (
  λ u.
      ap (λ t. t (n + 32)) (set_irq_handler-in n (some h) s u)
      ∙ update_self s.handlers (n + 32) (some h),
  λ v ne. elim (Bool-cases (ltb n 16)) [
    | inl b ↦
        ap (λ t. t v) (set_irq_handler-in n (some h) s (ltb→lt n 16 b))
        ∙ update_ne s.handlers (n + 32) (some h) v ne
    | inr b ↦ ap (λ t. t.handlers v) (set_irq_handler-out n (some h) s (ground arith) f)
  ],
  λ l. set_irq_handler-out n (some h) s l f,
)
