-- ===== src/Proc/Tests.antt =====
-- The scheduler with two processes, at addresses 10 and 11.
use smpl_osv.Base.{
  ℕ, ◌+◌, ◌<◌, ◌≡◌, refl, some, none, List, [], ◌∷◌, arith, inl, inr, length, true, if◌then◌else◌,
  ◌==◌, update,
}
use smpl_osv.Interrupts.{Registers}
use smpl_osv.Proc.Rotation.{
  IsScheduled, ticks, ticks-fair, Rotated, ticks-Rotated, after_tick, irq0_listener-step,
}
use smpl_osv.Proc.Resume.{here, irq0_listener-resumes}
use smpl_osv.Proc.Reach.{here, next, start, Reach-irq0_listener}
use smpl_osv.Proc.{Scheduler, Loaded, irq0_listener, exec}

abbrev registers : ℕ → Registers
registers n = record {
  r15 = n;
  r14 = n;
  r13 = n;
  r12 = n;
  r11 = n;
  r10 = n;
  r9 = n;
  r8 = n;
  rsp = n;
  rdi = n;
  rsi = n;
  rbp = n;
  rdx = n;
  rcx = n;
  rbx = n;
  rax = n;
  int_no = 32;
  err_code = 0;
  rip = n;
  cs = n;
  rflags = n;
  userrsp = n;
  ss = n;
}

abbrev two : Scheduler
two = record {
  procs = λ p. record {
    pid = p;
    name = 0;
    address_space = p;
    stack = p;
    kernel_stack = p;
    context = registers p;
  };
  current_process = some 10;
  processes = λ k. 10 + k;
  cpid = 1;
  process_count = 2;
  address_space = 10;
  rsp0 = 10;
}

two-IsScheduled : IsScheduled two
two-IsScheduled = record {
  turn = inl (omega arith);
  fits = omega arith;
  running = inr (10, refl);
  set = λ k l. omega arith;
}

ticks-Rotated_example :
    (s' : Scheduler) × (ticks (registers 7 ∷ registers 8 ∷ []) two ≡ some s') × Rotated two 1 s'
ticks-Rotated_example =
    ticks-Rotated (registers 7) (registers 8 ∷ []) two two-IsScheduled (omega arith)

ticks-fair_example :
    (n : ℕ) × (n < 2)
    × ((regs : Registers) (rest : List Registers)
        → length rest ≡ n
        → (s' : Scheduler) × (ticks (regs ∷ rest) two ≡ some s') × (s'.current_process ≡ some 10))
ticks-fair_example = ticks-fair two 0 two-IsScheduled (omega arith)

abbrev switched : Scheduler
switched = after_tick 10 (registers 7) two

abbrev returned : Scheduler
returned = after_tick 11 (registers 8) switched

switch : irq0_listener (registers 7) two ≡ some (registers 11, switched)
unfolding update
switch = irq0_listener-step (registers 7) two 10 (omega arith) refl (omega arith)

return : irq0_listener (registers 8) switched ≡ some (registers 7, returned)
unfolding update
return = irq0_listener-step (registers 8) switched 11 (omega arith) refl (omega arith)

irq0_listener-resumes_example : (registers 7 ≡ registers 7) × (returned.current_process ≡ some 10)
irq0_listener-resumes_example =
    irq0_listener-resumes 10 (registers 7) (registers 11) (registers 8) (registers 7) two switched
      switched returned (omega arith) refl (omega arith) switch here refl return

abbrev idle : Scheduler
idle = record two { current_process = none; cpid = 0; process_count = 0 }

idle-IsScheduled : IsScheduled idle
idle-IsScheduled = record {
  turn = inr (refl, refl);
  fits = omega arith;
  running = inl refl;
  set = λ k l. absurd (omega arith);
}

abbrev program : Loaded
program = record {
  entry = 0x400000;
  entry_mapped = true;
  space_copy = 0x5000;
  kernel_stack_at = 0x600000;
  proc_at = 20;
  fresh_context = registers 0;
}

abbrev one : Scheduler
one = record idle {
  procs = λ p.
      if p == 20
      then record {
        pid = 0;
        name = 3;
        address_space = 0x5000;
        stack = 0x1400000;
        kernel_stack = 0x800000;
        context = registers 0;
      }
      else idle.procs p;
  rsp0 = 0x800000;
  address_space = 0x5000;
  processes = λ k. if k == 0 then 20 else idle.processes k;
  current_process = some 20;
  process_count = 1;
}

first_program : exec program 3 true idle ≡ some one
unfolding exec update
first_program = refl

Reach-irq0_listener_example :
    IsScheduled one
    × ((regs : Registers)
        → (r' : Registers) × (s'' : Scheduler) × (irq0_listener regs one ≡ some (r', s'')))
Reach-irq0_listener_example =
    Reach-irq0_listener idle one idle-IsScheduled (next here (start program 3 true first_program))
