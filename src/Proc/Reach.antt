-- ===== src/Proc/Reach.antt =====
-- What holds whichever programs are started and whenever the timer ticks.
use smpl_osv.Base.{
  ℕ, ◌+◌, ◌≤◌, ◌<◌, ◌≡◌, ◌⊎◌, inl, inr, refl, ◌≢◌, some, none, Option, arith, update, ltb, ltb→lt,
  Bool, Bool-cases, some_inj, ◌==◌,
}
use mathlib.Core.Path.{subst}
use smpl_osv.Base.Bits.{u32}
use smpl_osv.Interrupts.{Registers}
use smpl_osv.Proc.Rotation.{
  IsScheduled, on_turn, has_current, after_tick, saved, irq0_listener-step, after_tick-IsScheduled,
}
use smpl_osv.Proc.{
  Scheduler, Loaded, new_proc, irq0_listener, exec, set_kernel_stack, set_address_space,
}

-- The state after a program is made current.
abbrev started : Loaded → ℕ → Scheduler → Scheduler
started l name s =
    let proc = new_proc l name s.process_count in
    record s {
      procs = update s.procs l.proc_at proc;
      rsp0 = proc.kernel_stack;
      address_space = proc.address_space;
      processes = update s.processes s.process_count l.proc_at;
      current_process = some l.proc_at;
      process_count = u32 (s.process_count + 1);
    }

abbrev made : Loaded → ℕ → Scheduler → Scheduler
made l name s = record s { procs = update s.procs l.proc_at (new_proc l name s.process_count) }

-- The three ways in which `exec` returns.
exec-cases :
    (l : Loaded) (name : ℕ) (init : Bool) (s s' : Scheduler)
    → exec l name init s ≡ some s'
    → (s ≡ s')
      ⊎ ((made l name s ≡ s')
          ⊎ ((s.process_count < 256) × (l.proc_at ≢ 0) × (started l name s ≡ s')))
unfolding exec set_kernel_stack set_address_space
exec-cases l name init s s' run = elim (Bool-cases l.entry_mapped) [
  | inr e ↦ inl (some_inj s s' (rw e at run))
  | inl e ↦ elim (Bool-cases (l.proc_at == 0)) [
    | inl z ↦ let no : ◌≡◌ {A = Option Scheduler} none (some s') = rw (e, z) at run in cc
    | inr z ↦ elim (Bool-cases init) [
      | inr f ↦ inr (inl (some_inj (made l name s) s' (rw (e, z, f) at run)))
      | inl f ↦ elim (Bool-cases (ltb s.process_count 256)) [
        | inl g ↦ inr (
            inr (
              ltb→lt s.process_count 256 g,
              ground arith,
              some_inj (started l name s) s' (rw (e, z, f, g) at run),
            ))
        | inr g ↦ let no : ◌≡◌ {A = Option Scheduler} none (some s') = rw (e, z, f, g) at run in cc
      ]
    ]
  ]
]

started-IsScheduled :
    (l : Loaded) (name : ℕ) (s : Scheduler)
    → s.process_count < 256
    → l.proc_at ≢ 0
    → IsScheduled s
    → IsScheduled (started l name s)
unfolding update
started-IsScheduled l name s few nz ready = record {
  turn = inl (elim ready.turn [ inl h ↦ omega arith | inr z ↦ omega (arith, z.0) ]);
  fits = omega arith;
  running = inr (l.proc_at, refl);
  set = λ k lt. elim (Bool-cases (k == s.process_count)) [
    | inl e ↦ rw e nz
    | inr e ↦ rw e (ready.set k (ground arith))
  ];
}

exec-IsScheduled :
    (l : Loaded) (name : ℕ) (init : Bool) (s s' : Scheduler)
    → exec l name init s ≡ some s'
    → IsScheduled s
    → IsScheduled s'
exec-IsScheduled l name init s s' run ready = elim (exec-cases l name init s s' run) [
  | inl e ↦ subst (λ x. IsScheduled x) e ready
  | inr (inl e) ↦
      subst (λ x. IsScheduled x) e
        (record { turn = ready.turn; fits = ready.fits; running = ready.running; set = ready.set })
  | inr (inr (few, nz, e)) ↦
      subst (λ x. IsScheduled x) e (started-IsScheduled l name s few nz ready)
]

-- Without a process the timer's listener does nothing; with one it takes the turn of the next.
tick-total :
    (s : Scheduler)
    → IsScheduled s
    → (regs : Registers)
    → (r' : Registers) × (s' : Scheduler) × (irq0_listener regs s ≡ some (r', s')) × IsScheduled s'
unfolding irq0_listener
tick-total s ready regs = elim (Bool-cases (s.process_count == 0)) [
  | inl e ↦ (regs, s, rw e refl, ready)
  | inr e ↦
      let pos : 1 ≤ s.process_count = ground arith in
      let (old, cur) = has_current s ready pos in
      (
        (saved old regs s (s.processes s.cpid)).context,
        after_tick old regs s,
        irq0_listener-step regs s old (ground arith) cur (ready.set s.cpid (on_turn s ready pos)),
        after_tick-IsScheduled old regs s (on_turn s ready pos) ready.fits ready.set,
      )
]

-- A program is started, or the timer ticks.
pub data Step (s s' : Scheduler) : Type 0 where
  start : (l : Loaded) (name : ℕ) (init : Bool) → exec l name init s ≡ some s' → Step s s'
  tick : (regs regs' : Registers) → irq0_listener regs s ≡ some (regs', s') → Step s s'

pub data Reach (s : Scheduler) : Scheduler → Type 0 where
  here : Reach s s
  next : {s' s'' : Scheduler} → Reach s s' → Step s' s'' → Reach s s''

Step-IsScheduled : (s s' : Scheduler) → Step s s' → IsScheduled s → IsScheduled s'
Step-IsScheduled s s' (start l name init run) ready = exec-IsScheduled l name init s s' run ready
Step-IsScheduled s s' (tick regs regs' run) ready =
    let (r', s1, run', ready') = tick-total s ready regs in
    let same : s1 ≡ s' = cc in subst (λ x. IsScheduled x) same ready'

Reach-IsScheduled : {s s' : Scheduler} → Reach s s' → IsScheduled s → IsScheduled s'
Reach-IsScheduled here ready = ready
Reach-IsScheduled (next before step) ready =
    Step-IsScheduled _ _ step (Reach-IsScheduled before ready)

-- Whichever programs are started and whenever the timer ticks, the process on turn stays one of the
-- table, whose entries are no null pointers, and the listener never reads a null pointer: it always
-- returns.
pub Reach-irq0_listener :
    (s s' : Scheduler)
    → IsScheduled s
    → Reach s s'
    → IsScheduled s'
      × ((regs : Registers)
          → (r' : Registers) × (s'' : Scheduler) × (irq0_listener regs s' ≡ some (r', s'')))
Reach-irq0_listener s s' ready reach =
    let ready' = Reach-IsScheduled reach ready in
    (ready', λ regs. let (r', s'', run, after) = tick-total s' ready' regs in (r', s'', run))
