-- ===== src/Proc/Resume.antt =====
-- A process that loses its turn goes on with the registers that it was interrupted with.
use smpl_osv.Base.{
  ℕ, ◌≡◌, ◌≢◌, refl, sym, ap, ◌∙◌, some, update_self, update_ne, some_inj, ==_ne, ==_iff, none,
  Option,
}
use mathlib.Core.Path.{subst}
use smpl_osv.Interrupts.{Registers}
use smpl_osv.Proc.Rotation.{saved, after_tick, irq0_listener-step}
use smpl_osv.Proc.{Scheduler, irq0_listener, schedule}

-- Ticks that give other processes than `p` their turn.
pub data Away (p : ℕ) (s : Scheduler) : Scheduler → Type 0 where
  here : Away p s s
  next :
      {s' s'' : Scheduler}
      → Away p s s'
      → (regs regs' : Registers) → s'.processes s'.cpid ≢ p
      → irq0_listener regs s' ≡ some (regs', s'')
      → Away p s s''

-- `p` waits with these registers while `q` runs.
record Waiting (p : ℕ) (regs : Registers) (s : Scheduler) : Type 0 where
  count : s.process_count ≢ 0
  context : (s.procs p).context ≡ regs
  other : (q : ℕ) × (q ≢ p) × (s.current_process ≡ some q)

-- A tick that returns has not read a null pointer.
tick_set :
    (regs regs' : Registers) (s s' : Scheduler) (old : ℕ)
    → s.process_count ≢ 0
    → s.current_process ≡ some old
    → irq0_listener regs s ≡ some (regs', s')
    → s.processes s.cpid ≢ 0
unfolding irq0_listener schedule
tick_set regs regs' s s' old ne cur run z =
    let fails : ◌≡◌ {A = Option (Registers × Scheduler)} none (some (regs', s')) =
      rw (==_ne s.process_count 0 ne, cur, (==_iff (s.processes s.cpid) 0).1 z) at run in
    cc

tick-inv :
    (regs regs' : Registers) (s s' : Scheduler) (old : ℕ)
    → s.process_count ≢ 0
    → s.current_process ≡ some old
    → irq0_listener regs s ≡ some (regs', s')
    → ((saved old regs s (s.processes s.cpid)).context ≡ regs') × (after_tick old regs s ≡ s')
tick-inv regs regs' s s' old ne cur run =
    let nz = tick_set regs regs' s s' old ne cur run in
    let e = some_inj _ _ (sym (irq0_listener-step regs s old ne cur nz) ∙ run) in
    (ap (λ x. x.0) e, ap (λ x. x.1) e)

wait_on :
    (p : ℕ) (mine regs regs' : Registers) (s s' : Scheduler)
    → Waiting p mine s
    → s.processes s.cpid ≢ p
    → irq0_listener regs s ≡ some (regs', s')
    → Waiting p mine s'
wait_on p mine regs regs' s s' w ne run =
    let (q, off, cur) = w.other in
    let (regs_eq, after) = tick-inv regs regs' s s' q w.count cur run in
    subst (λ x. Waiting p mine x) after
      (record {
        count = w.count;
        context =
            ap (λ x. x.context)
              (update_ne s.procs q (record (s.procs q) { context = regs }) p (λ e. off (sym e)))
            ∙ w.context;
        other = (s.processes s.cpid, ne, refl);
      })

waits :
    {p : ℕ} {mine : Registers} {s s' : Scheduler}
    → Away p s s'
    → Waiting p mine s
    → Waiting p mine s'
waits here w = w
waits (next before regs regs' ne run) w = wait_on _ _ regs regs' _ _ (waits before w) ne run

-- Process `p` runs and is interrupted with certain registers, in favour of another; other processes
-- have their turns, and are interrupted with any registers; then it is the turn of `p`. The timer
-- returns to it with the very registers of its interruption.
pub irq0_listener-resumes :
    (p : ℕ) (mine left regs back : Registers) (s s' s'' s3 : Scheduler)
    → s.process_count ≢ 0
    → s.current_process ≡ some p
    → s.processes s.cpid ≢ p
    → irq0_listener mine s ≡ some (left, s')
    → Away p s' s''
    → s''.processes s''.cpid ≡ p
    → irq0_listener regs s'' ≡ some (back, s3)
    → (back ≡ mine) × (s3.current_process ≡ some p)
irq0_listener-resumes p mine left regs back s s' s'' s3 count cur ne out away turn run =
    let (left_eq, after) = tick-inv mine left s s' p count cur out in
    let start : Waiting p mine s' =
      subst (λ x. Waiting p mine x) after
        (record {
          count = count;
          context =
              ap (λ x. x.context) (update_self s.procs p (record (s.procs p) { context = mine }));
          other = (s.processes s.cpid, ne, refl);
        }) in
    let w = waits away start in
    let (q, off, now) = w.other in
    let (back_eq, last) = tick-inv regs back s'' s3 q w.count now run in
    (
      sym back_eq
          ∙ ap (λ j. (saved q regs s'' j).context) turn
          ∙ ap (λ x. x.context)
              (update_ne s''.procs q (record (s''.procs q) { context = regs }) p (λ e. off (sym e)))
          ∙ w.context,
      ap (λ x. x.current_process) (sym last) ∙ ap some turn,
    )
