-- ===== src/Proc/Rotation.antt =====
-- The timer gives the processes their turns one after the other.
use smpl_osv.Base.{
  ℕ, suc, ◌+◌, ◌-◌, ◌%◌, ◌≤◌, ◌<◌, ◌≡◌, ◌≢◌, ◌⊎◌, inl, inr, refl, sym, ap, ◌∙◌, List, [], ◌∷◌, some,
  none, Option, arith, length, update, leb, ltb, leb→le, ltb→lt, ==_ne, true, false, Bool-cases,
}
use native.Mathlib.Nat.{mod-eq_of_lt, mod_self, mod-add-mod, add-mod_right}
use smpl_osv.Base.Bits.{u32}
use smpl_osv.Interrupts.{Registers}
use smpl_osv.Proc.{
  Proc, Scheduler, schedule, advance, irq0_listener, set_kernel_stack, set_address_space,
}

-- The next turn is that of a process in the table, one runs if there is any, and no entry of the
-- table is a null pointer.
pub record IsScheduled (s : Scheduler) : Type 0 where
  pub turn : (s.cpid < s.process_count) ⊎ ((s.cpid ≡ 0) × (s.process_count ≡ 0))
  pub fits : s.process_count ≤ 256
  pub running : (s.process_count ≡ 0) ⊎ ((p : ℕ) × (s.current_process ≡ some p))
  pub set : (k : ℕ) → k < s.process_count → s.processes k ≢ 0

-- The timer interrupts with these registers in turn.
pub ticks : List Registers → Scheduler → Option Scheduler
ticks [] s = some s
ticks (regs ∷ rest) s = elim (irq0_listener regs s) [ some r ↦ ticks rest r.1 | none ↦ none ]

-- The table of processes after the current one is saved.
abbrev pub saved : ℕ → Registers → Scheduler → ℕ → Proc
saved old regs s = update s.procs old (record (s.procs old) { context = regs })

abbrev pub after_tick : ℕ → Registers → Scheduler → Scheduler
after_tick old regs s =
    let next = s.processes s.cpid in
    record s {
      procs = saved old regs s;
      current_process = some next;
      cpid = advance s.cpid s.process_count;
      address_space = (saved old regs s next).address_space;
      rsp0 = (saved old regs s next).kernel_stack;
    }

pub irq0_listener-step :
    (regs : Registers) (s : Scheduler) (old : ℕ)
    → s.process_count ≢ 0
    → s.current_process ≡ some old
    → s.processes s.cpid ≢ 0
    → irq0_listener regs s
      ≡ some ((saved old regs s (s.processes s.cpid)).context, after_tick old regs s)
unfolding irq0_listener schedule set_kernel_stack set_address_space
irq0_listener-step regs s old ne cur nz =
    rw (==_ne s.process_count 0 ne, cur, ==_ne (s.processes s.cpid) 0 nz) refl

advance_mod :
    (cpid count : ℕ) → cpid < count → count ≤ 256 → advance cpid count ≡ (cpid + 1) % count
advance_mod cpid count l u =
    let same : u32 (cpid + 1) ≡ cpid + 1 = omega arith in
    elim (Bool-cases (ltb (cpid + 1) count)) [
      | inl h ↦
          let inside = ltb→lt (cpid + 1) count h in
          let go : leb count (u32 (cpid + 1)) ≡ false = ground arith in
          rw go (same ∙ sym (mod-eq_of_lt inside))
      | inr h ↦
          let last : cpid + 1 ≡ count = ground arith in
          let wrap : leb count (u32 (cpid + 1)) ≡ true = ground arith in
          rw wrap (sym (ap (λ n. n % count) last ∙ mod_self count))
    ]

pub after_tick-IsScheduled :
    (old : ℕ) (regs : Registers) (s : Scheduler)
    → s.cpid < s.process_count
    → s.process_count ≤ 256
    → ((k : ℕ) → k < s.process_count → s.processes k ≢ 0)
    → IsScheduled (after_tick old regs s)
after_tick-IsScheduled old regs s l u set = record {
  turn = ground arith;
  fits = u;
  running = inr (s.processes s.cpid, refl);
  set = set;
}

-- What a run of the timer leaves: the process on turn at its last tick runs, and the next is on
-- turn.
pub record Rotated (s : Scheduler) (n : ℕ) (s' : Scheduler) : Type 0 where
  pub current : s'.current_process ≡ some (s.processes ((s.cpid + n) % s.process_count))
  pub next : s'.cpid ≡ (s.cpid + suc n) % s.process_count
  pub same : s'.processes ≡ s.processes
  pub same_count : s'.process_count ≡ s.process_count
  pub still : IsScheduled s'

later : (a n count : ℕ) → ((a + 1) % count + n) % count ≡ (a + suc n) % count
later a n count = mod-add-mod (a + 1) count n ∙ ap (λ k. k % count) (omega arith)

pub on_turn : (s : Scheduler) → IsScheduled s → 1 ≤ s.process_count → s.cpid < s.process_count
on_turn s ready pos = elim ready.turn [ inl l ↦ l | inr z ↦ absurd (omega (arith, z.1)) ]

pub has_current :
    (s : Scheduler) → IsScheduled s → 1 ≤ s.process_count → (p : ℕ) × (s.current_process ≡ some p)
has_current s ready pos = elim ready.running [ inl z ↦ absurd (omega (arith, z)) | inr c ↦ c ]

ticks-step :
    (regs r' : Registers) (rest : List Registers) (s s1 : Scheduler)
    → irq0_listener regs s ≡ some (r', s1)
    → ticks (regs ∷ rest) s ≡ ticks rest s1
unfolding ticks
ticks-step regs r' rest s s1 e = rw (e, ticks) refl

-- With at least one process, a run of the timer never fails; after a tick and `n` more the process
-- that is `n` places behind the one on turn runs, around the end of the table.
pub ticks-Rotated :
    (regs : Registers) (rest : List Registers) (s : Scheduler)
    → IsScheduled s
    → 1 ≤ s.process_count
    → (s' : Scheduler) × (ticks (regs ∷ rest) s ≡ some s') × Rotated s (length rest) s'
unfolding ticks
ticks-Rotated regs [] s ready pos =
    let inside = on_turn s ready pos in
    let (old, cur) = has_current s ready pos in
    let here : s.cpid ≡ (s.cpid + 0) % s.process_count =
      sym (ap (λ k. k % s.process_count) (omega arith) ∙ mod-eq_of_lt inside) in
    (
      after_tick old regs s,
      ticks-step regs _ [] s (after_tick old regs s)
          (irq0_listener-step regs s old (omega arith) cur (ready.set s.cpid inside)),
      record {
        current = ap (λ k. some (s.processes k)) here;
        next = advance_mod s.cpid s.process_count inside ready.fits;
        same = refl;
        same_count = refl;
        still = after_tick-IsScheduled old regs s inside ready.fits ready.set;
      },
    )
ticks-Rotated regs (regs' ∷ rest) s ready pos =
    let inside = on_turn s ready pos in
    let (old, cur) = has_current s ready pos in
    let s1 = after_tick old regs s in
    let ready1 = after_tick-IsScheduled old regs s inside ready.fits ready.set in
    let (s', run, r) = ticks-Rotated regs' rest s1 ready1 pos in
    let moved = advance_mod s.cpid s.process_count inside ready.fits in
    let shift =
      λ (n : ℕ). ap (λ c. (c + n) % s.process_count) moved ∙ later s.cpid n s.process_count in
    (
      s',
      ticks-step regs _ (regs' ∷ rest) s s1
            (irq0_listener-step regs s old (omega arith) cur (ready.set s.cpid inside))
          ∙ run,
      record {
        current = r.current ∙ ap (λ k. some (s.processes k)) (shift (length rest));
        next = r.next ∙ shift (suc (length rest));
        same = r.same;
        same_count = r.same_count;
        still = r.still;
      },
    )

turn_distance :
    (cpid k count : ℕ) → cpid < count → k < count → (n : ℕ) × (n < count) × ((cpid + n) % count ≡ k)
turn_distance cpid k count l u = elim (Bool-cases (leb cpid k)) [
  | inl h ↦
      let le = leb→le cpid k h in
      (k - cpid, omega arith, ap (λ n. n % count) (omega arith) ∙ mod-eq_of_lt u)
  | inr h ↦
      let gt : k < cpid = ground arith in
      (
        k + count - cpid,
        omega arith,
        ap (λ n. n % count) (omega arith) ∙ add-mod_right k count ∙ mod-eq_of_lt u,
      )
]

-- Every process in the table gets a turn: within as many ticks as there are processes, whatever
-- they are interrupted with, it runs.
pub ticks-fair :
    (s : Scheduler) (k : ℕ)
    → IsScheduled s
    → k < s.process_count
    → (n : ℕ) × (n < s.process_count)
      × ((regs : Registers) (rest : List Registers)
          → length rest ≡ n
          → (s' : Scheduler) × (ticks (regs ∷ rest) s ≡ some s')
            × (s'.current_process ≡ some (s.processes k)))
ticks-fair s k ready l =
    let inside = on_turn s ready (omega arith) in
    let (n, less, at) = turn_distance s.cpid k s.process_count inside l in
    (
      n,
      less,
      λ regs rest e.
          let (s', run, r) = ticks-Rotated regs rest s ready (omega arith) in
          (
            s',
            run,
            r.current
                ∙ ap (λ j. some (s.processes ((s.cpid + j) % s.process_count))) e
                ∙ ap (λ j. some (s.processes j)) at,
          ),
    )
