-- ===== src/Proc.antt =====
-- Processes and their switching, src/kernel/src/proc/proc.c. A process is the number that its
-- address stands for; `none` is an access through a null pointer or behind the table's end.
pub mod Rotation
pub mod Resume
pub mod Reach
mod Tests
use smpl_osv.Base.{
  ℕ, zero, suc, ◌+◌, ◌*◌, ◌^◌, Bool, ◌&&◌, Option, none, some, List, [], ◌∷◌, ◌==◌, if◌then◌else◌,
  ltb, leb, update,
}
use smpl_osv.Base.Bits.{u32, u64}
use smpl_osv.Interrupts.{Registers}

-- `struct proc`; `context` is what its pointer leads to, which no other process shares.
pub record Proc : Type 0 where
  pid : ℕ
  name : ℕ
  address_space : ℕ
  stack : ℕ
  kernel_stack : ℕ
  context : Registers

-- The variables of proc.c, the processes by their addresses, and what the processor is told: the
-- page tables in use and the stack of the kernel in the task state.
pub record Scheduler : Type 0 where
  procs : ℕ → Proc
  current_process : Option ℕ
  processes : ℕ → ℕ
  cpid : ℕ
  process_count : ℕ
  address_space : ℕ
  rsp0 : ℕ

pub set_kernel_stack : ℕ → Scheduler → Scheduler
set_kernel_stack stack s = record s { rsp0 = stack }

-- `set_address_space` of paging.c, as far as it concerns the processes.
pub set_address_space : ℕ → Scheduler → Scheduler
set_address_space space s = record s { address_space = space }

-- A process at address 0 is the null pointer. The interrupted registers become those of the process
-- that the interrupt returns to.
pub schedule : ℕ → Registers → Scheduler → Option (Registers × Scheduler)
unfolding set_kernel_stack set_address_space
schedule proc regs s = elim s.current_process [
  | none ↦ none
  | some old ↦
      let saved = update s.procs old (record (s.procs old) { context = regs }) in
      let switched = record s { procs = saved; current_process = some proc } in
      let spaced = set_address_space (saved proc).address_space switched in
      if proc == 0
      then none
      else some ((saved proc).context, set_kernel_stack (saved proc).kernel_stack spaced)
]

abbrev pub advance : ℕ → ℕ → ℕ
advance cpid count = if leb count (u32 (cpid + 1)) then 0 else u32 (cpid + 1)

pub irq0_listener : Registers → Scheduler → Option (Registers × Scheduler)
unfolding schedule
irq0_listener regs s =
    if s.process_count == 0 then some (regs, s) else elim (schedule (s.processes s.cpid) regs s) [
      | none ↦ none
      | some r ↦ some (r.0, record r.1 { cpid = advance r.1.cpid r.1.process_count })
    ]

-- What the rest of the kernel gives `exec`: `load_elf64` and whether its result is mapped, the
-- copy of the kernel's page tables, the new kernel stack, the address of the new process, and what
-- its context holds before anything is stored there. `kalloc_f` maps the user stack.
pub record Loaded : Type 0 where
  entry : ℕ
  entry_mapped : Bool
  space_copy : ℕ
  kernel_stack_at : ℕ
  proc_at : ℕ
  fresh_context : Registers

abbrev pub kernel_stack_size : ℕ
kernel_stack_size = 2 * 2 ^ 20

abbrev pub usr_stack_top : ℕ
usr_stack_top = 0x1000000 + 4 * 2 ^ 20

abbrev pub new_proc : Loaded → ℕ → ℕ → Proc
new_proc l name count = record {
  pid = count;
  name = name;
  address_space = l.space_copy;
  kernel_stack = u64 (l.kernel_stack_at + kernel_stack_size);
  stack = usr_stack_top;
  context = l.fresh_context;
}

-- The jump to user code at its end is left out; the state is the one that it starts in.
pub exec : Loaded → ℕ → Bool → Scheduler → Option Scheduler
unfolding set_kernel_stack set_address_space
exec l name init s =
    if l.entry_mapped && l.proc_at == 0
    then none
    else if l.entry_mapped
    then (let proc = new_proc l name s.process_count in
        let made = record s { procs = update s.procs l.proc_at proc } in
        let started =
          set_address_space proc.address_space (set_kernel_stack proc.kernel_stack made) in
        if init
        then (if ltb s.process_count 256
            then some (record started {
              processes = update s.processes s.process_count l.proc_at;
              current_process = some l.proc_at;
              process_count = u32 (s.process_count + 1);
            })
            else none)
        else some made)
    else some s
