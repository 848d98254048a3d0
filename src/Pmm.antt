-- ===== src/Pmm.antt =====
-- The physical frame allocator, src/kernel/src/mem/pmm.c, and the loop of src/kernel/src/kernel.c
-- that hands it the usable frames at boot. The state is the C file's three static variables; the
-- array at `PMM_STACK_ADDRESS` is a function of the index.
pub mod Boot
pub mod Conserve
pub mod Refine
mod Tests
use smpl_osv.Base.{
  ℕ, zero, suc, ◌+◌, ◌-◌, ◌%◌, ◌^◌, Bool, List, [], ◌∷◌, ltb, if◌then◌else◌, update,
}
use smpl_osv.Base.Bits.{u32}

pub record Pmm : Type 0 where
  pub stack : ℕ → ℕ
  pub esp : ℕ
  pub stack_size : ℕ

-- `esp - 1` in `uint32_t`; there is no test for an empty stack.
abbrev pub below_top : Pmm → ℕ
below_top s = u32 (s.esp + 2 ^ 32 - 1)

unfoldable pub falloc : Pmm → ℕ × Pmm
falloc s = (s.stack (below_top s), record s { esp = below_top s })

pub ffree : ℕ → Pmm → Pmm
ffree frame s =
    let esp = u32 (s.esp + 1) in
    record s {
      stack = update s.stack s.esp frame;
      esp = esp;
      stack_size = if ltb s.stack_size esp then esp else s.stack_size;
    }

pub pmm_mark_frame : ℕ → Pmm → Pmm
pmm_mark_frame frame s = record s {
  stack = update s.stack s.esp frame;
  esp = u32 (s.esp + 1);
  stack_size = u32 (s.stack_size + 1);
}

pub pmm_get_stack_size : Pmm → ℕ
pmm_get_stack_size s = s.stack_size

-- The frames on the stack, the top first.
abbrev pub entries : (ℕ → ℕ) → ℕ → List ℕ
entries f zero = []
entries f (suc n) = f n ∷ entries f n

abbrev pub free_frames : Pmm → List ℕ
free_frames s = entries s.stack s.esp

-- What the rest of the kernel asks of the allocator.
pub data Op : Type 0 where
  alloc : Op
  free : ℕ → Op
  mark : ℕ → Op

-- A sequence of calls, with the frames that it returned.
pub run : List Op → Pmm → List ℕ × Pmm
run [] s = ([], s)
run (alloc ∷ ops) s = let (frame, s') = falloc s in let (out, t) = run ops s' in (frame ∷ out, t)
run (free frame ∷ ops) s = run ops (ffree frame s)
run (mark frame ∷ ops) s = run ops (pmm_mark_frame frame s)
