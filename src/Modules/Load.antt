-- ===== src/Modules/Load.antt =====
-- Loading modules: `load_module`, `check_required_modules` and `get_required_modules_left` of
-- module.c.
pub mod Required
mod Tests
use smpl_osv.Base.{
  ℕ, zero, suc, ◌+◌, ◌-◌, ◌%◌, ◌^◌, Bool, true, false, ◌&&◌, not, Option, none, some, List, [], ◌∷◌,
  ◌==◌, if◌then◌else◌,
}
use smpl_osv.Base.Bits.{u8}
use smpl_osv.Libc.{Bytes, ◌>>=◌, same_string, strlen}
use smpl_osv.Elf.{le64}
use smpl_osv.Elf.Symbols.{elf_get_symbol, elf_get_address}
use smpl_osv.Elf.Image.{load_elf64}
use smpl_osv.Modules.DynArray.{Dyn, init_dyn_array, dyn_array_add}
use smpl_osv.Modules.Symbols.{Symtable, get_kernel_symbol}

-- `module_header_t` where it stands in memory: the pointers `name` and `load`.
abbrev pub header_name : Bytes → ℕ → ℕ
header_name m mhdr = le64 m (mhdr + 8)

abbrev pub header_load : Bytes → ℕ → ℕ
header_load m mhdr = le64 m (mhdr + 16)

-- `modules`, `required_modules`, `required_modules_left`, `__are_modules_initialized`, the symbols
-- and the memory.
pub record Modules : Type 0 where
  pub modules : Dyn ℕ
  pub required_modules : List ℕ
  pub required_modules_left : ℕ
  pub are_modules_initialized : Bool
  pub k_symtable : Symtable
  pub memory : Bytes

-- The loop over the required modules. A module that has been loaded is replaced by `empty`, the
-- address of "".
pub mark_required : ℕ → ℕ → ℕ → List ℕ → ℕ → Bytes → Option (List ℕ × ℕ)
mark_required fuel name empty [] left m = some ([], left)
mark_required fuel name empty (r ∷ rs) left m = do
  size ← strlen fuel r m
  found ← if size == 0 then some false else same_string fuel name r m
  let left' = if found then u8 (left + 255) else left
  (rs', left'') ← mark_required fuel name empty rs left' m
  some ((if found then empty else r) ∷ rs', left'')

-- What is the system's around a module: the address of the name of its header and of two literals,
-- where memory is allocated, what an array starts with, and the call of a module's function, which
-- returns a number and the memory.
pub record Env : Type 0 where
  pub fuel : ℕ
  pub strtab_name : ℕ
  pub module_header : ℕ
  pub empty : ℕ
  pub kmalloc : ℕ → ℕ → ℕ
  pub fresh_frames : List (ℕ × ℕ) → Bytes
  pub junk : ℕ → ℕ
  pub call : ℕ → Bytes → ℕ × Bytes

pub init_modules : Env → Modules → Modules
init_modules env s =
    if s.are_modules_initialized
    then s
    else record s { modules = init_dyn_array env.junk 256; are_modules_initialized = true }

-- After the module's `load` has returned 0.
pub register_module : Env → ℕ → Modules → Option Modules
unfolding mark_required
register_module env mhdr s = do
  modules ← dyn_array_add s.modules mhdr
  (required, left) ←
      (if s.required_modules_left == 0
        then some (s.required_modules, s.required_modules_left)
        else mark_required env.fuel (header_name s.memory mhdr) env.empty s.required_modules
            s.required_modules_left s.memory)
  some (record s { modules = modules; required_modules = required; required_modules_left = left })

-- From the module's header on. Any header but NULL passes the test for the magic number.
pub start_module : Env → ℕ → Modules → Option Modules
unfolding register_module
start_module env mhdr s = do
  size ← strlen env.fuel (header_name s.memory mhdr) s.memory
  let (result, memory) = env.call (header_load s.memory mhdr) s.memory
  let called = record s { memory = memory }
  if mhdr == 0
      then none
      else if size == 0
      then some s
      else if result == 0
      then register_module env mhdr called
      else some called

-- `false` is the return of 1, where the file is refused; otherwise the code returns nothing.
pub load_module : Env → ℕ → Modules → Option (Bool × Modules)
unfolding init_modules start_module
load_module env start s0 = do
  let s = init_modules env s0
  (result, (memory, pages)) ←
      load_elf64 (get_kernel_symbol env.fuel s.k_symtable) env.kmalloc env.fresh_frames env.fuel
        start s.memory
  let loaded = record s { memory = memory }
  if not (result == 0) then some (false, loaded) else do
    sym ← elf_get_symbol env.fuel start env.strtab_name env.module_header memory
    mhdr ← elf_get_address start sym memory
    s' ← start_module env mhdr loaded
    some (true, s')

pub check_required_modules : Modules → Bool
check_required_modules s = s.required_modules_left == 0

pub get_required_modules_left : Modules → List ℕ
get_required_modules_left s = s.required_modules
