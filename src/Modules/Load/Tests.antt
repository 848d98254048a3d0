-- ===== src/Modules/Load/Tests.antt =====
-- The theorem on required modules at the one that the kernel requires.
use smpl_osv.Base.{ℕ, update, ◌≡◌, refl, ◌↔◌, arith, true, some, List, [], ◌∷◌, All, map}
use smpl_osv.Libc.{Bytes}
use smpl_osv.Elf.{bytes_of}
use smpl_osv.Modules.DynArray.{Dyn, init_dyn_array, dyn_array_add}
use smpl_osv.Modules.Load.{Modules, Env, register_module, check_required_modules}
use smpl_osv.Modules.Load.Required.{IsRequired, blank, register_module-IsRequired}

-- "ata" at 500 and at 600, which the header at 700 names.
abbrev memory : Bytes
memory = bytes_of (
    (500, 97)
    ∷ (501, 116)
    ∷ (502, 97)
    ∷ (600, 97)
    ∷ (601, 116)
    ∷ (602, 97)
    ∷ (708, 88)
    ∷ (709, 2)
    ∷ [])

abbrev env : Env
env = record {
  fuel = 9;
  strtab_name = 0;
  module_header = 0;
  empty = 900;
  kmalloc = λ i n. 0;
  fresh_frames = λ pages a. 0;
  junk = λ i. 0;
  call = λ f m. (0, m);
}

abbrev state : Modules
state = record {
  modules = init_dyn_array (λ i. 0) 256;
  required_modules = 500 ∷ [];
  required_modules_left = 1;
  are_modules_initialized = true;
  k_symtable = init_dyn_array (λ i. record { name = 0; address = 0 }) 256;
  memory = memory;
}

abbrev ata : List ℕ
ata = 97 ∷ 116 ∷ 97 ∷ []

abbrev added : Dyn ℕ
added = record { size = 256; tail = 1; array = update (λ i. 0) 0 700; room = 256 }

add_700 : dyn_array_add state.modules 700 ≡ some added
unfolding dyn_array_add
add_700 = refl

state-IsRequired : IsRequired env state (ata ∷ [])
state-IsRequired = record { strings = omega arith; counted = refl; few = omega arith }

no : ata ≡ [] → ⊥
no z = cc

register_module-IsRequired_example :
    (s' : Modules) × (register_module env 700 state ≡ some s')
    × IsRequired env s' (map (blank ata) (ata ∷ []))
    × ((check_required_modules s' ≡ true) ↔ All (λ t. t ≡ []) (map (blank ata) (ata ∷ [])))
register_module-IsRequired_example =
    register_module-IsRequired env 700 state added ata (ata ∷ []) add_700 (omega arith)
      (omega arith) (λ z. no z) (omega arith) state-IsRequired
