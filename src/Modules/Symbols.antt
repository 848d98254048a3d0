-- ===== src/Modules/Symbols.antt =====
-- The symbols that the kernel exports, `export_symbol`, `export_symbols` and `get_kernel_symbol` of
-- module.c.
pub mod Lookup
mod Tests
use Prim.Native.Char.{code}
use Prim.Native.String.{String}
use smpl_osv.Base.{
  ℕ, zero, suc, ◌+◌, ◌-◌, Bool, true, false, Option, none, some, List, [], ◌∷◌, if◌then◌else◌,
}
use smpl_osv.Libc.{Bytes, ◌>>=◌, same_string}
use smpl_osv.Modules.DynArray.{Dyn, init_dyn_array, dyn_array_get, dyn_array_add, dyn_array_size}

-- `k_sym_t`; the name is a pointer.
pub record Ksym : Type 0 where
  pub name : ℕ
  pub address : ℕ

abbrev pub Symtable : Type 0
Symtable = Dyn Ksym

pub export_symbol : ℕ → ℕ → Symtable → Option Symtable
export_symbol name address k_symtable =
    dyn_array_add k_symtable (record { name = name; address = address })

-- From symbol `i` on, with `left` symbols behind it.
pub get_symbol_from : ℕ → ℕ → ℕ → Symtable → ℕ → Bytes → Option ℕ
get_symbol_from fuel zero i k_symtable name m = some 0
get_symbol_from fuel (suc left) i k_symtable name m = do
  sym ← dyn_array_get k_symtable i
  found ← same_string fuel sym.name name m
  elim found [
    | true ↦ some sym.address
    | false ↦ get_symbol_from fuel left (suc i) k_symtable name m
  ]

pub get_kernel_symbol : ℕ → Symtable → ℕ → Bytes → Option ℕ
unfolding get_symbol_from
get_kernel_symbol fuel k_symtable name m =
    get_symbol_from fuel (dyn_array_size k_symtable) 0 k_symtable name m

-- The names of the symbols that are exported, in their order.
abbrev pub exports : List String
exports =
    "putchar" ∷ "__libk_malloc" ∷ "__libk_free" ∷ "__libk_assertion_fail" ∷ "info" ∷ "warning"
    ∷ "error" ∷ "debug" ∷ "log" ∷ "outb" ∷ "outw" ∷ "outl" ∷ "inb" ∷ "inw" ∷ "inl" ∷ "kmalloc"
    ∷ "kfree" ∷ "set_irq_handler" ∷ "irq_end" ∷ "kcreate" ∷ "kread" ∷ "kwrite" ∷ "kmount"
    ∷ "vfs_print_tree" ∷ []

abbrev pub codes : String → List ℕ
codes String.[] = []
codes (String.◌∷◌ c s) = code c ∷ codes s

pub export_all : (String → ℕ) → (String → ℕ) → List String → Symtable → Option Symtable
unfolding export_symbol
export_all literal address [] k_symtable = some k_symtable
export_all literal address (s ∷ ss) k_symtable = do
  k_symtable' ← export_symbol (literal s) (address s) k_symtable
  export_all literal address ss k_symtable'

-- `literal` gives the address of a string of the program and `address` that of what it names.
pub export_symbols : (ℕ → Ksym) → (String → ℕ) → (String → ℕ) → Option Symtable
unfolding export_all
export_symbols junk literal address = export_all literal address exports (init_dyn_array junk 256)
