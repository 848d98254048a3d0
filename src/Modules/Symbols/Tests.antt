-- ===== src/Modules/Symbols/Tests.antt =====
-- The theorem on exported symbols, with every name at an address of its own.
use Prim.Native.String.{String}
use smpl_osv.Base.{
  ℕ, zero, suc, ◌+◌, ◌*◌, ◌≡◌, arith, some, List, [], ◌∷◌, All, length, if◌then◌else◌, ◌-◌, ◌++◌,
  ltb,
}
use smpl_osv.Libc.{Bytes, string_eq}
use smpl_osv.Modules.Symbols.{Symtable, exports, codes, export_symbols, get_kernel_symbol}
use smpl_osv.Modules.Symbols.Lookup.{first_address, Literal, export_symbols-get_kernel_symbol}

-- The names one behind the other from 1000 on, each with its zero.
abbrev text_of : List String → List ℕ
text_of [] = []
text_of (s ∷ ss) = codes s ++ 0 ∷ text_of ss

abbrev at : List ℕ → ℕ → ℕ
at [] i = 0
at (x ∷ xs) zero = x
at (x ∷ xs) (suc i) = at xs i

abbrev memory : Bytes
memory a = if ltb a 1000 then 0 else at (text_of exports) (a - 1000)

abbrev place : List String → ℕ → String → ℕ
place [] p s = 0
place (t ∷ ts) p s =
    if string_eq (codes t) (codes s) then p else place ts (p + length (codes t) + 1) s

abbrev literal : String → ℕ
literal s = place exports 1000 s

abbrev address : String → ℕ
address s = literal s * 16

literals : All (Literal literal address 40 memory) exports
literals = omega arith

-- "kfree"
export_symbols-get_kernel_symbol_example :
    (t : Symtable) × (export_symbols (λ i. record { name = 0; address = 0 }) literal address
      ≡ some t)
    × (get_kernel_symbol 40 t (literal "kfree") memory
        ≡ some (first_address literal address (codes "kfree") exports))
export_symbols-get_kernel_symbol_example =
    export_symbols-get_kernel_symbol (λ i. record { name = 0; address = 0 }) literal address 40
      memory (literal "kfree") (codes "kfree") literals (omega arith)
