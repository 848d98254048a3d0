-- ===== src/Modules/Symbols/Lookup.antt =====
-- What `get_kernel_symbol` of module.c finds.
use Prim.Native.String.{String}
use smpl_osv.Base.{
  ℕ, suc, ◌+◌, ◌<◌, ◌≡◌, refl, sym, ap, ◌∙◌, arith, true, false, some, List, [], ◌∷◌, ◌++◌, length,
  length-append, get_elem?, All, if◌then◌else◌, Bool-cases, inl, inr, map,
}
use mathlib.Core.Path.{subst}
use mathlib.Core.List.{append_assoc, append-nil}
use smpl_osv.Libc.{Bytes, ◌>>=◌, string_eq}
use smpl_osv.Libc.Cstr.{IsCstr}
use smpl_osv.Libc.Scan.{same_string-equal, string_eq_iff}
use smpl_osv.Modules.DynArray.{init_dyn_array, dyn_array_get}
use smpl_osv.Modules.DynArray.Growth.{
  IsArray, init_dyn_array-IsArray, dyn_array_get-IsArray, dyn_array_add-IsArray,
}
use smpl_osv.Modules.Symbols.{
  Ksym, Symtable, export_symbol, get_symbol_from, get_kernel_symbol, exports, codes, export_all,
  export_symbols,
}

module _ (literal address : String → ℕ) where
  abbrev ksym : String → Ksym
  ksym s = record { name = literal s; address = address s }

  -- Every symbol is added behind those that are there.
  export_all-IsArray :
      (ss : List String) (t : Symtable) (xs : List Ksym)
      → IsArray t xs
      → length xs + length ss < t.size
      → (t' : Symtable) × (export_all literal address ss t ≡ some t')
        × IsArray t' (xs ++ map ksym ss)
  unfolding export_all export_symbol
  export_all-IsArray [] t xs is lt = (t, refl, subst (IsArray t) (sym (append-nil xs)) is)
  export_all-IsArray (s ∷ ss) t xs is lt =
      let (t1, run, is1, size) = (dyn_array_add-IsArray t xs (ksym s) is).0 (omega arith) in
      let longer = length-append xs (ksym s ∷ []) in
      let (t2, rest, is2) =
        export_all-IsArray ss t1 (xs ++ ksym s ∷ []) is1 (omega (arith, size, longer)) in
      (
        t2,
        rw (run, ◌>>=◌) rest,
        subst (IsArray t2) (append_assoc xs (ksym s ∷ []) (map ksym ss)) is2,
      )

  -- The address of the first of the names that is the wanted string, or 0.
  abbrev pub first_address : List ℕ → List String → ℕ
  first_address wanted [] = 0
  first_address wanted (s ∷ ss) =
      if string_eq (codes s) wanted then address s else first_address wanted ss

  abbrev pub Literal : ℕ → Bytes → String → Type 0
  Literal fuel m s = IsCstr m (literal s) (codes s) × (length (codes s) < fuel)

  module _ (fuel : ℕ) (m : Bytes) (name : ℕ) (wanted : List ℕ) (sought : IsCstr m name wanted) where
    get_symbol_from_lem :
        (ss : List String) (t : Symtable) (i : ℕ)
        → ((j : ℕ) → j < length ss → dyn_array_get t (i + j) ≡ get_elem? (map ksym ss) j)
        → All (Literal fuel m) ss
        → get_symbol_from fuel (length ss) i t name m ≡ some (first_address wanted ss)
    unfolding get_symbol_from
    get_symbol_from_lem [] t i at all = refl
    get_symbol_from_lem (s ∷ ss) t i at ((str, short), all) =
        let here : dyn_array_get t i ≡ some (ksym s) =
          ap (dyn_array_get t) (omega arith) ∙ at 0 (omega arith) in
        let (b, run, equal) =
          same_string-equal fuel (literal s) name (codes s) wanted m short str sought in
        let rest =
          get_symbol_from_lem ss t (suc i)
            (λ j lt. ap (dyn_array_get t) (omega arith) ∙ at (suc j) (omega arith)) all in
        elim (Bool-cases b) [
          | inl h ↦
              let same = (string_eq_iff (codes s) wanted).1 (equal.0 h) in
              rw (get_symbol_from, here, run, h, same) refl
          | inr h ↦
              let differ : string_eq (codes s) wanted ≡ false =
                elim (Bool-cases (string_eq (codes s) wanted)) [
                  | inl e ↦
                      let no : false ≡ true =
                        sym h ∙ equal.1 ((string_eq_iff (codes s) wanted).0 e) in
                      cc
                  | inr e ↦ e
                ] in
              rw (get_symbol_from, here, run, h, differ) rest
        ]

length-map : (f : String → Ksym) (ss : List String) → length (map f ss) ≡ length ss
length-map f [] = refl
length-map f (s ∷ ss) = ap suc (length-map f ss)

-- `export_symbols` succeeds. Where the names of what it exports and the name that is sought are
-- strings in memory, with fuel for the names, `get_kernel_symbol` then returns the address that was
-- exported under the name, and 0 for a name that was not exported.
pub export_symbols-get_kernel_symbol :
    (junk : ℕ → Ksym) (literal address : String → ℕ) (fuel : ℕ) (m : Bytes) (name : ℕ)
    (wanted : List ℕ)
    → All (Literal literal address fuel m) exports
    → IsCstr m name wanted
    → (t : Symtable) × (export_symbols junk literal address ≡ some t)
      × (get_kernel_symbol fuel t name m ≡ some (first_address literal address wanted exports))
unfolding export_symbols get_kernel_symbol
export_symbols-get_kernel_symbol junk literal address fuel m name wanted all sought =
    let empty = init_dyn_array-IsArray junk 256 (omega arith) (omega arith) in
    let (t, run, is) =
      export_all-IsArray literal address exports (init_dyn_array junk 256) [] empty (omega arith) in
    let size = is.as_long ∙ length-map (ksym literal address) exports in
    (
      t,
      run,
      ap (λ n. get_symbol_from fuel n 0 t name m) size
          ∙ get_symbol_from_lem literal address fuel m name wanted sought exports t 0
              (λ j lt.
                ap (dyn_array_get t) (omega arith)
                ∙ dyn_array_get-IsArray t (map (ksym literal address) exports) j is
                    (omega (arith, length-map (ksym literal address) exports)))
              all,
    )
