-- ===== src/Modules/DynArray/Tests.antt =====
-- The theorem on arrays at a full one.
use smpl_osv.Base.{
  ℕ, ◌+◌, ◌≤◌, ◌<◌, ◌≡◌, refl, arith, none, some, List, [], ◌∷◌, ◌++◌, length, zero, suc, get_elem?,
}
use smpl_osv.Modules.DynArray.{Dyn, dyn_array_add}
use smpl_osv.Modules.DynArray.Growth.{IsArray, dyn_array_add-IsArray}

abbrev one : List ℕ
one = 7 ∷ []

abbrev eight : ℕ
eight = 8

abbrev full : Dyn ℕ
full = record { size = 2; tail = 1; array = λ i. 7; room = 2 }

full-IsArray : IsArray full one
full-IsArray = record {
  as_long = refl;
  roomy = refl;
  narrow = omega arith;
  fits = omega arith;
  held = λ i lt. held i lt;
}
  where
    held : (i : ℕ) → i < 1 → some (full.array i) ≡ get_elem? one i
    held zero lt = refl
    held (suc i) lt = absurd (omega arith)

dyn_array_add-IsArray_example :
    (length one + 1 < 2
      → (d' : Dyn ℕ) × (dyn_array_add full eight ≡ some d')
        × IsArray d' (one ++ eight ∷ [])
        × (d'.size ≡ 2))
    × (length one + 1 ≡ 2 → 2 ≤ 2 → dyn_array_add full eight ≡ none)
dyn_array_add-IsArray_example = dyn_array_add-IsArray full one 8 full-IsArray
