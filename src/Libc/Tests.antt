-- ===== src/Libc/Tests.antt =====
-- The theorems on the string routines at small strings.
use smpl_osv.Base.{ℕ, ◌≡◌, refl, ◌↔◌, inl, List, [], ◌∷◌, ◌++◌, arith, update, some, Bool, true}
use smpl_osv.Base.Int.{pos}
use smpl_osv.Libc.Cstr.{IsCstr}
use smpl_osv.Libc.Scan.{compare_strings, strcmp-equal}
use smpl_osv.Libc.Suffix.{endswith_iff}
use smpl_osv.Libc.Compare.{IsBytes}
use smpl_osv.Libc.{Bytes, strcmp, endswith, strdup}
use smpl_osv.Libc.Tokens.{Tokens, strdup-words}

-- "ab" at 10 and "b" at 20.
abbrev two_strings : Bytes
two_strings = update (update (update (λ _. 0) 10 97) 11 98) 20 98

abbrev text : List ℕ
text = 97 ∷ 98 ∷ []

abbrev tail : List ℕ
tail = 98 ∷ []

ab : IsCstr two_strings 10 text
unfolding update
ab = (refl, omega arith, (refl, omega arith, refl))

b : IsCstr two_strings 20 tail
unfolding update
b = (refl, omega arith, refl)

two_strings-IsBytes : IsBytes two_strings
unfolding update
two_strings-IsBytes i = ground arith

strcmp-equal_example :
    (strcmp 9 10 20 two_strings ≡ some (compare_strings text tail))
    × ((compare_strings text tail ≡ pos 0) ↔ (text ≡ tail))
strcmp-equal_example = strcmp-equal 9 10 20 text tail two_strings (omega arith) ab b

endswith_iff_example :
    (r : Bool) × (endswith 9 10 20 two_strings ≡ some r)
    × ((r ≡ true) ↔ ((zs : List ℕ) × (text ≡ zs ++ tail)))
endswith_iff_example =
    endswith_iff 9 10 20 text tail two_strings (omega arith) (omega arith) (omega arith)
      (omega arith) two_strings-IsBytes ab b

-- "/ab//c" at 40 and "/" at 60; the copy is made at 80.
abbrev path : List ℕ
path = 47 ∷ 97 ∷ 98 ∷ 47 ∷ 47 ∷ 99 ∷ []

abbrev path_memory : Bytes
path_memory =
    update
      (update (update (update (update (update (update (λ _. 0) 40 47) 41 97) 42 98) 43 47) 44 47) 45
        99)
      60 47

at_40 : IsCstr path_memory 40 path
unfolding update
at_40 = (
  refl,
  omega arith,
  (
    refl,
    omega arith,
    (refl, omega arith, (refl, omega arith, (refl, omega arith, (refl, omega arith, refl)))),
  ),
)

at_60 : IsCstr path_memory 60 (47 ∷ [])
unfolding update
at_60 = (refl, omega arith, refl)

strdup-words_example :
    (m' : Bytes) × (strdup 9 (λ _. 80) 40 path_memory ≡ some (80, m'))
    × IsCstr m' 80 path
    × Tokens 9 60 80 0 m' ((97 ∷ 98 ∷ []) ∷ (99 ∷ []) ∷ [])
strdup-words_example =
    strdup-words 9 60 47 0 40 80 (λ _. 80) path path_memory refl (inl (omega arith))
      (inl (omega arith)) (omega arith) (omega arith) (omega arith) (omega arith) at_60 at_40
