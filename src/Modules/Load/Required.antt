-- ===== src/Modules/Load/Required.antt =====
-- The modules that module.c requires.
use smpl_osv.Base.{
  ℕ, suc, ◌+◌, ◌≤◌, ◌<◌, ◌≡◌, refl, sym, ap, ◌∙◌, ◌≢◌, ◌↔◌, arith, Bool, true, false, some, List,
  [], ◌∷◌, length, All, map, ◌==◌, ==_iff, ==_ne, if◌then◌else◌, Bool-cases, inl, inr,
}
use smpl_osv.Base.Bits.{u8}
use mathlib.Core.Path.{subst}
use smpl_osv.Libc.{Bytes, ◌>>=◌, same_string, string_eq, strlen}
use smpl_osv.Libc.Cstr.{IsCstr}
use smpl_osv.Libc.Scan.{same_string-equal, strlen-length, string_eq_iff}
use smpl_osv.Modules.DynArray.{Dyn, dyn_array_add}
use smpl_osv.Modules.Load.{
  Modules, Env, header_name, mark_required, register_module, check_required_modules,
}

-- The strings at these addresses, with fuel for each.
abbrev pub Strings : ℕ → Bytes → List ℕ → List (List ℕ) → Type 0
Strings fuel m [] [] = Unit
Strings fuel m (p ∷ ps) [] = ⊥
Strings fuel m [] (s ∷ ss) = ⊥
Strings fuel m (p ∷ ps) (s ∷ ss) = IsCstr m p s × (length s < fuel) × Strings fuel m ps ss

-- A name that has been loaded becomes empty.
abbrev pub blank : List ℕ → List ℕ → List ℕ
blank name s = if string_eq s name then [] else s

-- How many names are not empty.
abbrev pub missing : List (List ℕ) → ℕ
missing [] = 0
missing ([] ∷ ss) = missing ss
missing ((x ∷ xs) ∷ ss) = suc (missing ss)

-- The counter is that of the names that are left.
pub record IsRequired (env : Env) (s : Modules) (ss : List (List ℕ)) : Type 0 where
  pub strings : Strings env.fuel s.memory s.required_modules ss
  pub counted : s.required_modules_left ≡ missing ss
  pub few : missing ss < 256

blank_self : (name s : List ℕ) → s ≡ name → blank name s ≡ []
blank_self name s e = rw ((string_eq_iff s name).1 e) refl

blank_other : (name s : List ℕ) → s ≢ name → blank name s ≡ s
blank_other name s ne = elim (Bool-cases (string_eq s name)) [
  | inl h ↦ absurd (ne ((string_eq_iff s name).0 h))
  | inr h ↦ rw h refl
]

cons_ne : (x : ℕ) (xs : List ℕ) → x ∷ xs ≢ []
cons_ne x xs e = cc

pub missing-zero_iff : (ss : List (List ℕ)) → (missing ss ≡ 0) ↔ All (λ s. s ≡ []) ss
missing-zero_iff [] = (λ e. tt, λ a. refl)
missing-zero_iff ([] ∷ ss) =
    let rest = missing-zero_iff ss in (λ e. (refl, rest.0 e), λ a. rest.1 a.1)
missing-zero_iff ((x ∷ xs) ∷ ss) = (λ e. absurd (omega arith), λ a. absurd (cons_ne x xs a.0))

none_missing :
    (name : List ℕ) (ss : List (List ℕ)) → name ≢ [] → missing ss ≡ 0 → map (blank name) ss ≡ ss
none_missing name [] ne e = refl
none_missing name ([] ∷ ss) ne e =
    let here = blank_other name [] (λ z. ne (sym z)) in let rest = none_missing name ss ne e in cc
none_missing name ((x ∷ xs) ∷ ss) ne e = absurd (omega arith)

false-true : false ≡ true → ⊥
false-true e = cc

module _ (env : Env) (m : Bytes) (p : ℕ) (name : List ℕ) (named : IsCstr m p name)
    (short : length name < env.fuel) (some_name : name ≢ []) (nothing : IsCstr m env.empty []) where
  mark_step :
      (r : ℕ) (rs : List ℕ) (left size : ℕ) (found : Bool) (rs' : List ℕ) (left' : ℕ)
      → strlen env.fuel r m ≡ some size
      → (if size == 0 then some false else same_string env.fuel p r m) ≡ some found
      → mark_required env.fuel p env.empty rs (if found then u8 (left + 255) else left) m
        ≡ some (rs', left')
      → mark_required env.fuel p env.empty (r ∷ rs) left m
        ≡ some ((if found then env.empty else r) ∷ rs', left')
  unfolding mark_required
  mark_step r rs left size found rs' left' a b c = rw (mark_required, a, b, c) refl

  abbrev Marked : List ℕ → ℕ → ℕ → List (List ℕ) → Type 0
  Marked rs left extra ts =
      (rs' : List ℕ) × (mark_required env.fuel p env.empty rs left m
        ≡ some (rs', extra + missing ts))
      × Strings env.fuel m rs' ts

  -- The counter falls with the names, `extra` of which are counted elsewhere.
  mark_required_lem :
      (rs : List ℕ) (ss : List (List ℕ)) (extra : ℕ)
      → Strings env.fuel m rs ss
      → extra + missing ss < 256
      → Marked rs (extra + missing ss) extra (map (blank name) ss)
  unfolding mark_required
  mark_required_lem [] [] extra st few = ([], refl, tt)
  mark_required_lem (r ∷ rs) [] extra st few = absurd st
  mark_required_lem [] (s ∷ ss) extra st few = absurd st
  mark_required_lem (r ∷ rs) ([] ∷ ss) extra (str, len, st) few =
      let (rs', run, st') = mark_required_lem rs ss extra st few in
      let size = strlen-length env.fuel r [] m len str in
      let same = blank_other name [] (λ z. some_name (sym z)) in
      subst (λ t. Marked (r ∷ rs) (extra + missing ss) extra (t ∷ map (blank name) ss)) (sym same)
        (
          r ∷ rs',
          mark_step r rs (extra + missing ss) 0 false rs' (extra + missing (map (blank name) ss))
              size refl run,
          (str, len, st'),
        )
  mark_required_lem (r ∷ rs) ((x ∷ xs) ∷ ss) extra (str, len, st) few =
      let size = strlen-length env.fuel r (x ∷ xs) m len str in
      let (b, tested, equal) = same_string-equal env.fuel p r name (x ∷ xs) m short named str in
      let left = extra + missing ((x ∷ xs) ∷ ss) in
      let longer : (suc (length xs) == 0) ≡ false = ==_ne _ 0 (λ z. absurd (omega arith)) in
      let tested' : (if suc (length xs) == 0 then some false else same_string env.fuel p r m)
          ≡ some b =
        rw longer tested in
      elim (Bool-cases b) [
        | inl h ↦
            let same = blank_self name (x ∷ xs) (sym (equal.0 h)) in
            let (rs', run, st') = mark_required_lem rs ss extra st (omega arith) in
            let less : u8 (left + 255) ≡ extra + missing ss = omega arith in
            subst (λ t. Marked (r ∷ rs) left extra (t ∷ map (blank name) ss)) (sym same)
              (
                env.empty ∷ rs',
                mark_step r rs left (suc (length xs)) true rs'
                    (extra + missing (map (blank name) ss)) size (tested' ∙ ap some h)
                    (ap (λ n. mark_required env.fuel p env.empty rs n m) less ∙ run),
                (nothing, omega arith, st'),
              )
        | inr h ↦
            let ne : x ∷ xs ≢ name = λ z. false-true (sym h ∙ equal.1 (sym z)) in
            let same = blank_other name (x ∷ xs) ne in
            let (rs', run, st') = mark_required_lem rs ss (suc extra) st (omega arith) in
            let as_many : left ≡ suc extra + missing ss = omega arith in
            let then_too : suc extra + missing (map (blank name) ss)
                ≡ extra + missing ((x ∷ xs) ∷ map (blank name) ss) =
              omega arith in
            subst (λ t. Marked (r ∷ rs) left extra (t ∷ map (blank name) ss)) (sym same)
              (
                r ∷ rs',
                mark_step r rs left (suc (length xs)) false rs'
                    (extra + missing ((x ∷ xs) ∷ map (blank name) ss)) size (tested' ∙ ap some h)
                    (ap (λ n. mark_required env.fuel p env.empty rs n m) as_many
                      ∙ run
                      ∙ ap (λ n. some (rs', n)) then_too),
                (str, len, st'),
              )
      ]

check_lem :
    (env : Env) (s : Modules) (ts : List (List ℕ))
    → IsRequired env s ts
    → (check_required_modules s ≡ true) ↔ All (λ t. t ≡ []) ts
unfolding check_required_modules
check_lem env s ts is = (
  λ e. (missing-zero_iff ts).0 (sym is.counted ∙ (==_iff _ 0).0 e),
  λ a. (==_iff _ 0).1 (is.counted ∙ (missing-zero_iff ts).1 a),
)

missing-blank : (name : List ℕ) (ss : List (List ℕ)) → missing (map (blank name) ss) ≤ missing ss
missing-blank name [] = omega arith
missing-blank name ([] ∷ ss) = elim (Bool-cases (string_eq [] name)) [
  | inl h ↦ rw h (missing-blank name ss)
  | inr h ↦ rw h (missing-blank name ss)
]
missing-blank name ((x ∷ xs) ∷ ss) =
    let rest = missing-blank name ss in
    elim (Bool-cases (string_eq (x ∷ xs) name)) [
      | inl h ↦ rw h (omega arith)
      | inr h ↦ rw h (omega arith)
    ]

-- Where the counter is the number of required names that are not empty, a module that is registered
-- under a name that is not empty, with room among the modules, makes that name empty and leaves the
-- others, the counter is again the number of those that are not empty, and `check_required_modules`
-- holds exactly when all are empty.
pub register_module-IsRequired :
    (env : Env) (mhdr : ℕ) (s : Modules) (modules : Dyn ℕ) (name : List ℕ) (ss : List (List ℕ))
    → dyn_array_add s.modules mhdr ≡ some modules
    → IsCstr s.memory (header_name s.memory mhdr) name
    → length name < env.fuel
    → name ≢ []
    → IsCstr s.memory env.empty []
    → IsRequired env s ss
    → (s' : Modules) × (register_module env mhdr s ≡ some s')
      × IsRequired env s' (map (blank name) ss)
      × ((check_required_modules s' ≡ true) ↔ All (λ t. t ≡ []) (map (blank name) ss))
unfolding register_module check_required_modules
register_module-IsRequired env mhdr s modules name ss added named short ne nothing is =
    let (rs', run, st') =
      mark_required_lem env s.memory (header_name s.memory mhdr) name named short ne nothing
        s.required_modules ss 0 is.strings (omega (arith, is.few)) in
    elim (Bool-cases (s.required_modules_left == 0)) [
      | inl h ↦
          let all_empty = sym is.counted ∙ (==_iff _ 0).0 h in
          let s' = record s { modules = modules } in
          let kept : IsRequired env s' ss = record {
            strings = is.strings;
            counted = is.counted;
            few = is.few;
          } in
          let both =
            subst
              (λ ts.
                IsRequired env s' ts × ((check_required_modules s' ≡ true) ↔ All (λ t. t ≡ []) ts))
              (sym (none_missing name ss ne all_empty)) (kept, check_lem env s' ss kept) in
          (s', rw (added, ◌>>=◌, h) refl, both.0, both.1)
      | inr h ↦
          let ts = map (blank name) ss in
          let s' = record s {
            modules = modules;
            required_modules = rs';
            required_modules_left = 0 + missing ts;
          } in
          let now : IsRequired env s' ts = record {
            strings = st';
            counted = omega arith;
            few = omega (arith, missing-blank name ss, is.few);
          } in
          let left : s.required_modules_left ≡ 0 + missing ss = omega (arith, is.counted) in
          let marked =
            ap
              (λ n.
                mark_required env.fuel (header_name s.memory mhdr) env.empty s.required_modules n
                  s.memory)
              left
            ∙ run in
          (s', rw (added, ◌>>=◌, h, marked) refl, now, check_lem env s' ts now)
    ]
