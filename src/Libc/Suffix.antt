-- ===== src/Libc/Suffix.antt =====
-- `endswith` of util.c on strings.
use smpl_osv.Base.{
  ℕ, ◌+◌, ◌-◌, ◌≤◌, ◌<◌, ◌≡◌, refl, sym, ap, ◌∙◌, ◌≢◌, ◌↔◌, List, ◌++◌, arith, length,
  length-append, take, drop, take-drop, length-take, length-drop, take-length, drop-append, some,
  Bool, true, false, ==_ne, Bool-cases, inl, inr, ltb, ltb→lt,
}
use mathlib.Core.Path.{subst}
use smpl_osv.Libc.Cstr.{IsCstr, IsCstr_move, IsCstr-append}
use smpl_osv.Libc.Compare.{IsBytes, differ, strncmp-take_iff}
use smpl_osv.Libc.Scan.{is_zero_iff, strlen-length}
use smpl_osv.Libc.{Bytes, is_zero, strncmp, endswith}

too_short :
    (xs ys : List ℕ) → length xs < length ys → (false ≡ true) ↔ ((zs : List ℕ) × (xs ≡ zs ++ ys))
too_short xs ys short = (
  λ e. absurd (differ refl e),
  λ (zs, e). absurd (omega (arith, ap length e, length-append zs ys)),
)

drop_iff :
    (k : ℕ) (xs ys : List ℕ)
    → k + length ys ≡ length xs
    → (drop k xs ≡ ys) ↔ ((zs : List ℕ) × (xs ≡ zs ++ ys))
drop_iff k xs ys n = (
  λ e. (take k xs, sym (take-drop k xs) ∙ ap (λ rest. take k xs ++ rest) e),
  λ (zs, e). ap (drop k) e ∙ drop-append zs ys k (omega (arith, ap length e, length-append zs ys)),
)

suffix_iff :
    (str suffix : ℕ) (xs ys : List ℕ) (m : Bytes)
    → IsBytes m
    → IsCstr m str xs
    → IsCstr m suffix ys
    → length ys ≤ length xs
    → (is_zero (strncmp (str + length xs - length ys) suffix (length ys) m) ≡ true)
      ↔ ((zs : List ℕ) × (xs ≡ zs ++ ys))
suffix_iff str suffix xs ys m b s t le =
    let k = length xs - length ys in
    let rest = drop k xs in
    let all : take k xs ++ rest ≡ xs = take-drop k xs in
    let at =
      IsCstr_move m (str + length (take k xs)) (str + length xs - length ys) rest
        (omega (arith, length-take k xs (omega arith)))
        (IsCstr-append m str (take k xs) rest (subst (λ zs. IsCstr m str zs) (sym all) s)) in
    let zero_iff =
      strncmp-take_iff (str + length xs - length ys) suffix (length ys) rest ys m b at t in
    let left = take-length rest (length ys) (omega (arith, length-drop k xs)) in
    let right = take-length ys (length ys) refl in
    let tail_iff = drop_iff k xs ys (omega arith) in
    (
      λ e. tail_iff.0 (sym left ∙ zero_iff.0 ((is_zero_iff _).0 e) ∙ right),
      λ e. (is_zero_iff _).1 (zero_iff.1 (left ∙ tail_iff.1 e ∙ sym right)),
    )

-- On strings of bytes that are not at NULL, with fuel for both, `endswith` returns whether the
-- first is some string followed by the second.
pub endswith_iff :
    (fuel str suffix : ℕ) (xs ys : List ℕ) (m : Bytes)
    → str ≢ 0
    → suffix ≢ 0
    → length xs < fuel
    → length ys < fuel
    → IsBytes m
    → IsCstr m str xs
    → IsCstr m suffix ys
    → (b : Bool) × (endswith fuel str suffix m ≡ some b)
      × ((b ≡ true) ↔ ((zs : List ℕ) × (xs ≡ zs ++ ys)))
unfolding endswith
endswith_iff fuel str suffix xs ys m nz nz' f g b s t =
    let lens = strlen-length fuel str xs m f s in
    let lens' = strlen-length fuel suffix ys m g t in
    let z = is_zero (strncmp (str + length xs - length ys) suffix (length ys) m) in
    elim (Bool-cases (ltb (length xs) (length ys))) [
      | inl short ↦ (
        false,
        rw (==_ne str 0 nz, ==_ne suffix 0 nz', lens, lens', short) refl,
        too_short xs ys (ltb→lt _ _ short),
      )
      | inr long ↦ (
        z,
        rw (==_ne str 0 nz, ==_ne suffix 0 nz', lens, lens', long) refl,
        suffix_iff str suffix xs ys m b s t (ground arith),
      )
    ]
