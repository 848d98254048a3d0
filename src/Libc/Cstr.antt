-- ===== src/Libc/Cstr.antt =====
-- Strings in memory as the routines of string.c read them: bytes up to a terminating zero.
use smpl_osv.Base.{
  ℕ, suc, ◌+◌, ◌-◌, ◌≤◌, ◌<◌, ◌≡◌, ap, ◌∙◌, ◌≢◌, List, [], ◌∷◌, ◌++◌, arith, length, take, drop,
  take-drop, length-take, sym,
}
use mathlib.Core.Path.{subst}
use smpl_osv.Libc.{Bytes}

-- The bytes `xs`, none of them zero, and a zero behind them.
abbrev pub IsCstr : Bytes → ℕ → List ℕ → Type 0
IsCstr m p [] = m p ≡ 0
IsCstr m p (x ∷ xs) = (m p ≡ x) × (x ≢ 0) × IsCstr m (p + 1) xs

-- Two memories that agree from `p` to the terminator hold the same string.
pub IsCstr-frame :
    (m m' : Bytes) (p : ℕ) (xs : List ℕ)
    → ((i : ℕ) → p ≤ i → i ≤ p + length xs → m' i ≡ m i)
    → IsCstr m p xs
    → IsCstr m' p xs
IsCstr-frame m m' p [] same str = same p (omega arith) (omega arith) ∙ str
IsCstr-frame m m' p (x ∷ xs) same (here, ne, rest) = (
  same p (omega arith) (omega arith) ∙ here,
  ne,
  IsCstr-frame m m' (p + 1) xs (λ i l u. same i (omega arith) (omega arith)) rest,
)

pub IsCstr_move : (m : Bytes) (p q : ℕ) (xs : List ℕ) → p ≡ q → IsCstr m p xs → IsCstr m q xs
IsCstr_move m p q xs e str = subst (λ a. IsCstr m a xs) e str

-- A string can be read from any of its bytes.
pub IsCstr-append :
    (m : Bytes) (p : ℕ) (xs ys : List ℕ) → IsCstr m p (xs ++ ys) → IsCstr m (p + length xs) ys
IsCstr-append m p [] ys str = IsCstr_move m p (p + 0) ys (omega arith) str
IsCstr-append m p (x ∷ xs) ys (here, ne, rest) =
    IsCstr_move m (p + 1 + length xs) (p + suc (length xs)) ys (omega arith)
      (IsCstr-append m (p + 1) xs ys rest)

-- A copy of the bytes is a copy of the string.
pub IsCstr_copy :
    (m m' : Bytes) (p q : ℕ) (xs : List ℕ)
    → ((i : ℕ) → q ≤ i → i < q + suc (length xs) → m' i ≡ m (p + (i - q)))
    → IsCstr m p xs
    → IsCstr m' q xs
IsCstr_copy m m' p q [] same str = same q (omega arith) (omega arith) ∙ ap m (omega arith) ∙ str
IsCstr_copy m m' p q (x ∷ xs) same (here, ne, rest) = (
  same q (omega arith) (omega arith) ∙ ap m (omega arith) ∙ here,
  ne,
  IsCstr_copy m m' (p + 1) (q + 1) xs
      (λ i l u. same i (omega arith) (omega arith) ∙ ap m (omega arith)) rest,
)

-- A string whose terminator is replaced by the start of another.
pub IsCstr_join :
    (m m' : Bytes) (p : ℕ) (xs ys : List ℕ)
    → ((i : ℕ) → p ≤ i → i < p + length xs → m' i ≡ m i)
    → IsCstr m p xs
    → IsCstr m' (p + length xs) ys
    → IsCstr m' p (xs ++ ys)
IsCstr_join m m' p [] ys same str tail = IsCstr_move m' (p + 0) p ys (omega arith) tail
IsCstr_join m m' p (x ∷ xs) ys same (here, ne, rest) tail = (
  same p (omega arith) (omega arith) ∙ here,
  ne,
  IsCstr_join m m' (p + 1) xs ys (λ i l u. same i (omega arith) (omega arith)) rest
      (IsCstr_move m' _ _ ys (omega arith) tail),
)

-- A string that is cut by a zero.
pub IsCstr_cut :
    (m m' : Bytes) (p : ℕ) (xs ys : List ℕ)
    → ((i : ℕ) → p ≤ i → i < p + length xs → m' i ≡ m i)
    → m' (p + length xs) ≡ 0
    → IsCstr m p (xs ++ ys)
    → IsCstr m' p xs
IsCstr_cut m m' p [] ys same end str = ap m' (omega arith) ∙ end
IsCstr_cut m m' p (x ∷ xs) ys same end (here, ne, rest) = (
  same p (omega arith) (omega arith) ∙ here,
  ne,
  IsCstr_cut m m' (p + 1) xs ys (λ i l u. same i (omega arith) (omega arith))
      (ap m' (omega arith) ∙ end) rest,
)

pub IsCstr-drop :
    (m : Bytes) (p n : ℕ) (xs : List ℕ)
    → n ≤ length xs
    → IsCstr m p xs
    → IsCstr m (p + n) (drop n xs)
IsCstr-drop m p n xs le str =
    IsCstr_move m (p + length (take n xs)) (p + n) (drop n xs) (omega (arith, length-take n xs le))
      (IsCstr-append m p (take n xs) (drop n xs)
        (subst (λ zs. IsCstr m p zs) (sym (take-drop n xs)) str))
