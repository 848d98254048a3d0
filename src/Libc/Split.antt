-- ===== src/Libc/Split.antt =====
-- A string cut at its delimiters the way vfs.c does it: `strdup` makes a copy, and `strtok` is
-- called with the copy and then with NULL until it returns NULL.
use smpl_osv.Base.{
  ℕ, zero, suc, ◌+◌, ◌^◌, ◌<◌, ◌≡◌, refl, ◌∙◌, ◌≢◌, Option, none, some, List, [], ◌∷◌, All, arith,
  length, ◌==◌, if◌then◌else◌, update, update_self, update_ne, ==_ne, inl,
}
use smpl_osv.Libc.{Bytes, strtok, strdup, ◌>>=◌}
use smpl_osv.Libc.Cstr.{IsCstr, IsCstr-frame}
use smpl_osv.Libc.Tokens.{words, words-short, Tokens, done, token, strdup-words}

-- The string at `s`.
pub read_string : ℕ → ℕ → Bytes → Option (List ℕ)
read_string zero s m = none
read_string (suc fuel) s m =
    let rest = read_string fuel (s + 1) m in
    if m s == 0 then some [] else do xs ← rest; some (m s ∷ xs)

-- A memory with the string at `s`.
pub write_string : ℕ → List ℕ → Bytes → Bytes
write_string s [] m = update m s 0
write_string s (x ∷ xs) m = update (write_string (s + 1) xs m) s x

-- The tokens that the calls of `strtok` return, each read before the next call.
pub tokens : ℕ → ℕ → ℕ → ℕ → ℕ → Bytes → Option (List (List ℕ))
unfolding read_string
tokens zero fuel str delim p m = none
tokens (suc calls) fuel str delim p m = do
  (s, p', m') ← strtok fuel str delim p m
  let rest = tokens calls fuel 0 delim p' m'
  if s == 0 then some [] else do w ← read_string fuel s m'; ws ← rest; some (w ∷ ws)

-- The delimiter stands at 1, the string at 3, and the copy behind it.
abbrev given : ℕ → List ℕ → Bytes
given c xs = write_string 3 xs (write_string 1 (c ∷ []) (λ a. 0))

unfoldable pub split_string : ℕ → List ℕ → Option (List (List ℕ))
unfolding write_string tokens
split_string c xs = do
  let fuel = length xs + 2
  (copy, m) ← strdup fuel (λ n. n + 3) 3 (given c xs)
  tokens fuel fuel copy 1 0 m

read_string-IsCstr :
    (fuel s : ℕ) (xs : List ℕ) (m : Bytes)
    → length xs < fuel
    → IsCstr m s xs
    → read_string fuel s m ≡ some xs
unfolding read_string
read_string-IsCstr zero s xs m l at = absurd (omega arith)
read_string-IsCstr (suc fuel) s [] m l at = rw at refl
read_string-IsCstr (suc fuel) s (x ∷ xs) m l (here, ne, rest) =
    let more = read_string-IsCstr fuel (s + 1) xs m (omega arith) rest in
    rw (here, ==_ne x 0 ne, more) refl

write_string-before : (s i : ℕ) (xs : List ℕ) (m : Bytes) → i < s → write_string s xs m i ≡ m i
unfolding write_string
write_string-before s i [] m l = update_ne m s 0 i (λ z. absurd (omega arith))
write_string-before s i (x ∷ xs) m l =
    update_ne (write_string (s + 1) xs m) s x i (λ z. absurd (omega arith))
    ∙ write_string-before (s + 1) i xs m (omega arith)

write_string-IsCstr :
    (s : ℕ) (xs : List ℕ) (m : Bytes) → All (λ x. x ≢ 0) xs → IsCstr (write_string s xs m) s xs
unfolding write_string
write_string-IsCstr s [] m all = update_self m s 0
write_string-IsCstr s (x ∷ xs) m (ne, all) = (
  update_self (write_string (s + 1) xs m) s x,
  ne,
  IsCstr-frame (write_string (s + 1) xs m) _ (s + 1) xs
      (λ i l u. update_ne (write_string (s + 1) xs m) s x i (λ z. absurd (omega arith)))
      (write_string-IsCstr (s + 1) xs m all),
)

tokens-Tokens :
    (calls fuel d str p : ℕ) (m : Bytes) (ws : List (List ℕ))
    → Tokens fuel d str p m ws
    → length ws < calls
    → All (λ w. length w < fuel) ws
    → tokens calls fuel str d p m ≡ some ws
unfolding tokens
tokens-Tokens zero fuel d str p m ws t l short = absurd (omega arith)
tokens-Tokens (suc calls) fuel d str p m [] (done run) l short = rw run refl
tokens-Tokens (suc calls) fuel d str p m (w ∷ ws) (token {s} {p'} {m'} run nz at t) l short =
    let word = read_string-IsCstr fuel _ w _ short.0 at in
    let rest = tokens-Tokens calls fuel d 0 _ _ ws t (omega arith) short.1 in
    rw (run, ==_ne _ 0 nz, word, rest) refl

-- The delimiter and the string stand where `split_string` puts them.
given-IsCstr :
    (c : ℕ) (xs : List ℕ)
    → c ≢ 0
    → All (λ x. x ≢ 0) xs
    → IsCstr (given c xs) 1 (c ∷ []) × IsCstr (given c xs) 3 xs
given-IsCstr c xs ne all =
    let first = write_string 1 (c ∷ []) (λ a. 0) in
    (
      IsCstr-frame first (given c xs) 1 (c ∷ [])
          (λ i l u. write_string-before 3 i xs first (omega arith))
          (write_string-IsCstr 1 (c ∷ []) (λ a. 0) (ne, tt)),
      write_string-IsCstr 3 xs first all,
    )

-- What `strdup` and `strtok` make of a string are its words.
pub split_string-words :
    (c : ℕ) (xs : List ℕ)
    → c ≢ 0
    → All (λ x. x ≢ 0) xs
    → length xs < 2 ^ 32
    → split_string c xs ≡ some (words c xs)
unfolding split_string
split_string-words c xs ne all fits =
    let n = length xs in
    let (delim, here) = given-IsCstr c xs ne all in
    let (m, copy, _, run) =
      strdup-words (n + 2) 1 c 0 3 (n + 1 + 3) (λ k. k + 3) xs (given c xs) refl (inl (omega arith))
        (inl (omega arith)) (λ z. absurd (omega arith)) (λ z. absurd (omega arith)) (omega arith)
        fits delim here in
    let (short, few) = words-short c xs in
    rw copy
      (tokens-Tokens (n + 2) (n + 2) 1 (n + 1 + 3) 0 m (words c xs) run (omega (arith, few)) short)
