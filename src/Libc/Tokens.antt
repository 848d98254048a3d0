-- ===== src/Libc/Tokens.antt =====
-- The tokens that `strtok` of string.c finds, for a delimiter of one byte.
mod Spans
mod Words
mod Calls
pub use Words.{words, words-short}
use smpl_osv.Base.{
  ℕ, zero, suc, ◌+◌, ◌*◌, ◌^◌, ◌≤◌, ◌<◌, ◌≡◌, refl, sym, ap, ◌∙◌, ◌≢◌, ◌⊎◌, inl, inr, List, [], ◌∷◌,
  ◌++◌, arith, length, take, drop, take-drop, length-drop, length-take, ◌==◌, ◌&&◌, some, none,
  Bool, true, false, ==_refl, ==_ne, ==_iff, Bool-cases, if◌then◌else◌, update, update_self,
  update_ne,
}
use mathlib.Core.Path.{subst}
use mathlib.Core.List.{append-nil, append_assoc}
use smpl_osv.Libc.Cstr.{IsCstr, IsCstr_move, IsCstr-append, IsCstr-frame, IsCstr_cut, IsCstr-drop}
use smpl_osv.Libc.{Bytes, strspn, strcspn, strtok, ◌>>=◌}
use Spans.{leading, span, strspn-leading, strcspn-span}
use Words.{close, split, split-leading, after, span-le, leading-le, leading-cases, split_word}
use Calls.{StartsAt, strtok_none, strtok_last, strtok_cut, strtok_null}
use smpl_osv.Libc.Copy.{SameOutside, strcpy-IsCstr}
use smpl_osv.Libc.Scan.{strlen-length}
use smpl_osv.Libc.{strdup}

-- Calls of `strtok`, the first with `str` and the later ones with NULL, that return these strings
-- in turn and then NULL.
pub data Tokens (fuel delim : ℕ) : ℕ → ℕ → Bytes → List (List ℕ) → Type 0 where
  done :
      {str p p' : ℕ} {m m' : Bytes}
      → strtok fuel str delim p m ≡ some (0, p', m')
      → Tokens fuel delim str p m []
  token :
      {str p s p' : ℕ} {m m' : Bytes} {w : List ℕ} {ws : List (List ℕ)}
      → strtok fuel str delim p m ≡ some (s, p', m')
      → s ≢ 0
      → IsCstr m' s w
      → Tokens fuel delim 0 p' m' ws
      → Tokens fuel delim str p m (w ∷ ws)

-- What the calls need: fuel, an `unsigned int` for the length, and the delimiters out of the way.
pub record Ready (fuel d c : ℕ) (m : Bytes) (q : ℕ) (xs : List ℕ) : Type 0 where
  pub short : suc (length xs) < fuel
  pub fits : length xs < 2 ^ 32
  pub delim_ne : d ≢ 0
  pub start_ne : q ≢ 0
  pub delim : IsCstr m d (c ∷ [])
  pub str : IsCstr m q xs
  pub apart : (d + 1 < q) ⊎ (q + length xs < d)

module _ (fuel d c : ℕ) where
  -- The rest of the string behind a token, which a zero has been written behind.
  Ready-rest :
      (m : Bytes) (q stop : ℕ) (xs zs : List ℕ) (r : ℕ)
      → Ready fuel d c m q xs
      → q ≤ stop
      → stop + suc (length zs) ≡ q + length xs
      → IsCstr m stop (r ∷ zs)
      → Ready fuel d c (update m stop 0) (stop + 1) zs
  Ready-rest m q stop xs zs r h le size here = record {
    short = ground (arith, h.short);
    fits = ground (arith, h.fits);
    delim_ne = h.delim_ne;
    start_ne = λ z. absurd (omega arith);
    delim =
        IsCstr-frame m _ d (c ∷ [])
          (λ i l u.
            update_ne m stop 0 i
              (λ z. absurd (elim h.apart [ inl a ↦ omega arith | inr b ↦ omega arith ])))
          h.delim;
    str =
        IsCstr-frame m _ (stop + 1) zs (λ i l u. update_ne m stop 0 i (λ z. absurd (omega arith)))
          here.2;
    apart = elim h.apart [ inl a ↦ inl (omega arith) | inr b ↦ inr (omega arith) ];
  }

  -- The token, once a zero stands behind it.
  word_at :
      (m m' : Bytes) (s y : ℕ) (ys : List ℕ)
      → IsCstr m s (y ∷ ys)
      → ((i : ℕ) → s ≤ i → i < s + suc (span c ys) → m' i ≡ m i)
      → m' (s + suc (span c ys)) ≡ 0
      → IsCstr m' s (y ∷ take (span c ys) ys)
  word_at m m' s y ys at same end =
      let size = length-take (span c ys) ys (span-le c ys) in
      IsCstr_cut m m' s (y ∷ take (span c ys) ys) (drop (span c ys) ys)
        (λ i l u. same i l (omega arith)) (ap m' (omega arith) ∙ end)
        (subst (λ ws. IsCstr m s (y ∷ ws)) (sym (take-drop (span c ys) ys)) at)

  -- One token, and what the later calls do from there.
  word_step :
      (m : Bytes) (str p q k : ℕ) (xs : List ℕ) (y : ℕ) (ys rest : List ℕ)
      → Ready fuel d c m q xs
      → StartsAt str p q
      → strspn fuel q d m ≡ some k
      → strcspn fuel (q + k) d m ≡ some (suc (span c ys))
      → k ≤ length xs
      → drop k xs ≡ y ∷ ys
      → drop (span c ys) ys ≡ rest
      → ((m' : Bytes) (p' : ℕ) (zs : List ℕ)
          → length zs < length xs
          → Ready fuel d c m' p' zs
          → Tokens fuel d 0 p' m' (words c zs))
      → Tokens fuel d str p m ((y ∷ take (span c ys) ys) ∷ after c rest)
  word_step m str p q k xs y ys [] h start e f le eq r more =
      let here = subst (λ ws. IsCstr m (q + k) ws) eq (IsCstr-drop m q k xs le h.str) in
      let bound = span-le c ys in
      let end : m (q + k + suc (span c ys)) ≡ 0 =
        subst (λ ws. IsCstr m (q + k + suc (span c ys)) ws) r
          (IsCstr-drop m (q + k) (suc (span c ys)) (y ∷ ys) (omega arith) here) in
      token
        (strtok_last fuel d m str p q k start (suc (span c ys)) e f (λ z. absurd (omega arith)) end)
        (λ z. h.start_ne (omega arith)) (word_at m m (q + k) y ys here (λ i l u. refl) end)
        (done (strtok_null fuel d m))
  word_step m str p q k xs y ys (x ∷ zs) h start e f le eq r more =
      let l = suc (span c ys) in
      let here = subst (λ ws. IsCstr m (q + k) ws) eq (IsCstr-drop m q k xs le h.str) in
      let bound = span-le c ys in
      let size : k + suc (length ys) ≡ length xs = omega (arith, length-drop k xs, ap length eq) in
      let left : span c ys + suc (length zs) ≡ length ys =
        omega (arith, length-drop (span c ys) ys, ap length r) in
      let tail =
        subst (λ ws. IsCstr m (q + k + l) ws) r
          (IsCstr-drop m (q + k) l (y ∷ ys) (omega arith) here) in
      let ready = Ready-rest m q (q + k + l) xs zs x h (omega arith) (omega arith) tail in
      token
        (strtok_cut fuel d m str p q k start l e f (λ z. absurd (omega arith))
          (λ z. tail.1 (sym tail.0 ∙ z)))
        (λ z. h.start_ne (omega arith))
        (word_at m (update m (q + k + l) 0) (q + k) y ys here
          (λ i a b. update_ne m (q + k + l) 0 i (λ z. absurd (omega arith)))
          (update_self m (q + k + l) 0))
        (more (update m (q + k + l) 0) (q + k + l + 1) zs (omega arith) ready)

  -- `n` bounds what is left to read.
  Tokens-below :
      (n : ℕ) (m : Bytes) (str p q : ℕ) (xs : List ℕ)
      → length xs < n
      → Ready fuel d c m q xs
      → StartsAt str p q
      → Tokens fuel d str p m (words c xs)
  Tokens-below zero m str p q xs le h start = absurd (omega arith)
  Tokens-below (suc n) m str p q xs le h start =
      let k = leading c xs in
      let bound = leading-le c xs in
      let e = strspn-leading m d c h.delim fuel q xs h.short h.str in
      let at = IsCstr-drop m q k xs bound h.str in
      let size = length-drop k xs in
      let f =
        strcspn-span m d c h.delim fuel (q + k) (drop k xs) (ground (arith, h.short))
          (ground (arith, h.fits)) h.delim_ne (λ z. h.start_ne (omega arith)) at in
      elim (leading-cases c xs) [
        | inl none_left ↦
            let nothing : words c xs ≡ [] =
              split-leading c xs ∙ ap (λ ws. split c [] ws) none_left in
            let f' = f ∙ ap (λ ws. some (span c ws)) none_left in
            subst (λ ws. Tokens fuel d str p m ws) (sym nothing)
              (done (strtok_none fuel d m str p q k start e f'))
        | inr (y, ys, eq, ne) ↦
            let word = split_word c y ys (drop (span c ys) ys) ne refl in
            let all : words c xs ≡ (y ∷ take (span c ys) ys) ∷ after c (drop (span c ys) ys) =
              split-leading c xs ∙ ap (λ ws. split c [] ws) eq ∙ word in
            let first : span c (y ∷ ys) ≡ suc (span c ys) = rw ne refl in
            let f' = f ∙ ap (λ ws. some (span c ws)) eq ∙ ap some first in
            subst (λ ws. Tokens fuel d str p m ws) (sym all)
              (word_step m str p q k xs y ys (drop (span c ys) ys) h start e f' bound eq refl
                (λ m' p' zs less ready.
                  Tokens-below n m' 0 p' p' zs (omega arith) ready
                    (==_ne p' 0 ready.start_ne, refl)))
      ]

-- With fuel for the string, `strdup` returns the address that `malloc` gives and leaves a copy of
-- the string there, and `strtok`, called with it and then with NULL, returns the pieces between the
-- delimiters that are not empty, in their order and each as a string, and then NULL.
pub strdup-words :
    (fuel d c p src str : ℕ) (malloc : ℕ → ℕ) (xs : List ℕ) (m : Bytes)
    → malloc (length xs + 1) ≡ str
    → (src + length xs < str) ⊎ (str + length xs < src)
    → (d + 1 < str) ⊎ (str + length xs < d)
    → str ≢ 0
    → d ≢ 0
    → suc (length xs) < fuel
    → length xs < 2 ^ 32
    → IsCstr m d (c ∷ [])
    → IsCstr m src xs
    → (m' : Bytes) × (strdup fuel malloc src m ≡ some (str, m'))
      × IsCstr m' str xs
      × Tokens fuel d str p m' (words c xs)
unfolding strdup
strdup-words fuel d c p src str malloc xs m place off away nq nd fl wl dl s =
    let len = strlen-length fuel src xs m (omega arith) s in
    let (m', run, copy, same) =
      strcpy-IsCstr fuel str src xs m (omega arith)
        (elim off [ inl a ↦ inr (omega arith) | inr b ↦ inl (omega arith) ]) s in
    let delim' =
      IsCstr-frame m m' d (c ∷ [])
        (λ i l u. same i (elim away [ inl a ↦ inl (omega arith) | inr b ↦ inr (omega arith) ]))
        dl in
    let ready : Ready fuel d c m' str xs = record {
      short = fl;
      fits = wl;
      delim_ne = nd;
      start_ne = nq;
      delim = delim';
      str = copy;
      apart = away;
    } in
    let first : (if str == 0 then p else str) ≡ str = rw (==_ne str 0 nq) refl in
    let given : (str == 0 && p == 0) ≡ false = rw (==_ne str 0 nq) refl in
    (
      m',
      rw (len, place, run) refl,
      copy,
      Tokens-below fuel d c (suc (length xs)) m' str p str xs (omega arith) ready (given, first),
    )
