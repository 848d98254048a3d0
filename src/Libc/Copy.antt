-- ===== src/Libc/Copy.antt =====
-- What `memcpy`, `memset`, `strcpy` and `strcat` of string.c leave in memory.
use smpl_osv.Base.{
  ℕ, zero, suc, ◌+◌, ◌-◌, ◌≤◌, ◌<◌, ◌≡◌, refl, ap, ◌∙◌, ◌≢◌, ◌⊎◌, List, [], ◌∷◌, ◌++◌, arith,
  length, update, update_ne, update_self, ◌==◌, some, ==_ne, ==_iff, Bool-cases, inl, inr,
  if◌then◌else◌, ◌&&◌, leb, ltb,
}
use smpl_osv.Libc.Cstr.{IsCstr, IsCstr-frame, IsCstr_copy, IsCstr_join}
use smpl_osv.Libc.{Bytes, memcpy, memset, find_end, strcpy, strcat}

-- Nothing outside the `n` bytes from `p` differs.
abbrev pub SameOutside : ℕ → ℕ → Bytes → Bytes → Type 0
SameOutside p n m m' = (i : ℕ) → (i < p) ⊎ (p + n ≤ i) → m' i ≡ m i

memcpy-frame : (dest src num : ℕ) (m : Bytes) → SameOutside dest num m (memcpy dest src num m)
unfolding memcpy
memcpy-frame dest src zero m i out = refl
memcpy-frame dest src (suc num) m i out =
    memcpy-frame (dest + 1) (src + 1) num (update m dest (m src)) i (omega arith)
    ∙ update_ne m dest (m src) i (omega arith)

memcpy-bytes :
    (dest src num : ℕ) (m : Bytes)
    → (dest ≤ src) ⊎ (src + num ≤ dest)
    → (i : ℕ) → dest ≤ i
    → i < dest + num
    → memcpy dest src num m i ≡ m (src + (i - dest))
unfolding memcpy
memcpy-bytes dest src zero m apart i l u = ground arith
memcpy-bytes dest src (suc num) m apart i l u =
    let m' = update m dest (m src) in
    elim (Bool-cases (i == dest)) [
      | inl e ↦
          let same = (==_iff i dest).0 e in
          memcpy-frame (dest + 1) (src + 1) num m' i (omega arith)
          ∙ ap m' same
          ∙ update_self m dest (m src)
          ∙ ap m (omega arith)
      | inr e ↦
          let ne : i ≢ dest = ground arith in
          memcpy-bytes (dest + 1) (src + 1) num m' (omega arith) i (omega arith) (omega arith)
          ∙ update_ne m dest (m src) _ (omega arith)
          ∙ ap m (omega arith)
    ]

-- Where the destination does not start inside the source behind its first byte, `memcpy` copies all
-- `num` bytes as they were, also if the two overlap, and changes nothing else.
pub memcpy-copies :
    (dest src num : ℕ) (m : Bytes)
    → (dest ≤ src) ⊎ (src + num ≤ dest)
    → ((i : ℕ) → dest ≤ i → i < dest + num → memcpy dest src num m i ≡ m (src + (i - dest)))
      × SameOutside dest num m (memcpy dest src num m)
memcpy-copies dest src num m apart =
    (memcpy-bytes dest src num m apart, memcpy-frame dest src num m)

-- `memset` writes the value to the `num` bytes and to no other.
pub memset-bytes :
    (dest val num : ℕ) (m : Bytes) (i : ℕ)
    → memset dest val num m i ≡ (if leb dest i && ltb i (dest + num) then val else m i)
unfolding memset update
memset-bytes dest val zero m i = ground arith
memset-bytes dest val (suc num) m i =
    ground (arith, memset-bytes (dest + 1) val num (update m dest val) i)

pub memset-outside : (dest val num : ℕ) (m : Bytes) → SameOutside dest num m (memset dest val num m)
memset-outside dest val num m i out = ground (arith, memset-bytes dest val num m i)

pub memset-inside :
    (dest val num : ℕ) (m : Bytes) (i : ℕ)
    → dest ≤ i
    → i < dest + num
    → memset dest val num m i ≡ val
memset-inside dest val num m i l u = ground (arith, memset-bytes dest val num m i)

-- On a string that is not overwritten before it is read, `strcpy` is a `memcpy` that includes the
-- terminator.
strcpy-memcpy :
    (fuel dest src : ℕ) (xs : List ℕ) (m : Bytes)
    → length xs < fuel
    → (dest ≤ src) ⊎ (src + length xs < dest)
    → IsCstr m src xs
    → strcpy fuel dest src m ≡ some (memcpy dest src (suc (length xs)) m)
unfolding strcpy memcpy
strcpy-memcpy zero dest src xs m f apart s = ground arith
strcpy-memcpy (suc fuel) dest src [] m f apart s = rw s refl
strcpy-memcpy (suc fuel) dest src (x ∷ xs) m f apart (here, ne, rest) =
    let m' = update m dest (m src) in
    let kept =
      IsCstr-frame m m' (src + 1) xs (λ i l u. update_ne m dest (m src) i (omega arith)) rest in
    let more = strcpy-memcpy fuel (dest + 1) (src + 1) xs m' (omega arith) (omega arith) kept in
    rw (ap (λ c. c == 0) here ∙ ==_ne x 0 ne) more

-- With fuel for the string, and the destination not inside it behind its first byte, `strcpy`
-- leaves the string at the destination and changes no byte but those of the copy and its
-- terminator.
pub strcpy-IsCstr :
    (fuel dest src : ℕ) (xs : List ℕ) (m : Bytes)
    → length xs < fuel
    → (dest ≤ src) ⊎ (src + length xs < dest)
    → IsCstr m src xs
    → (m' : Bytes) × (strcpy fuel dest src m ≡ some m')
      × IsCstr m' dest xs
      × SameOutside dest (suc (length xs)) m m'
strcpy-IsCstr fuel dest src xs m f apart s =
    let n = suc (length xs) in
    let copied = memcpy-bytes dest src n m (omega arith) in
    (
      memcpy dest src n m,
      strcpy-memcpy fuel dest src xs m f apart s,
      IsCstr_copy m _ src dest xs copied s,
      memcpy-frame dest src n m,
    )

find_end_lem :
    (fuel dest : ℕ) (xs : List ℕ) (m : Bytes)
    → length xs < fuel
    → IsCstr m dest xs
    → find_end fuel dest m ≡ some (dest + length xs)
unfolding find_end
find_end_lem zero dest xs m f s = ground arith
find_end_lem (suc fuel) dest [] m f s = rw s (ap some (omega arith))
find_end_lem (suc fuel) dest (x ∷ xs) m f (here, ne, rest) =
    rw (here, ==_ne x 0 ne)
      (find_end_lem fuel (dest + 1) xs m (omega arith) rest ∙ ap some (omega arith))

-- With fuel for both strings, and the second not overwritten, `strcat` leaves their concatenation
-- at the first and changes no byte but the first's terminator and those behind it that it needs.
pub strcat-IsCstr :
    (fuel dest src : ℕ) (xs ys : List ℕ) (m : Bytes)
    → length xs < fuel
    → length ys < fuel
    → (dest + length xs ≤ src) ⊎ (src + length ys < dest + length xs)
    → IsCstr m dest xs
    → IsCstr m src ys
    → (m' : Bytes) × (strcat fuel dest src m ≡ some m')
      × IsCstr m' dest (xs ++ ys)
      × SameOutside (dest + length xs) (suc (length ys)) m m'
unfolding strcat
strcat-IsCstr fuel dest src xs ys m f g apart s t =
    let e = dest + length xs in
    let (m', run, copy, same) = strcpy-IsCstr fuel e src ys m g apart t in
    (
      m',
      rw (find_end_lem fuel dest xs m f s) run,
      IsCstr_join m m' dest xs ys (λ i l u. same i (inl u)) s copy,
      same,
    )
