-- ===== src/Libc.antt =====
-- The kernel's C library, src/libc/src/string.c, on a flat memory of bytes. Pointers are numbers
-- and 0 is NULL; loops without a bound of their own take fuel, and `none` means that it ran out.
pub mod Cstr
pub mod Copy
pub mod Scan
pub mod Compare
pub mod Suffix
pub mod Tokens
pub mod Split
mod Tests
use smpl_osv.Base.{
  ℕ, zero, suc, ◌+◌, ◌-◌, ◌%◌, ◌^◌, Bool, true, false, ◌&&◌, ◌||◌, not, Option, none, some, ◌==◌,
  if◌then◌else◌, ltb, update, List, [], ◌∷◌,
}
use smpl_osv.Base.Int.{ℤ, pos, sub_ℕ}
use smpl_osv.Base.Bits.{u32}

abbrev pub Bytes : Type 0
Bytes = ℕ → ℕ

infixl 5 ◌>>=◌
abbrev pub ◌>>=◌ {ℓ κ} : {A : Type ℓ} {B : Type κ} → Option A → (A → Option B) → Option B
none >>= f = none
some a >>= f = f a

-- `*buf++ = *src++`, `num` times.
pub memcpy : ℕ → ℕ → ℕ → Bytes → Bytes
memcpy dest src zero m = m
memcpy dest src (suc num) m = memcpy (dest + 1) (src + 1) num (update m dest (m src))

-- `val` is a `uint8_t`.
pub memset : ℕ → ℕ → ℕ → Bytes → Bytes
memset dest val zero m = m
memset dest val (suc num) m = memset (dest + 1) val num (update m dest val)

-- `while (*strDest++ = *strSrc++);`
pub strcpy : ℕ → ℕ → ℕ → Bytes → Option Bytes
strcpy zero dest src m = none
strcpy (suc fuel) dest src m =
    let c = m src in
    let m' = update m dest c in
    let rest = strcpy fuel (dest + 1) (src + 1) m' in if c == 0 then some m' else rest

-- The first loop of `strcat`: the address of the terminator.
pub find_end : ℕ → ℕ → Bytes → Option ℕ
find_end zero dest m = none
find_end (suc fuel) dest m =
    let rest = find_end fuel (dest + 1) m in if m dest == 0 then some dest else rest

pub strcat : ℕ → ℕ → ℕ → Bytes → Option Bytes
unfolding strcpy find_end
strcat fuel dest src m = do e ← find_end fuel dest m; strcpy fuel e src m

-- The index of the terminator, from `size` on.
pub strlen_from : ℕ → ℕ → ℕ → Bytes → Option ℕ
strlen_from zero str size m = none
strlen_from (suc fuel) str size m =
    let rest = strlen_from fuel str (size + 1) m in if m (str + size) == 0 then some size else rest

pub strlen : ℕ → ℕ → Bytes → Option ℕ
unfolding strlen_from
strlen fuel str m = strlen_from fuel str 0 m

-- The bytes are compared as `unsigned char`.
unfoldable pub strcmp : ℕ → ℕ → ℕ → Bytes → Option ℤ
strcmp zero s1 s2 m = none
strcmp (suc fuel) s1 s2 m =
    let rest = strcmp fuel (s1 + 1) (s2 + 1) m in
    if not (m s1 == 0) && m s1 == m s2 then rest else some (sub_ℕ (m s1) (m s2))

-- A `char` is signed: the difference of two bytes as such.
abbrev pub char_diff : ℕ → ℕ → ℤ
char_diff a b = sub_ℕ ((a + 128) % 256) ((b + 128) % 256)

abbrev pub is_zero : ℤ → Bool
is_zero (pos zero) = true
is_zero _ = false

-- `!strcmp` on strings as lists.
abbrev pub string_eq : List ℕ → List ℕ → Bool
string_eq [] [] = true
string_eq [] (y ∷ ys) = false
string_eq (x ∷ xs) [] = false
string_eq (x ∷ xs) (y ∷ ys) = x == y && string_eq xs ys

-- `!strcmp(a, b)`.
abbrev pub same_string : ℕ → ℕ → ℕ → Bytes → Option Bool
same_string fuel a b m = do r ← strcmp fuel a b m; some (is_zero r)

-- The loop of `strncmp`, with `n` bytes left before `end`; it ends by itself.
pub strncmp_from : ℕ → ℤ → ℕ → ℕ → Bytes → ℤ
strncmp_from zero result s1 s2 m = result
strncmp_from (suc n) result s1 s2 m =
    let rest = strncmp_from n (char_diff (m s1) (m s2)) (s1 + 1) (s2 + 1) m in
    if is_zero result && (not (m s1 == 0) || not (m s2 == 0)) then rest else result

pub strncmp : ℕ → ℕ → ℕ → Bytes → ℤ
unfolding strncmp_from
strncmp s1 s2 n m = strncmp_from n (pos 0) s1 s2 m

-- The inner loop of `strspn`: whether the byte is among those at `p`.
pub among : ℕ → ℕ → ℕ → Bytes → Option Bool
among zero p c m = none
among (suc fuel) p c m =
    let rest = among fuel (p + 1) c m in
    if m p == 0 then some false else if m p == c then some true else rest

pub strspn_from : ℕ → ℕ → ℕ → ℕ → Bytes → Option ℕ
unfolding among
strspn_from zero n cs ct m = none
strspn_from (suc fuel) n cs ct m =
    let rest = strspn_from fuel (n + 1) (cs + 1) ct m in
    if m cs == 0
    then some n
    else do found ← among (suc fuel) ct (m cs) m; if found then rest else some n

pub strspn : ℕ → ℕ → ℕ → Bytes → Option ℕ
unfolding strspn_from
strspn fuel cs ct m = strspn_from fuel 0 cs ct m

pub strchr : ℕ → ℕ → ℕ → Bytes → Option ℕ
strchr zero s c m = none
strchr (suc fuel) s c m =
    let rest = strchr fuel (s + 1) c m in
    if m s == c then some s else if m s == 0 then some 0 else rest

-- `len` is an `unsigned int`.
pub strcspn_from : ℕ → ℕ → ℕ → ℕ → Bytes → Option ℕ
unfolding strchr
strcspn_from zero len s1 s2 m = none
strcspn_from (suc fuel) len s1 s2 m =
    let rest = strcspn_from fuel (u32 (len + 1)) (s1 + 1) s2 m in
    if m s1 == 0
    then some len
    else do found ← strchr (suc fuel) s2 (m s1) m; if not (found == 0) then some len else rest

pub strcspn : ℕ → ℕ → ℕ → Bytes → Option ℕ
unfolding strcspn_from
strcspn fuel s1 s2 m = if s1 == 0 || s2 == 0 then some 0 else strcspn_from fuel 0 s1 s2 m

-- With a string `strtok` starts on it, with NULL it goes on where the call before stopped, which
-- the static variable `p` keeps. The result is the token, or 0, with the new `p` and the memory.
pub strtok : ℕ → ℕ → ℕ → ℕ → Bytes → Option (ℕ × ℕ × Bytes)
unfolding strspn strcspn
strtok fuel str delim p m = if str == 0 && p == 0 then some (0, p, m) else do
  let from = if str == 0 then p else str
  n ← strspn fuel from delim m
  let token = from + n
  k ← strcspn fuel token delim m
  let stop = token + k
  if stop == token
      then some (0, 0, m)
      else if m stop == 0
      then some (token, 0, m)
      else some (token, stop + 1, update m stop 0)

-- `malloc` is a parameter: the address it returns for a number of bytes.
pub strdup : ℕ → (ℕ → ℕ) → ℕ → Bytes → Option (ℕ × Bytes)
unfolding strlen strcpy
strdup fuel malloc src m = do
  len ← strlen fuel src m
  let str = malloc (len + 1)
  m' ← strcpy fuel str src m
  some (str, m')

-- `endswith` of the kernel's util.c; 0 and 1 are `false` and `true`.
pub endswith : ℕ → ℕ → ℕ → Bytes → Option Bool
unfolding strlen strncmp
endswith fuel str suffix m = if str == 0 || suffix == 0 then some false else do
  lenstr ← strlen fuel str m
  lensuffix ← strlen fuel suffix m
  let from = str + lenstr - lensuffix
  some (if ltb lenstr lensuffix then false else is_zero (strncmp from suffix lensuffix m))
