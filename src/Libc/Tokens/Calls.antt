-- ===== src/Libc/Tokens/Calls.antt =====
-- One call of `strtok`, by what `strspn` and `strcspn` return to it.
use smpl_osv.Base.{
  ℕ, ◌+◌, ◌≡◌, refl, ◌≢◌, arith, ◌==◌, ◌&&◌, some, true, false, ==_ne, if◌then◌else◌, update,
}
use smpl_osv.Libc.{Bytes, strspn, strcspn, strtok, ◌>>=◌}

-- The call starts at `q`: at the string it is given, or with NULL where the last call stopped.
abbrev pub StartsAt : ℕ → ℕ → ℕ → Type 0
StartsAt str p q = ((str == 0 && p == 0) ≡ false) × ((if str == 0 then p else str) ≡ q)

module _ (fuel d : ℕ) (m : Bytes) (str p q k : ℕ) (start : StartsAt str p q) where
  pub strtok_none :
      strspn fuel q d m ≡ some k
      → strcspn fuel (q + k) d m ≡ some 0
      → strtok fuel str d p m ≡ some (0, 0, m)
  unfolding strtok
  strtok_none e f =
      let same : (q + k + 0 == q + k) ≡ true = ground arith in
      rw (start.0, start.1, ◌>>=◌, e, f, same) refl

  pub strtok_last :
      (l : ℕ)
      → strspn fuel q d m ≡ some k
      → strcspn fuel (q + k) d m ≡ some l
      → l ≢ 0
      → m (q + k + l) ≡ 0
      → strtok fuel str d p m ≡ some (q + k, 0, m)
  unfolding strtok
  strtok_last l e f nl z =
      let ne : (q + k + l == q + k) ≡ false = ==_ne _ _ (λ h. nl (omega arith)) in
      rw (start.0, start.1, ◌>>=◌, e, f, ne, z) refl

  pub strtok_cut :
      (l : ℕ)
      → strspn fuel q d m ≡ some k
      → strcspn fuel (q + k) d m ≡ some l
      → l ≢ 0
      → m (q + k + l) ≢ 0
      → strtok fuel str d p m ≡ some (q + k, q + k + l + 1, update m (q + k + l) 0)
  unfolding strtok
  strtok_cut l e f nl nz =
      let ne : (q + k + l == q + k) ≡ false = ==_ne _ _ (λ h. nl (omega arith)) in
      rw (start.0, start.1, ◌>>=◌, e, f, ne, ==_ne _ _ nz) refl

pub strtok_null : (fuel d : ℕ) (m : Bytes) → strtok fuel 0 d 0 m ≡ some (0, 0, m)
unfolding strtok
strtok_null fuel d m = refl
