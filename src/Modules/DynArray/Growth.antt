-- ===== src/Modules/DynArray/Growth.antt =====
-- An array of dyn_array.h as a list, as long as it does not grow.
use smpl_osv.Base.{
  ℕ, zero, suc, ◌+◌, ◌*◌, ◌/◌, ◌^◌, ◌≤◌, ◌<◌, ◌≡◌, refl, sym, ap, ◌∙◌, ◌≢◌, arith, true, false,
  none, some, List, [], ◌∷◌, ◌++◌, length, length-append, get_elem?, ltb, leb, ltb-false, lt→ltb,
  le→leb, update, update_self, update_ne, Bool-cases, inl, inr, ◌==◌, ==_iff,
}
use smpl_osv.Base.Bits.{u32}
use smpl_osv.Modules.DynArray.{Dyn, init_dyn_array, dyn_array_get, grow, dyn_array_add}

module _ {ℓ} {A : Type ℓ} where
  get_elem?-append_before :
      (xs : List A) (v : A) (i : ℕ) → i < length xs → get_elem? (xs ++ v ∷ []) i ≡ get_elem? xs i
  get_elem?-append_before [] v i h = absurd (omega arith)
  get_elem?-append_before (x ∷ xs) v zero h = refl
  get_elem?-append_before (x ∷ xs) v (suc i) h = get_elem?-append_before xs v i (omega arith)

  get_elem?-append_at :
      (xs : List A) (v : A) (i : ℕ) → i ≡ length xs → get_elem? (xs ++ v ∷ []) i ≡ some v
  get_elem?-append_at [] v zero h = refl
  get_elem?-append_at [] v (suc i) h = absurd (omega arith)
  get_elem?-append_at (x ∷ xs) v zero h = absurd (omega arith)
  get_elem?-append_at (x ∷ xs) v (suc i) h = get_elem?-append_at xs v i (omega arith)

  -- The array holds the list, and has room for as many elements as `size` says.
  pub record IsArray (d : Dyn A) (xs : List A) : Type ℓ where
    pub as_long : d.tail ≡ length xs
    pub roomy : d.room ≡ d.size
    pub narrow : d.size < 2 ^ 31
    pub fits : length xs < d.size
    pub held : (i : ℕ) → i < length xs → some (d.array i) ≡ get_elem? xs i

  pub init_dyn_array-IsArray :
      (junk : ℕ → A) (size : ℕ) → 0 < size → size < 2 ^ 31 → IsArray (init_dyn_array junk size) []
  init_dyn_array-IsArray junk size pos h = record {
    as_long = refl;
    roomy = refl;
    narrow = h;
    fits = pos;
    held = λ i lt. absurd (omega arith);
  }

  added : (d : Dyn A) (v : A) → Dyn A
  added d v = record d { array = update d.array d.tail v; tail = u32 (d.tail + 1) }

  add_run :
      (d : Dyn A) (xs : List A) (v : A)
      → IsArray d xs
      → length xs + 1 < d.size
      → dyn_array_add d v ≡ some (added d v)
  unfolding dyn_array_add grow added
  add_run d xs v is lt =
      let same : leb d.size (d.tail + 1) ≡ false = ground (arith, is.as_long) in
      let room : ltb d.tail d.room ≡ true = ground (arith, is.as_long, is.roomy) in
      rw (same, room) refl

  pub dyn_array_get-IsArray :
      (d : Dyn A) (xs : List A) (i : ℕ)
      → IsArray d xs
      → i < length xs
      → dyn_array_get d i ≡ get_elem? xs i
  unfolding dyn_array_get
  dyn_array_get-IsArray d xs i is lt =
      let room : ltb i d.room ≡ true = lt→ltb _ _ (omega (arith, is.roomy, is.fits)) in
      rw room (is.held i lt)

  added-IsArray :
      (d : Dyn A) (xs : List A) (v : A)
      → IsArray d xs
      → length xs + 1 < d.size
      → IsArray (added d v) (xs ++ v ∷ [])
  unfolding added
  added-IsArray d xs v is lt =
      let size = length-append xs (v ∷ []) in
      record {
        as_long = omega (arith, size, is.as_long, is.narrow);
        roomy = is.roomy;
        narrow = is.narrow;
        fits = omega (arith, size);
        held = λ i less. elim (Bool-cases (i == d.tail)) [
          | inl h ↦
              let at = (==_iff _ _).0 h in
              ap some (ap (update d.array d.tail v) at ∙ update_self d.array d.tail v)
              ∙ sym (get_elem?-append_at xs v i (omega (arith, is.as_long)))
          | inr h ↦
              let ne : i ≢ d.tail = λ z. absurd (ground arith) in
              let before : i < length xs = ground (arith, size, is.as_long) in
              ap some (update_ne d.array d.tail v i ne)
              ∙ is.held i before
              ∙ sym (get_elem?-append_before xs v i before)
        ];
      }

  -- As long as one more element than the new one is within `size`, adding an element appends it to
  -- the list that the array holds. With the last element within `size` the array grows to an eighth
  -- of the room that it needs, and for an array of at least two elements nothing is defined any
  -- more.
  pub dyn_array_add-IsArray :
      (d : Dyn A) (xs : List A) (v : A)
      → IsArray d xs
      → (length xs + 1 < d.size
          → (d' : Dyn A) × (dyn_array_add d v ≡ some d')
            × IsArray d' (xs ++ v ∷ [])
            × (d'.size ≡ d.size))
        × (length xs + 1 ≡ d.size → 2 ≤ d.size → dyn_array_add d v ≡ none)
  unfolding dyn_array_add grow added
  dyn_array_add-IsArray d xs v is = (
    λ lt. (added d v, add_run d xs v is lt, added-IsArray d xs v is lt, refl),
    λ full two.
        let full_now : leb d.size (d.tail + 1) ≡ true = le→leb _ _ (omega (arith, is.as_long)) in
        let no_room : ltb d.tail (u32 (d.size * 2) / 8) ≡ false =
          ltb-false _ _ (omega (arith, is.as_long, is.narrow)) in
        rw (full_now, no_room) refl,
  )
