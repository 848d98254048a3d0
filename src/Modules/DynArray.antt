-- ===== src/Modules/DynArray.antt =====
-- The macros of src/kernel/include/types/dyn_array.h, for elements of eight bytes.
pub mod Growth
mod Tests
use smpl_osv.Base.{
  ℕ, ◌+◌, ◌*◌, ◌/◌, ◌%◌, ◌^◌, Bool, true, false, Option, none, some, if◌then◌else◌, ltb, leb,
  update,
}
use smpl_osv.Base.Bits.{u32}

-- The three variables, and how many elements the memory behind `array` has room for.
pub record Dyn {ℓ} (A : Type ℓ) : Type ℓ where
  pub size : ℕ
  pub tail : ℕ
  pub array : ℕ → A
  pub room : ℕ

module _ {ℓ} {A : Type ℓ} where
  -- `array` has no contents yet: `junk` is what is in its memory.
  abbrev pub init_dyn_array : (ℕ → A) → ℕ → Dyn A
  init_dyn_array junk size = record { size = size; tail = 0; array = junk; room = size }

  -- Behind the memory of the array nothing is defined.
  pub dyn_array_get : Dyn A → ℕ → Option A
  dyn_array_get d idx = if ltb idx d.room then some (d.array idx) else none

  pub dyn_array_set : Dyn A → ℕ → A → Option (Dyn A)
  unfolding update
  dyn_array_set d idx value =
      if ltb idx d.room then some (record d { array = update d.array idx value }) else none

  -- `krealloc` is given the number of elements for a number of bytes.
  pub grow : Dyn A → Dyn A
  grow d =
      let size = u32 (d.size * 2) in
      if leb d.size (d.tail + 1) then record d { size = size; room = size / 8 } else d

  unfoldable pub dyn_array_add : Dyn A → A → Option (Dyn A)
  unfolding grow update
  dyn_array_add d value =
      let d' = grow d in
      if ltb d'.tail d'.room
      then some (record d' { array = update d'.array d'.tail value; tail = u32 (d'.tail + 1) })
      else none

  abbrev pub dyn_array_size : Dyn A → ℕ
  dyn_array_size d = d.tail
