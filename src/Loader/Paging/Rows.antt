-- ===== src/Loader/Paging/Rows.antt =====
-- The entries that each loop of `paging_setup` leaves.
use smpl_osv.Base.{
  ℕ, zero, suc, ◌+◌, ◌*◌, ◌/◌, ◌^◌, ◌≤◌, ◌<◌, ◌≡◌, ◌≢◌, refl, sym, ap, ◌∙◌, Bool-cases, inl, inr,
  arith, bit_or, ◌==◌, ==_iff,
}
use mathlib.Core.Path.{subst}
use smpl_osv.Mmu.{Frames, store_self, store-index, store-frame}
use smpl_osv.Loader.Paging.{Layout, present, link_tables, fill_last, map_row, map_rows}

-- Different tables at different frames, none of the upper ones at frame 0, all below 2 GiB.
pub record IsLayout (t : Layout) : Type 0 where
  pub pml4_apart : (t.pml4 ≢ 0) × (t.pml4 ≢ t.pd_ptr_table) × (t.pml4 ≢ t.pd)
  pub pd_ptr_table_apart : (t.pd_ptr_table ≢ 0) × (t.pd_ptr_table ≢ t.pd)
  pub pd_apart : t.pd ≢ 0
  pub pt_apart : (k : ℕ) → k < 6 → (t.pml4 ≢ t.pt k) × (t.pd_ptr_table ≢ t.pt k) × (t.pd ≢ t.pt k)
  pub pt_differ : (j k : ℕ) → j < 6 → k < 6 → j ≢ k → t.pt j ≢ t.pt k
  pub fits : (t.pd_ptr_table < 2 ^ 19) × (t.pd < 2 ^ 19)
  pub pt_fits : (k : ℕ) → k < 6 → t.pt k < 2 ^ 19

module _ (t : Layout) where
  map_row-frame :
      (i n : ℕ) (m : Frames) (f j : ℕ)
      → ((k : ℕ) → k < n → f ≢ t.pt k)
      → map_row t i n m f j ≡ m f j
  unfolding map_row
  map_row-frame i zero m f j ne = refl
  map_row-frame i (suc n) m f j ne =
      store-frame (t.pt n) i _ (map_row t i n m) f j (ne n (omega arith))
      ∙ map_row-frame i n m f j (λ k l. ne k (omega arith))

  map_row-index : (i n : ℕ) (m : Frames) (f j : ℕ) → j ≢ i → map_row t i n m f j ≡ m f j
  unfolding map_row
  map_row-index i zero m f j ne = refl
  map_row-index i (suc n) m f j ne =
      store-index (t.pt n) i _ (map_row t i n m) f j ne ∙ map_row-index i n m f j ne

  pub map_rows-frame :
      (n : ℕ) (m : Frames) (f j : ℕ) → ((k : ℕ) → k < 6 → f ≢ t.pt k) → map_rows t n m f j ≡ m f j
  unfolding map_rows
  map_rows-frame zero m f j ne = refl
  map_rows-frame (suc n) m f j ne =
      map_row-frame n 6 (map_rows t n m) f j ne ∙ map_rows-frame n m f j ne

  pub link_tables-frame : (n : ℕ) (m : Frames) (f j : ℕ) → f ≢ t.pd → link_tables t n m f j ≡ m f j
  unfolding link_tables
  link_tables-frame zero m f j ne = refl
  link_tables-frame (suc n) m f j ne =
      store-frame t.pd n _ (link_tables t n m) f j ne ∙ link_tables-frame n m f j ne

  pub link_tables-above : (n : ℕ) (m : Frames) (j : ℕ) → n ≤ j → link_tables t n m t.pd j ≡ m t.pd j
  unfolding link_tables
  link_tables-above zero m j l = refl
  link_tables-above (suc n) m j l =
      store-index t.pd n _ (link_tables t n m) t.pd j (omega arith)
      ∙ link_tables-above n m j (omega arith)

  pub link_tables-table :
      (n : ℕ) (m : Frames) (k : ℕ) → k < n → link_tables t n m t.pd k ≡ present (t.pt k)
  unfolding link_tables
  link_tables-table zero m k l = ground arith
  link_tables-table (suc n) m k l = elim (Bool-cases (k == n)) [
    | inl e ↦
        subst (λ j. link_tables t (suc n) m t.pd j ≡ present (t.pt j)) (sym ((==_iff k n).0 e))
          (store_self t.pd n (present (t.pt n)) (link_tables t n m))
    | inr e ↦
        store-index t.pd n _ (link_tables t n m) t.pd k (ground arith)
        ∙ link_tables-table n m k (ground arith)
  ]

  -- The table whose address `pd[511]` is expected to hold is at frame 0.
  pub fill_last-frame :
      (n : ℕ) (m : Frames) (f j : ℕ)
      → t.pd ≢ 0
      → m t.pd 511 ≡ 0
      → f ≢ 0
      → fill_last t n m f j ≡ m f j
  unfolding fill_last
  fill_last-frame zero m f j apart last ne = refl
  fill_last-frame (suc n) m f j apart last ne =
      let done = fill_last t n m in
      let at = ap (λ e. e / 2 ^ 12) (fill_last-frame n m t.pd 511 apart last apart ∙ last) in
      store-frame (done t.pd 511 / 2 ^ 12) n _ done f j (λ e. ne (e ∙ at))
      ∙ fill_last-frame n m f j apart last ne

  module _ (layout : IsLayout t) where
    map_row-table :
        (i n : ℕ) (m : Frames) (k : ℕ)
        → k < n
        → n ≤ 6
        → map_row t i n m (t.pt k) i ≡ bit_or (0x200000 * k + 0x1000 * i) 3
    unfolding map_row
    map_row-table i zero m k l u = ground arith
    map_row-table i (suc n) m k l u = elim (Bool-cases (k == n)) [
      | inl e ↦
          subst (λ j. map_row t i (suc n) m (t.pt j) i ≡ bit_or (0x200000 * j + 0x1000 * i) 3)
            (sym ((==_iff k n).0 e)) (store_self (t.pt n) i _ (map_row t i n m))
      | inr e ↦
          let ne : k ≢ n = ground arith in
          store-frame (t.pt n) i _ (map_row t i n m) (t.pt k) i
            (layout.pt_differ k n (omega arith) (omega arith) ne)
          ∙ map_row-table i n m k (omega arith) (omega arith)
    ]

    pub map_rows-table :
        (n : ℕ) (m : Frames) (k i : ℕ)
        → k < 6
        → i < n
        → map_rows t n m (t.pt k) i ≡ bit_or (0x200000 * k + 0x1000 * i) 3
    unfolding map_rows
    map_rows-table zero m k i l u = ground arith
    map_rows-table (suc n) m k i l u = elim (Bool-cases (i == n)) [
      | inl e ↦
          subst (λ j. map_rows t (suc n) m (t.pt k) j ≡ bit_or (0x200000 * k + 0x1000 * j) 3)
            (sym ((==_iff i n).0 e)) (map_row-table n 6 (map_rows t n m) k l (omega arith))
      | inr e ↦
          let ne : i ≢ n = ground arith in
          map_row-index n 6 (map_rows t n m) (t.pt k) i ne ∙ map_rows-table n m k i l (omega arith)
    ]
