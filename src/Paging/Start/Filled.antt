-- ===== src/Paging/Start/Filled.antt =====
-- The entries that the loops of `init_paging` leave.
use smpl_osv.Base.{
  ℕ, zero, suc, ◌+◌, ◌*◌, ◌^◌, ◌≤◌, ◌<◌, ◌≡◌, ◌≢◌, refl, sym, ap, ◌∙◌, Bool-cases, inl, inr, arith,
  bit_or, ◌==◌, ==_iff, ltb, if◌then◌else◌, update, update_self, update_ne,
}
use mathlib.Core.Path.{subst}
use smpl_osv.Base.Bits.{bit_or_add}
use smpl_osv.Mmu.{Frames, store_self, store-index, store-frame}
use smpl_osv.Paging.Tree.{store-words}
use smpl_osv.Paging.Start.{Statics, clear_table, entry_for, link_first, fill_table, fill_tables}

-- Every word of memory is one of 64 bits.
abbrev pub Words : Frames → Type 0
Words m = (f i : ℕ) → m f i < 2 ^ 64

-- Different tables at different frames, all below 4 GiB.
pub record IsStatics (t : Statics) : Type 0 where
  pub pml4_apart : (t.pml4 ≢ t.pd_ptr_table) × (t.pml4 ≢ t.pd)
  pub pd_ptr_table_apart : t.pd_ptr_table ≢ t.pd
  pub pt_apart : (k : ℕ) → k < 5 → (t.pml4 ≢ t.pt k) × (t.pd_ptr_table ≢ t.pt k) × (t.pd ≢ t.pt k)
  pub pt_differ : (j k : ℕ) → j < 5 → k < 5 → j ≢ k → t.pt j ≢ t.pt k
  pub fits : (t.pml4 < 2 ^ 20) × (t.pd_ptr_table < 2 ^ 20) × (t.pd < 2 ^ 20)
  pub pt_fits : (k : ℕ) → k < 5 → t.pt k < 2 ^ 20

pub entry_fits : (frame : ℕ) → frame < 2 ^ 20 → entry_for frame < 2 ^ 64
entry_fits frame l =
    subst (λ w. w < 2 ^ 64) (sym (bit_or_add 12 frame 3 (omega arith))) (omega arith)

pub clear_table_self : (f : ℕ) (m : Frames) (i : ℕ) → i < 512 → clear_table f m f i ≡ 0
unfolding clear_table
clear_table_self f m i l =
    ap (λ (r : ℕ → ℕ). r i) (update_self m f (λ j. if ltb j 512 then 0 else m f j)) ∙ ground arith

pub clear_table-frame : (f : ℕ) (m : Frames) (x i : ℕ) → x ≢ f → clear_table f m x i ≡ m x i
unfolding clear_table
clear_table-frame f m x i ne =
    ap (λ (r : ℕ → ℕ). r i) (update_ne m f (λ j. if ltb j 512 then 0 else m f j) x ne)

pub clear_table-Words : (f : ℕ) (m : Frames) → Words m → Words (clear_table f m)
unfolding clear_table update
clear_table-Words f m words x i = ground (arith, words x i, words f i)

module _ (t : Statics) where
  pub link_first-frame : (n : ℕ) (m : Frames) (f j : ℕ) → f ≢ t.pd → link_first t n m f j ≡ m f j
  unfolding link_first
  link_first-frame zero m f j ne = refl
  link_first-frame (suc n) m f j ne =
      store-frame t.pd n _ (link_first t n m) f j ne ∙ link_first-frame n m f j ne

  pub link_first-above : (n : ℕ) (m : Frames) (j : ℕ) → n ≤ j → link_first t n m t.pd j ≡ m t.pd j
  unfolding link_first
  link_first-above zero m j l = refl
  link_first-above (suc n) m j l =
      store-index t.pd n _ (link_first t n m) t.pd j (omega arith)
      ∙ link_first-above n m j (omega arith)

  pub link_first-entry :
      (n : ℕ) (m : Frames) (k : ℕ) → k < n → link_first t n m t.pd k ≡ entry_for (t.pt k)
  unfolding link_first
  link_first-entry zero m k l = ground arith
  link_first-entry (suc n) m k l = elim (Bool-cases (k == n)) [
    | inl e ↦
        subst (λ j. link_first t (suc n) m t.pd j ≡ entry_for (t.pt j)) (sym ((==_iff k n).0 e))
          (store_self t.pd n (entry_for (t.pt n)) (link_first t n m))
    | inr e ↦
        store-index t.pd n _ (link_first t n m) t.pd k (ground arith)
        ∙ link_first-entry n m k (ground arith)
  ]

  pub link_first-Words :
      (n : ℕ) (m : Frames)
      → ((k : ℕ) → k < n → t.pt k < 2 ^ 20)
      → Words m
      → Words (link_first t n m)
  unfolding link_first
  link_first-Words zero m fits words = words
  link_first-Words (suc n) m fits words =
      store-words t.pd n _ (link_first t n m) (entry_fits (t.pt n) (fits n (omega arith)))
        (link_first-Words n m (λ k l. fits k (omega arith)) words)

fill_table-frame :
    (frame j n : ℕ) (m : Frames) (f i : ℕ) → f ≢ frame → fill_table frame j n m f i ≡ m f i
unfolding fill_table
fill_table-frame frame j zero m f i ne = refl
fill_table-frame frame j (suc n) m f i ne =
    store-frame frame n _ (fill_table frame j n m) f i ne ∙ fill_table-frame frame j n m f i ne

fill_table-entry :
    (frame j n : ℕ) (m : Frames) (i : ℕ)
    → i < n
    → fill_table frame j n m frame i ≡ bit_or (0x200000 * j + 0x1000 * i) 3
unfolding fill_table
fill_table-entry frame j zero m i l = ground arith
fill_table-entry frame j (suc n) m i l = elim (Bool-cases (i == n)) [
  | inl e ↦
      subst (λ a. fill_table frame j (suc n) m frame a ≡ bit_or (0x200000 * j + 0x1000 * a) 3)
        (sym ((==_iff i n).0 e)) (store_self frame n _ (fill_table frame j n m))
  | inr e ↦
      store-index frame n _ (fill_table frame j n m) frame i (ground arith)
      ∙ fill_table-entry frame j n m i (ground arith)
]

pub page_entry : (j i : ℕ) → bit_or (0x200000 * j + 0x1000 * i) 3 ≡ (512 * j + i) * 2 ^ 12 + 3
page_entry j i = ap (λ a. bit_or a 3) (omega arith) ∙ bit_or_add 12 (512 * j + i) 3 (omega arith)

fill_table-Words :
    (frame j n : ℕ) (m : Frames) → j < 5 → n ≤ 512 → Words m → Words (fill_table frame j n m)
unfolding fill_table
fill_table-Words frame j zero m l u words = words
fill_table-Words frame j (suc n) m l u words =
    store-words frame n _ (fill_table frame j n m)
      (subst (λ w. w < 2 ^ 64) (sym (page_entry j n)) (omega arith))
      (fill_table-Words frame j n m l (omega arith) words)

module _ (t : Statics) where
  pub fill_tables-frame :
      (n : ℕ) (m : Frames) (f i : ℕ)
      → ((k : ℕ) → k < n → f ≢ t.pt k)
      → fill_tables t n m f i ≡ m f i
  unfolding fill_tables
  fill_tables-frame zero m f i ne = refl
  fill_tables-frame (suc n) m f i ne =
      fill_table-frame (t.pt n) n 512 (fill_tables t n m) f i (ne n (omega arith))
      ∙ fill_tables-frame n m f i (λ k l. ne k (omega arith))

  pub fill_tables-entry :
      (n : ℕ) (m : Frames) (k i : ℕ)
      → IsStatics t
      → n ≤ 5
      → k < n
      → i < 512
      → fill_tables t n m (t.pt k) i ≡ bit_or (0x200000 * k + 0x1000 * i) 3
  unfolding fill_tables
  fill_tables-entry zero m k i statics u l v = ground arith
  fill_tables-entry (suc n) m k i statics u l v = elim (Bool-cases (k == n)) [
    | inl e ↦
        subst (λ a. fill_tables t (suc n) m (t.pt a) i ≡ bit_or (0x200000 * a + 0x1000 * i) 3)
          (sym ((==_iff k n).0 e)) (fill_table-entry (t.pt n) n 512 (fill_tables t n m) i v)
    | inr e ↦
        let ne : k ≢ n = ground arith in
        fill_table-frame (t.pt n) n 512 (fill_tables t n m) (t.pt k) i
          (statics.pt_differ k n (omega arith) (omega arith) ne)
        ∙ fill_tables-entry n m k i statics (omega arith) (omega arith) v
  ]

  pub fill_tables-Words : (n : ℕ) (m : Frames) → n ≤ 5 → Words m → Words (fill_tables t n m)
  unfolding fill_tables
  fill_tables-Words zero m l words = words
  fill_tables-Words (suc n) m l words =
      fill_table-Words (t.pt n) n 512 (fill_tables t n m) (omega arith) (omega arith)
        (fill_tables-Words n m (omega arith) words)
