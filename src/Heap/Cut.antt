-- ===== src/Heap/Cut.antt =====
-- The writes by which `find_free_block` cuts a block and `kmalloc` takes it out of the list.
use smpl_osv.Base.{ℕ, ◌+◌, ◌-◌, ◌^◌, ◌≡◌, sym, ap, ◌∙◌, ◌≢◌, arith, update, [], ◌∷◌}
use smpl_osv.Base.Bits.{u64}
use smpl_osv.Heap.Block.{Memblock, Blocks, header_size, set_next, set_prev, set_size, set_magic}
use smpl_osv.Heap.{split, write_headers, link_behind, unlink, ptr}

module _ (m : Blocks) (a n size : ℕ) (n≢a : n ≢ a) where
  headers_self : write_headers a n size m a ≡ record (m a) { size = size }
  unfolding write_headers set_size set_magic update
  headers_self = ground arith

  headers_new : write_headers a n size m n ≡ record (m n) {
    magic = b'M' ∷ b'E' ∷ b'M' ∷ [];
    size = u64 ((m a).size + 2 ^ 65 - size - header_size);
  }
  unfolding write_headers set_size set_magic update
  headers_new = ground arith

  headers_other : (x : ℕ) → x ≢ a → x ≢ n → write_headers a n size m x ≡ m x
  unfolding write_headers set_size set_magic update
  headers_other x h k = ground arith

module _ (m : Blocks) (a n c : ℕ) (next : (m a).next ≡ c) (n≢a : n ≢ a) (c≢a : c ≢ a)
    (c≢n : c ≢ n) where
  links_self : link_behind a n m a ≡ record (m a) { next = n }
  unfolding link_behind set_next set_prev update
  links_self = ground arith

  links_new : link_behind a n m n ≡ record (m n) { next = c; prev = a }
  unfolding link_behind set_next set_prev update
  links_new = ground arith

  links_next : c ≢ 0 → link_behind a n m c ≡ record (m c) { prev = n }
  unfolding link_behind set_next set_prev update
  links_next h = ground arith

  links_null : a ≢ 0 → n ≢ 0 → link_behind a n m 0 ≡ m 0
  unfolding link_behind set_next set_prev update
  links_null h k = ground arith

  links_other : (x : ℕ) → x ≢ a → x ≢ n → x ≢ c → link_behind a n m x ≡ m x
  unfolding link_behind set_next set_prev update
  links_other x h k l = ground arith

-- What a split leaves: the front part, the new block behind it, and the neighbour's link.
module _ (m : Blocks) (a n c size : ℕ) (at : u64 (ptr a + size) ≡ n) (next : (m a).next ≡ c)
    (n≢a : n ≢ a) (c≢a : c ≢ a) (c≢n : c ≢ n) where
  headers : Blocks
  headers = write_headers a n size m

  headers-next : (headers a).next ≡ c
  unfolding headers
  headers-next = ap (λ r. r.next) (headers_self m a n size n≢a) ∙ next

  split-links : split a size m ≡ link_behind a n headers
  unfolding split headers
  split-links = ap (λ k. link_behind a k (write_headers a k size m)) at

  pub split_self : split a size m a ≡ record (m a) { size = size; next = n }
  unfolding headers
  split_self =
      ap (λ f. f a) split-links
      ∙ links_self headers a n c headers-next n≢a c≢a c≢n
      ∙ ap {A = Memblock} (λ r. record r { next = n }) (headers_self m a n size n≢a)

  pub split_new : split a size m n ≡ record {
    magic = b'M' ∷ b'E' ∷ b'M' ∷ [];
    next = c;
    prev = a;
    size = u64 ((m a).size + 2 ^ 65 - size - header_size);
  }
  unfolding headers
  split_new =
      ap (λ f. f n) split-links
      ∙ links_new headers a n c headers-next n≢a c≢a c≢n
      ∙ ap {A = Memblock} (λ r. record r { next = c; prev = a }) (headers_new m a n size n≢a)

  pub split_next : c ≢ 0 → split a size m c ≡ record (m c) { prev = n }
  unfolding headers
  split_next h =
      ap (λ f. f c) split-links
      ∙ links_next headers a n c headers-next n≢a c≢a c≢n h
      ∙ ap {A = Memblock} (λ r. record r { prev = n }) (headers_other m a n size n≢a c c≢a c≢n)

  -- The write to the neighbour is guarded: nothing is written through NULL.
  pub split_null : a ≢ 0 → n ≢ 0 → split a size m 0 ≡ m 0
  unfolding headers
  split_null h k =
      ap (λ f. f 0) split-links
      ∙ links_null headers a n c headers-next n≢a c≢a c≢n h k
      ∙ headers_other m a n size n≢a 0 (λ z. h (sym z)) (λ z. k (sym z))

  pub split_other : (x : ℕ) → x ≢ a → x ≢ n → x ≢ c → split a size m x ≡ m x
  unfolding headers
  split_other x h k l =
      ap (λ f. f x) split-links
      ∙ links_other headers a n c headers-next n≢a c≢a c≢n x h k l
      ∙ headers_other m a n size n≢a x h k

module _ (m : Blocks) (a c p : ℕ) (next : (m a).next ≡ c) (prev : (m a).prev ≡ p) (c≢a : c ≢ a)
    (p≢a : p ≢ a) where
  pub unlink_self : unlink a m a ≡ m a
  unfolding unlink set_next set_prev update
  unlink_self = ground arith

  pub unlink_next : c ≢ 0 → c ≢ p → unlink a m c ≡ record (m c) { prev = p }
  unfolding unlink set_next set_prev update
  unlink_next h k = ground arith

  pub unlink_prev : p ≢ 0 → c ≢ p → unlink a m p ≡ record (m p) { next = c }
  unfolding unlink set_next set_prev update
  unlink_prev h k = ground arith

  pub unlink_null : a ≢ 0 → unlink a m 0 ≡ m 0
  unfolding unlink set_next set_prev update
  unlink_null h = ground arith

  pub unlink_other : (x : ℕ) → x ≢ 0 → x ≢ c → x ≢ p → unlink a m x ≡ m x
  unfolding unlink set_next set_prev update
  unlink_other x h k l = ground arith
