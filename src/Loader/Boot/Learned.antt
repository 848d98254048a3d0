-- ===== src/Loader/Boot/Learned.antt =====
-- What the loops of `loader_main` learn, and the entries of a memory map.
use smpl_osv.Base.{
  ℕ, zero, suc, ◌+◌, ◌^◌, ◌≤◌, ◌<◌, ◌≡◌, refl, ap, ◌∙◌, some, arith, true, false, List, [], ◌∷◌,
  ◌++◌, length, length-append, ltb, update_self, update_ne,
}
use mathlib.Core.Path.{subst}
use smpl_osv.Base.Bits.{u32}
use smpl_osv.Libc.{Bytes}
use smpl_osv.Elf.{le32, le64}
use smpl_osv.Pmm.Boot.{Region}
use smpl_osv.Loader.Boot.Layout.{Entry, entries_size, IsEntries, region_of, regions_of, Stands}
use smpl_osv.Loader.Boot.{Scan, read_region, add_region, read_entries}

-- What a part of the scan has changed: regions behind those at hand, and the three addresses.
pub record Learned (b b' : Scan) (rs : List Region) (k i f : ℕ) : Type 0 where
  pub count : b'.memreg_ptr ≡ b.memreg_ptr + length rs
  pub stands : Stands b'.memory b.memreg_ptr rs
  pub before : (j : ℕ) → j < b.memreg_ptr → b'.memory j ≡ b.memory j
  pub kernel : b'.kernel_start ≡ k
  pub initrd : b'.initrd_start ≡ i
  pub framebuffer : b'.fb ≡ f

Stands-frame :
    (f g : ℕ → Region) (p : ℕ) (rs : List Region)
    → ((j : ℕ) → p ≤ j → j < p + length rs → g j ≡ f j)
    → Stands f p rs
    → Stands g p rs
Stands-frame f g p [] same s = tt
Stands-frame f g p (r ∷ rs) same (here, rest) = (
  same p (omega arith) (omega arith) ∙ here,
  Stands-frame f g (p + 1) rs (λ j l u. same j (omega arith) (omega arith)) rest,
)

Stands-append :
    (f : ℕ → Region) (p : ℕ) (rs qs : List Region)
    → Stands f p rs
    → Stands f (p + length rs) qs
    → Stands f p (rs ++ qs)
Stands-append f p [] qs s u = subst (λ a. Stands f a qs) (omega arith) u
Stands-append f p (r ∷ rs) qs (here, rest) u =
    (here, Stands-append f (p + 1) rs qs rest (subst (λ a. Stands f a qs) (omega arith) u))

pub Learned-append :
    (b b1 b2 : Scan) (rs qs : List Region) (k i f k' i' f' : ℕ)
    → Learned b b1 rs k i f
    → Learned b1 b2 qs k' i' f'
    → Learned b b2 (rs ++ qs) k' i' f'
Learned-append b b1 b2 rs qs k i f k' i' f' l u = record {
  count = u.count ∙ omega (arith, l.count, length-append rs qs);
  stands =
      Stands-append b2.memory b.memreg_ptr rs qs
        (Stands-frame b1.memory b2.memory b.memreg_ptr rs
          (λ j p q. u.before j (omega (arith, q, l.count))) l.stands)
        (subst (λ a. Stands b2.memory a qs) l.count u.stands);
  before = λ j p. u.before j (omega (arith, l.count)) ∙ l.before j p;
  kernel = u.kernel;
  initrd = u.initrd;
  framebuffer = u.framebuffer;
}

add_region-Learned :
    (r : Region) (b : Scan)
    → b.memreg_ptr + 1 < 256
    → Learned b (add_region r b) (r ∷ []) b.kernel_start b.initrd_start b.fb
unfolding add_region
add_region-Learned r b l = record {
  count = omega arith;
  stands = (update_self b.memory b.memreg_ptr r, tt);
  before = λ j u. update_ne b.memory b.memreg_ptr r j (omega arith);
  kernel = refl;
  initrd = refl;
  framebuffer = refl;
}

pub nothing-Learned : (b : Scan) → Learned b b [] b.kernel_start b.initrd_start b.fb
nothing-Learned b = record {
  count = omega arith;
  stands = tt;
  before = λ j u. refl;
  kernel = refl;
  initrd = refl;
  framebuffer = refl;
}

read_region-entry :
    (m : Bytes) (at : ℕ) (e : Entry)
    → le64 m at ≡ e.addr
    → le64 m (at + 8) ≡ e.len
    → le32 m (at + 16) ≡ e.type
    → read_region m at ≡ region_of e
read_region-entry m at e a l t = rw (a, l, t) refl

-- The loop reads the entries and ends behind them.
pub read_entries-Learned :
    (fuel s stop at : ℕ) (es : List Entry) (m : Bytes) (b : Scan)
    → entries_size s es < fuel
    → 1 ≤ s
    → at + entries_size s es ≡ stop
    → stop < 2 ^ 32
    → b.memreg_ptr + length (regions_of es) < 256
    → IsEntries m s at es
    → (b' : Scan) × (read_entries fuel s stop at m b ≡ some b')
      × Learned b b' (regions_of es) b.kernel_start b.initrd_start b.fb
unfolding read_entries
read_entries-Learned zero s stop at es m b f pos ends fits room ok = ground arith
read_entries-Learned (suc fuel) s stop at [] m b f pos ends fits room ok =
    let done : ltb at stop ≡ false = ground arith in
    (b, rw (read_entries, done) refl, nothing-Learned b)
read_entries-Learned (suc fuel) s stop at (e ∷ es) m b f pos ends fits room (a, l, t, rest) =
    let on : ltb at stop ≡ true = ground arith in
    let b1 = add_region (region_of e) b in
    let first = add_region-Learned (region_of e) b (omega arith) in
    let (b', run, more) =
      read_entries-Learned fuel s stop (at + s) es m b1 (omega arith) pos (omega arith) fits
        (omega (arith, first.count)) rest in
    let step : u32 (at + s) ≡ at + s = omega arith in
    let opened : read_entries (suc fuel) s stop at m b
        ≡ read_entries fuel s stop (u32 (at + s)) m (add_region (read_region m at) b) =
      rw (read_entries, on) refl in
    let whole = Learned-append b b1 b' _ _ _ _ _ _ _ _ first more in
    (
      b',
      opened
          ∙ ap (λ a. read_entries fuel s stop a m (add_region (read_region m at) b)) step
          ∙ ap (λ r. read_entries fuel s stop (at + s) m (add_region r b))
              (read_region-entry m at e a l t)
          ∙ run,
      record {
        count = whole.count;
        stands = whole.stands;
        before = whole.before;
        kernel = more.kernel ∙ first.kernel;
        initrd = more.initrd ∙ first.initrd;
        framebuffer = more.framebuffer ∙ first.framebuffer;
      },
    )
