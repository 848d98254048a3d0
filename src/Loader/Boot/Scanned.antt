-- ===== src/Loader/Boot/Scanned.antt =====
-- What `loader_main` hands to the kernel.
use smpl_osv.Base.{
  ℕ, zero, suc, ◌+◌, ◌*◌, ◌/◌, ◌%◌, ◌^◌, ◌<◌, ◌≡◌, ◌≢◌, ◌↔◌, refl, sym, ap, ◌∙◌, some, arith, Bool,
  true, false, List, [], ◌∷◌, length, length-append, ==_ne, ltb, bit_and, if◌then◌else◌, Bool-cases,
  inl, inr,
}
use mathlib.Core.Path.{ap₂}
use smpl_osv.Base.Bits.{u32, bit_and_low}
use smpl_osv.Libc.{Bytes, same_string, string_eq}
use smpl_osv.Libc.Cstr.{IsCstr}
use smpl_osv.Libc.Scan.{same_string-equal, string_eq_iff}
use smpl_osv.Elf.{le32, le64, sign_extend}
use smpl_osv.Pmm.Boot.{Region}
use smpl_osv.Loader.Boot.Layout.{
  Tag, mmap_tag, module_tag, framebuffer_tag, other_tag, IsTag, IsTags, tag_regions, tag_module,
  tag_framebuffer, all_regions, last_module, last_framebuffer, kernel_name, initrd_name, Stands,
}
use smpl_osv.Loader.Boot.{
  Scan, Names, read_entries, identify_module, handle_tag, raise_end, set_starts, next_tag,
  scan_tags, Bootinfo, starts, fill_bootinfo, loader_main, ◌>>=◌,
}
use smpl_osv.Loader.Boot.Learned.{Learned, Learned-append, nothing-Learned, read_entries-Learned}

bool_iff : (r s : Bool) → ((r ≡ true) ↔ (s ≡ true)) → r ≡ s
bool_iff true s e = sym (e.0 refl)
bool_iff false true e = e.1 refl
bool_iff false false e = refl

same_string-string_eq :
    (fuel a b : ℕ) (xs ys : List ℕ) (m : Bytes)
    → length xs < fuel
    → IsCstr m a xs
    → IsCstr m b ys
    → same_string fuel a b m ≡ some (string_eq xs ys)
same_string-string_eq fuel a b xs ys m f p q =
    let (r, run, equal) = same_string-equal fuel a b xs ys m f p q in
    let both = string_eq_iff xs ys in
    run ∙ ap some (bool_iff r (string_eq xs ys) (λ e. both.1 (equal.0 e), λ e. equal.1 (both.0 e)))

-- A state with other addresses and the same regions.
addresses-Learned :
    (b : Scan) (k i end : ℕ)
    → Learned b (record b { kernel_start = k; initrd_start = i; end = end }) [] k i b.fb
addresses-Learned b k i end = record {
  count = omega arith;
  stands = tt;
  before = λ j u. refl;
  kernel = refl;
  initrd = refl;
  framebuffer = refl;
}

set_starts-Learned :
    (kernel initrd : Bool) (start : ℕ) (b : Scan)
    → Learned b
        (set_starts kernel initrd start b)
        []
        (if kernel then start else b.kernel_start)
        (if initrd then start else b.initrd_start)
        b.fb
set_starts-Learned true true start b = addresses-Learned b start start b.end
set_starts-Learned true false start b = addresses-Learned b start b.initrd_start b.end
set_starts-Learned false true start b = addresses-Learned b b.kernel_start start b.end
set_starts-Learned false false start b = addresses-Learned b b.kernel_start b.initrd_start b.end

identified-Learned :
    (kernel initrd : Bool) (start end : ℕ) (b : Scan)
    → Learned b
        (set_starts kernel initrd start (raise_end end b))
        []
        (if kernel then start else b.kernel_start)
        (if initrd then start else b.initrd_start)
        b.fb
identified-Learned kernel initrd start end b = elim (Bool-cases (ltb b.end end)) [
  | inl e ↦
      rw e (Learned_from b end (set_starts-Learned kernel initrd start (record b { end = end })))
  | inr e ↦ rw e (set_starts-Learned kernel initrd start b)
]
  where
    Learned_from :
        {b' : Scan} {rs : List Region} {k i f : ℕ} (b : Scan) (end : ℕ)
        → Learned (record b { end = end }) b' rs k i f
        → Learned b b' rs k i f
    Learned_from b end l = record {
      count = l.count;
      stands = l.stands;
      before = l.before;
      kernel = l.kernel;
      initrd = l.initrd;
      framebuffer = l.framebuffer;
    }

-- `handle_tag` and the loop, with the two literals in memory.
module _ (names : Names) (m : Bytes) (kernel : IsCstr m names.kernel kernel_name)
    (initrd : IsCstr m names.initrd initrd_name) where
  identify_module-Learned :
      (tag start : ℕ) (n : List ℕ) (b : Scan)
      → le32 m (tag + 8) ≡ start
      → IsCstr m (tag + 16) n
      → length n < names.fuel
      → (b' : Scan) × (identify_module names m tag b ≡ some b')
        × Learned b b' []
            (if string_eq n kernel_name then start else b.kernel_start)
            (if string_eq n initrd_name then start else b.initrd_start)
            b.fb
  unfolding identify_module
  identify_module-Learned tag start n b at str short =
      let k =
        same_string-string_eq names.fuel (tag + 16) names.kernel n kernel_name m short str kernel in
      let i =
        same_string-string_eq names.fuel (tag + 16) names.initrd n initrd_name m short str initrd in
      let stop = le32 m (tag + 12) in
      (
        set_starts (string_eq n kernel_name) (string_eq n initrd_name) start (raise_end stop b),
        ap₂
              (λ x y.
                x >>= λ p. y >>= λ q. some (set_starts p q (le32 m (tag + 8)) (raise_end stop b)))
              k i
            ∙ ap
                (λ a. some (
                  set_starts (string_eq n kernel_name) (string_eq n initrd_name) a
                    (raise_end stop b)))
                at,
        identified-Learned (string_eq n kernel_name) (string_eq n initrd_name) start stop b,
      )

  handle_mmap :
      (tag size s stop : ℕ) (b b' : Scan)
      → le32 m tag ≡ 6
      → le32 m (tag + 4) ≡ size
      → le32 m (tag + 8) ≡ s
      → u32 (tag + size) ≡ stop
      → read_entries (size + 1) s stop (tag + 16) m b ≡ some b'
      → handle_tag names m tag b ≡ some b'
  unfolding handle_tag
  handle_mmap tag size s stop b b' type sized entry ends run = rw (type, sized, entry, ends) run

  handle_module :
      (tag : ℕ) (b b' : Scan)
      → le32 m tag ≡ 3
      → identify_module names m tag b ≡ some b'
      → handle_tag names m tag b ≡ some b'
  unfolding handle_tag
  handle_module tag b b' type run = rw type run

  handle_framebuffer :
      (tag addr : ℕ) (b : Scan)
      → le32 m tag ≡ 8
      → le64 m (tag + 8) ≡ addr
      → handle_tag names m tag b ≡ some (record b { fb = u32 addr })
  unfolding handle_tag
  handle_framebuffer tag addr b type at = rw (type, at) refl

  handle_other :
      (tag type : ℕ) (b : Scan)
      → le32 m tag ≡ type
      → type ≢ 3
      → type ≢ 6
      → type ≢ 8
      → handle_tag names m tag b ≡ some b
  unfolding handle_tag
  handle_other tag type b is n3 n6 n8 =
      rw (is, ==_ne type 8 n8, ==_ne type 6 n6, ==_ne type 3 n3) refl

  handle_tag-Learned :
      (tag size : ℕ) (t : Tag) (b : Scan)
      → le32 m (tag + 4) ≡ size
      → tag + size < 2 ^ 32
      → b.memreg_ptr + length (tag_regions t) < 256
      → IsTag m names.fuel tag size t
      → (b' : Scan) × (handle_tag names m tag b ≡ some b')
        × Learned b b'
            (tag_regions t)
            (tag_module kernel_name t b.kernel_start)
            (tag_module initrd_name t b.initrd_start)
            (tag_framebuffer t b.fb)
  handle_tag-Learned tag size (mmap_tag s es) b sized fits room (type, entry, pos, total, ok) =
      let stop : u32 (tag + size) ≡ tag + size = omega arith in
      let (b', run, l) =
        read_entries-Learned (size + 1) s (tag + size) (tag + 16) es m b (omega arith) pos
          (omega arith) fits room ok in
      (b', handle_mmap tag size s (tag + size) b b' type sized entry stop run, l)
  handle_tag-Learned tag size (module_tag start end n) b sized fits room
        (type, at, to, str, short) =
      let (b', run, l) = identify_module-Learned tag start n b at str short in
      (b', handle_module tag b b' type run, l)
  handle_tag-Learned tag size (framebuffer_tag addr) b sized fits room (type, at) = (
    record b { fb = u32 addr },
    handle_framebuffer tag addr b type at,
    record {
      count = omega arith;
      stands = tt;
      before = λ j u. refl;
      kernel = refl;
      initrd = refl;
      framebuffer = refl;
    },
  )
  handle_tag-Learned tag size (other_tag type) b sized fits room (is, n0, n3, n6, n8) =
      (b, handle_other tag type b is n3 n6 n8, nothing-Learned b)

  nonzero : (tag size : ℕ) (t : Tag) → IsTag m names.fuel tag size t → le32 m tag ≢ 0
  nonzero tag size (mmap_tag s es) ok = omega (arith, ok.0)
  nonzero tag size (module_tag start end n) ok = omega (arith, ok.0)
  nonzero tag size (framebuffer_tag addr) ok = omega (arith, ok.0)
  nonzero tag size (other_tag type) (is, n0, n3, n6, n8) = λ e. n0 (sym is ∙ e)

  pub scan_tags-Learned :
      (fuel tag : ℕ) (ts : List Tag) (b : Scan)
      → length ts < fuel
      → b.memreg_ptr + length (all_regions ts) < 256
      → IsTags m names.fuel tag ts
      → (b' : Scan) × (scan_tags fuel names tag m b ≡ some b')
        × Learned b b'
            (all_regions ts)
            (last_module kernel_name ts b.kernel_start)
            (last_module initrd_name ts b.initrd_start)
            (last_framebuffer ts b.fb)
  unfolding scan_tags
  scan_tags-Learned zero tag ts b f room ok = ground arith
  scan_tags-Learned (suc fuel) tag [] b f room ok = (b, rw (scan_tags, ok) refl, nothing-Learned b)
  scan_tags-Learned (suc fuel) tag (t ∷ ts) b f room (size, sized, fits, here, rest) =
      let total = length-append (tag_regions t) (all_regions ts) in
      let (b1, run1, l1) =
        handle_tag-Learned tag size t b sized (omega arith) (omega (arith, total)) here in
      let (b', run, l) =
        scan_tags-Learned fuel (tag + (size + 7) / 8 * 8) ts b1 (omega arith)
          (omega (arith, total, l1.count)) rest in
      let next : next_tag m tag ≡ tag + (size + 7) / 8 * 8 =
        ap (λ z. u32 (tag + u32 (z + 7) / 8 * 8)) sized ∙ omega arith in
      let opened : scan_tags (suc fuel) names tag m b
          ≡ (handle_tag names m tag b >>= λ x. scan_tags fuel names (next_tag m tag) m x) =
        rw (scan_tags, ==_ne (le32 m tag) 0 (nonzero tag size t here)) refl in
      let whole = Learned-append b b1 b' _ _ _ _ _ _ _ _ l1 l in
      (
        b',
        opened
            ∙ ap (λ x. x >>= λ y. scan_tags fuel names (next_tag m tag) m y) run1
            ∙ ap (λ a. scan_tags fuel names a m b1) next
            ∙ run,
        record {
          count = whole.count;
          stands = whole.stands;
          before = whole.before;
          kernel = l.kernel ∙ ap (last_module kernel_name ts) l1.kernel;
          initrd = l.initrd ∙ ap (last_module initrd_name ts) l1.initrd;
          framebuffer = l.framebuffer ∙ ap (last_framebuffer ts) l1.framebuffer;
        },
      )

  low_word : (x : ℕ) → bit_and (sign_extend x) 0xFFFFFFFF ≡ x % 2 ^ 32
  low_word x = bit_and_low 32 (sign_extend x) ∙ ground arith

  -- Where the magic number is right, the information is at a multiple of 8 below 2^32 and holds
  -- tags one after the other with no more than 255 regions of memory in all, `loader_main` starts
  -- the kernel: it hands over the regions of all memory maps in order and their number, loads the
  -- last module with the name KERNEL, and passes on the last one named INITRD and the last
  -- framebuffer, cut to 32 bits.
  pub loader_main-regions :
      (fuel tss fb mbt : ℕ) (memory : ℕ → Region) (ts : List Tag)
      → length ts < fuel
      → mbt % 8 ≡ 0
      → mbt + 8 < 2 ^ 32
      → length (all_regions ts) < 256
      → IsTags m names.fuel (mbt + 8) ts
      → (info : Bootinfo) × (loader_main fuel names tss memory fb mbt 0x36d76289 m
          ≡ some (starts (last_module kernel_name ts 0xFFFFFFFF) info))
        × (info.mem_size ≡ length (all_regions ts))
        × Stands info.memory 0 (all_regions ts)
        × (info.initrd ≡ last_module initrd_name ts 0xFFFFFFFF % 2 ^ 32)
        × (info.framebuffer ≡ last_framebuffer ts fb % 2 ^ 32)
  unfolding loader_main fill_bootinfo
  loader_main-regions fuel tss fb mbt memory ts f aligned low few ok =
      let b : Scan = record {
        memory = memory;
        memreg_ptr = 0;
        fb = fb;
        kernel_start = 0xFFFFFFFF;
        initrd_start = 0xFFFFFFFF;
        end = 0;
      } in
      let (b', run, l) = scan_tags-Learned fuel (mbt + 8) ts b f (omega arith) ok in
      let first : u32 (mbt + 8) ≡ mbt + 8 = omega arith in
      (
        fill_bootinfo tss b',
        rw (aligned, first, run) (ap (λ k. some (starts k (fill_bootinfo tss b'))) l.kernel),
        l.count ∙ omega arith,
        l.stands,
        bit_and_low 32 b'.initrd_start ∙ ap (λ x. x % 2 ^ 32) l.initrd,
        low_word b'.fb ∙ ap (λ x. x % 2 ^ 32) l.framebuffer,
      )
