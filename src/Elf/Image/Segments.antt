-- ===== src/Elf/Image/Segments.antt =====
-- What `load_elf64` of elf64.c leaves in memory for an executable.
use smpl_osv.Base.{
  ℕ, zero, suc, ◌+◌, ◌-◌, ◌*◌, ◌/◌, ◌%◌, ◌≤◌, ◌<◌, ◌≡◌, refl, ap, ◌∙◌, ◌⊎◌, inl, inr, arith, true,
  false, some, ◌==◌, ==_iff, if◌then◌else◌, ltb, lt→ltb, ltb→lt, ltb-false, Bool-cases, List, [],
  ◌∷◌,
}
use mathlib.Core.Path.{subst}
use smpl_osv.Base.Bits.{u64}
use smpl_osv.Libc.{Bytes, memset, memcpy}
use smpl_osv.Libc.Copy.{memcpy-copies, memset-inside, memset-outside}
use smpl_osv.Elf.{read_ehdr, read_phdr, Phdr}
use smpl_osv.Elf.Image.{phdr_at, Loading, remap, place_segment, load_segment, load_segments}
use smpl_osv.Elf.Image.Fields.{read_phdr-same, read_ehdr-same}

first_or_later : (i j : ℕ) → i ≤ j → (i ≡ j) ⊎ (suc i ≤ j)
first_or_later i j le = elim (Bool-cases (i == j)) [
  | inl h ↦ inl (ground arith)
  | inr h ↦ inr (ground arith)
]

abbrev pub Contains : ℕ × ℕ → List (ℕ × ℕ) → Type 0
Contains p [] = ⊥
Contains p (q ∷ qs) = (q ≡ p) ⊎ Contains p qs

module _ (m0 : Bytes) (start : ℕ) where
  -- How many program headers the loop looks at.
  abbrev pub count : ℕ
  count = (read_ehdr m0 start).e_phnum + 1

  abbrev pub header : ℕ → Phdr
  header i = read_phdr m0 (phdr_at start i m0)

  abbrev pub source : ℕ → ℕ
  source i = u64 (start + (header i).p_offset)

  abbrev pub Loads : ℕ → Type 0
  Loads i = (i < count) × ((header i).p_type ≡ 1)

  -- An address outside a segment and outside the pages that are mapped for it.
  abbrev pub Outside : ℕ → ℕ → Type 0
  Outside i a =
      ((a < (header i).p_vaddr) ⊎ ((header i).p_vaddr + (header i).p_memsz ≤ a))
      × ((a / 4096 < (header i).p_vaddr / 4096)
          ⊎ ((header i).p_vaddr / 4096 + ((header i).p_memsz / 4096 + 1) ≤ a / 4096))

  abbrev pub Kept : ℕ → Type 0
  Kept a = (i : ℕ) → Loads i → Outside i a

  -- No segment and no page mapped for one lies over the headers and the file's part of a segment,
  -- and no segment has more bytes in the file than in memory.
  pub record IsImage : Type 0 where
    pub header_kept : (k : ℕ) → k < 64 → Kept (start + k)
    pub table_kept : (j k : ℕ) → j < count → k < 56 → Kept (phdr_at start j m0 + k)
    pub file_kept : (j k : ℕ) → Loads j → k < (header j).p_filesz → Kept (source j + k)
    pub fits : (j : ℕ) → Loads j → (header j).p_filesz ≤ (header j).p_memsz

  -- The pages that are mapped for a segment hold all of it.
  abbrev pub IsCovered : ℕ → Type 0
  IsCovered j =
      (header j).p_vaddr % 4096 + (header j).p_memsz ≤ ((header j).p_memsz / 4096 + 1) * 4096

  -- Byte `k` of a segment: from the file, or zero behind what the file has.
  abbrev pub segment_byte : ℕ → ℕ → ℕ
  segment_byte i k = if ltb k (header i).p_filesz then m0 (source i + k) else 0

  abbrev pub Agrees : Bytes → Type 0
  Agrees m = (a : ℕ) → Kept a → m a ≡ m0 a

  module _ (image : IsImage) (fresh : List (ℕ × ℕ) → Bytes) where
    file_apart :
        (j : ℕ)
        → Loads j
        → ((header j).p_vaddr ≤ source j) ⊎ (source j + (header j).p_filesz ≤ (header j).p_vaddr)
    file_apart j ld = elim (Bool-cases (ltb (source j) (header j).p_vaddr)) [
      | inr h ↦ inl (ground arith)
      | inl h ↦ elim (Bool-cases (ltb (header j).p_vaddr (source j + (header j).p_filesz))) [
        | inr g ↦ inr (ground arith)
        | inl g ↦
            let k = (header j).p_vaddr - source j in
            let out = (image.file_kept j k ld (ground arith) j ld).0 in
            let fit = image.fits j ld in
            let low = ltb→lt _ _ h in
            let high = ltb→lt _ _ g in
            absurd (elim out [ inl a ↦ omega arith | inr b ↦ omega arith ])
      ]
    ]

    mapped : ℕ → List (ℕ × ℕ) → Bytes → Bytes
    mapped i pages m = remap (header i).p_vaddr ((header i).p_memsz / 4096 + 1) (fresh pages) m

    mapped-Outside :
        (i a : ℕ) (pages : List (ℕ × ℕ)) (m : Bytes) → Outside i a → mapped i pages m a ≡ m a
    unfolding mapped remap
    mapped-Outside i a pages m (_, out) = ground arith

    filled : ℕ → List (ℕ × ℕ) → Bytes → Bytes
    unfolding mapped
    filled i pages m =
        memcpy (header i).p_vaddr (source i) (header i).p_filesz
          (memset (header i).p_vaddr 0 (header i).p_memsz (mapped i pages m))

    filled-Outside :
        (i a : ℕ) (pages : List (ℕ × ℕ)) (m : Bytes)
        → Loads i
        → Outside i a
        → filled i pages m a ≡ m a
    unfolding filled
    filled-Outside i a pages m ld out =
        let (_, frame) =
          memcpy-copies (header i).p_vaddr (source i) (header i).p_filesz
            (memset (header i).p_vaddr 0 (header i).p_memsz (mapped i pages m)) (file_apart i ld) in
        let fit = image.fits i ld in
        frame a (elim out.0 [ inl l ↦ inl l | inr u ↦ inr (omega arith) ])
        ∙ memset-outside (header i).p_vaddr 0 (header i).p_memsz (mapped i pages m) a out.0
        ∙ mapped-Outside i a pages m out

    filled_inside :
        (i k : ℕ) (pages : List (ℕ × ℕ)) (m : Bytes)
        → Loads i
        → Agrees m
        → k < (header i).p_memsz
        → filled i pages m ((header i).p_vaddr + k) ≡ segment_byte i k
    unfolding filled
    filled_inside i k pages m ld agrees lt =
        let cleared = memset (header i).p_vaddr 0 (header i).p_memsz (mapped i pages m) in
        let (copied, frame) =
          memcpy-copies (header i).p_vaddr (source i) (header i).p_filesz cleared
            (file_apart i ld) in
        elim (Bool-cases (ltb k (header i).p_filesz)) [
          | inl h ↦
              let less = ltb→lt _ _ h in
              let kept = image.file_kept i k ld less in
              rw h (
                copied ((header i).p_vaddr + k) (omega arith) (omega arith)
                ∙ ap cleared (omega arith)
                ∙ memset-outside (header i).p_vaddr 0 (header i).p_memsz (mapped i pages m)
                    (source i + k) (kept i ld).0
                ∙ mapped-Outside i (source i + k) pages m (kept i ld)
                ∙ agrees (source i + k) kept)
          | inr h ↦
              let more : (header i).p_filesz ≤ k = ground arith in
              rw h (
                frame ((header i).p_vaddr + k) (inr (omega arith))
                ∙ memset-inside (header i).p_vaddr 0 (header i).p_memsz (mapped i pages m)
                    ((header i).p_vaddr + k) (omega arith) (omega arith))
        ]

    -- The loop reads the headers as they were.
    phdr_at-Agrees : (i : ℕ) (m : Bytes) → Agrees m → phdr_at start i m ≡ phdr_at start i m0
    unfolding phdr_at
    phdr_at-Agrees i m agrees =
        let (off, size, _, _) =
          read_ehdr-same m0 m start (λ k l. agrees (start + k) (image.header_kept k l)) in
        rw (off, size) refl

    count-Agrees : (m : Bytes) → Agrees m → (read_ehdr m start).e_phnum + 1 ≡ count
    count-Agrees m agrees =
        let (_, _, num, _) =
          read_ehdr-same m0 m start (λ k l. agrees (start + k) (image.header_kept k l)) in
        rw num refl

    header-Agrees :
        (i : ℕ) (m : Bytes) → Agrees m → i < count → read_phdr m (phdr_at start i m) ≡ header i
    header-Agrees i m agrees lt =
        ap (λ p. read_phdr m p) (phdr_at-Agrees i m agrees)
        ∙ read_phdr-same m0 m (phdr_at start i m0)
            (λ k l. agrees (phdr_at start i m0 + k) (image.table_kept i k lt l))

    load_segment-Loads :
        (i : ℕ) (m : Bytes) (pages : List (ℕ × ℕ))
        → Agrees m
        → Loads i
        → load_segment fresh start i (m, pages)
          ≡ (filled i pages m, ((header i).p_vaddr, (header i).p_memsz / 4096 + 1) ∷ pages)
    unfolding load_segment place_segment filled
    load_segment-Loads i m pages agrees (lt, type) =
        let test : (header i).p_type == 1 ≡ true = (==_iff _ 1).1 type in
        ap (λ h. place_segment fresh start h (m, pages)) (header-Agrees i m agrees lt)
        ∙ rw test refl

    load_segment-skips :
        (i : ℕ) (m : Bytes) (pages : List (ℕ × ℕ))
        → Agrees m
        → i < count
        → ((header i).p_type == 1) ≡ false
        → load_segment fresh start i (m, pages) ≡ (m, pages)
    unfolding load_segment place_segment
    load_segment-skips i m pages agrees lt test =
        ap (λ h. place_segment fresh start h (m, pages)) (header-Agrees i m agrees lt)
        ∙ rw test refl

    -- What the loop from header `i` on makes of a memory and of the pages.
    pub record Loaded (i : ℕ) (m m' : Bytes) (pages pages' : List (ℕ × ℕ)) : Type 0 where
      pub others : (a : ℕ) → ((j : ℕ) → i ≤ j → Loads j → Outside j a) → m' a ≡ m a
      pub bytes :
          (j k : ℕ)
          → i ≤ j
          → Loads j
          → k < (header j).p_memsz
          → ((l : ℕ) → j < l → Loads l → Outside l ((header j).p_vaddr + k))
          → m' ((header j).p_vaddr + k) ≡ segment_byte j k
      pub mapped :
          (j : ℕ)
          → i ≤ j
          → Loads j
          → Contains ((header j).p_vaddr, (header j).p_memsz / 4096 + 1) pages'
      pub still : (p : ℕ × ℕ) → Contains p pages → Contains p pages'

    Agrees-filled :
        (i : ℕ) (pages : List (ℕ × ℕ)) (m : Bytes) → Loads i → Agrees m → Agrees (filled i pages m)
    Agrees-filled i pages m ld agrees a kept =
        filled-Outside i a pages m ld (kept i ld) ∙ agrees a kept

    segments_step :
        (fuel i : ℕ) (s : Loading)
        → Agrees s.0
        → i < count
        → load_segments fresh (suc fuel) start i s
          ≡ load_segments fresh fuel start (suc i) (load_segment fresh start i s)
    unfolding load_segments
    segments_step fuel i (m, pages) agrees lt =
        let test : ltb i ((read_ehdr m start).e_phnum + 1) ≡ true =
          ap (λ n. ltb i n) (count-Agrees m agrees) ∙ lt→ltb i count lt in
        rw (test, load_segments) refl

    segments_end :
        (fuel i : ℕ) (s : Loading)
        → Agrees s.0
        → count ≤ i
        → load_segments fresh (suc fuel) start i s ≡ some s
    unfolding load_segments
    segments_end fuel i (m, pages) agrees le =
        let test : ltb i ((read_ehdr m start).e_phnum + 1) ≡ false =
          ap (λ n. ltb i n) (count-Agrees m agrees) ∙ ltb-false i count le in
        rw (test, load_segments) refl

    later_than : (i j : ℕ) → i ≤ j → Loads j → ((header i).p_type == 1) ≡ false → suc i ≤ j
    later_than i j le l t = elim (Bool-cases (i == j)) [
      | inl same ↦
          let type = ap (λ k. (header k).p_type) ((==_iff i j).0 same) ∙ l.1 in
          absurd (ground arith)
      | inr ne ↦ ground arith
    ]

    pub load_segments_total :
        (n fuel i : ℕ) (m : Bytes) (pages : List (ℕ × ℕ))
        → n + i ≡ count
        → n < fuel
        → Agrees m
        → (m' : Bytes) × (pages' : List (ℕ × ℕ)) × (load_segments fresh fuel start i (m, pages)
            ≡ some (m', pages'))
          × Loaded i m m' pages pages'
    load_segments_total n zero i m pages e f agrees = absurd (omega arith)
    load_segments_total zero (suc fuel) i m pages e f agrees = (
      m,
      pages,
      segments_end fuel i (m, pages) agrees (omega arith),
      record {
        others = λ a out. refl;
        bytes = λ j k le ld lt out. absurd (omega (arith, ld.0));
        mapped = λ j le ld. absurd (omega (arith, ld.0));
        still = λ p c. c;
      },
    )
    load_segments_total (suc n) (suc fuel) i m pages e f agrees =
        let lt : i < count = omega arith in
        let step = segments_step fuel i (m, pages) agrees lt in
        elim (Bool-cases ((header i).p_type == 1)) [
          | inl t ↦
              let ld : Loads i = (lt, (==_iff _ 1).0 t) in
              let next = Agrees-filled i pages m ld agrees in
              let page : ℕ × ℕ = ((header i).p_vaddr, (header i).p_memsz / 4096 + 1) in
              let (m', pages', run, rest) =
                load_segments_total n fuel (suc i) (filled i pages m) (page ∷ pages) (omega arith)
                  (omega arith) next in
              (
                m',
                pages',
                step
                    ∙ ap (λ s. load_segments fresh fuel start (suc i) s)
                        (load_segment-Loads i m pages agrees ld)
                    ∙ run,
                record {
                  others = λ a out.
                      rest.others a (λ j le l. out j (omega arith) l)
                      ∙ filled-Outside i a pages m ld (out i (omega arith) ld);
                  bytes = λ j k le l less out. elim (first_or_later i j le) [
                    | inr after ↦ rest.bytes j k after l less out
                    | inl same ↦
                        rest.others ((header j).p_vaddr + k) (λ q lq ldq. out q (omega arith) ldq)
                        ∙ subst
                            (λ q.
                              Loads q
                              → k < (header q).p_memsz
                              → filled i pages m ((header q).p_vaddr + k) ≡ segment_byte q k)
                            same (λ lq lessq. filled_inside i k pages m lq agrees lessq) l less
                  ];
                  mapped = λ j le l. elim (first_or_later i j le) [
                    | inr after ↦ rest.mapped j after l
                    | inl same ↦
                        rest.still ((header j).p_vaddr, (header j).p_memsz / 4096 + 1)
                          (inl (ap (λ q. ((header q).p_vaddr, (header q).p_memsz / 4096 + 1)) same))
                  ];
                  still = λ p c. rest.still p (inr c);
                },
              )
          | inr t ↦
              let (m', pages', run, rest) =
                load_segments_total n fuel (suc i) m pages (omega arith) (omega arith) agrees in
              let later = λ (j : ℕ) (le : i ≤ j) (l : Loads j). later_than i j le l t in
              (
                m',
                pages',
                step
                    ∙ ap (λ s. load_segments fresh fuel start (suc i) s)
                        (load_segment-skips i m pages agrees lt t)
                    ∙ run,
                record {
                  others = λ a out. rest.others a (λ j le l. out j (omega arith) l);
                  bytes = λ j k le l less out. rest.bytes j k (later j le l) l less out;
                  mapped = λ j le l. rest.mapped j (later j le l) l;
                  still = rest.still;
                },
              )
        ]
