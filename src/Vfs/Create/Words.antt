-- ===== src/Vfs/Create/Words.antt =====
-- The loops of `kseek` and `kcreate` of vfs.c on the words of a path.
use smpl_osv.Base.{
  ℕ, ◌≡◌, refl, sym, ap, ◌∙◌, ◌≢◌, arith, Option, some, List, [], ◌∷◌, ◌==◌, ==_ne, ==_iff,
  Bool-cases, inl, inr, if◌then◌else◌, some_inj,
}
use smpl_osv.Libc.{◌>>=◌}
use smpl_osv.Vfs.{
  Vfs, FsType, Types, vfs_seek, vfs_create, vfs_type, method, seek_words, create_words,
}
use smpl_osv.Vfs.Tree.{
  Allocated, IsVfs, Extends, Leads, seek-IsChild, Extends-refl, Extends-trans, seek_total,
}
use smpl_osv.Vfs.Create.{created, vfs_create-run, created-IsVfs, created-Extends, seek-created}

module _ (ts : Types) where
  pub method-IsVfs {ℓ} :
      {A : Type ℓ} (field : FsType → Option A) (f : A) (p : ℕ) (fs : Vfs)
      → IsVfs ts fs
      → Allocated fs p
      → field vfs_type ≡ some f
      → method field ts p fs ≡ some f
  unfolding method
  method-IsVfs field f p fs v al e =
      let (n, (is, it, _)) = v.node p al in rw (is, ◌>>=◌, it, v.registered, e) refl

  seek_step :
      (w : List ℕ) (ws : List (List ℕ)) (p r : ℕ) (fs : Vfs)
      → IsVfs ts fs
      → Allocated fs p
      → vfs_seek w p fs ≡ some r
      → seek_words ts (w ∷ ws) p fs ≡ (if r == 0 then some 0 else seek_words ts ws r fs)
  unfolding seek_words
  seek_step w ws p r fs v al e =
      let m = method-IsVfs (λ (t : FsType). t.seek) vfs_seek p fs v al refl in
      elim (Bool-cases (r == 0)) [
        | inl h ↦ rw (m, ◌>>=◌, e, h) refl
        | inr h ↦ rw (m, ◌>>=◌, e, h) refl
      ]

  seek_step_found :
      (w : List ℕ) (ws : List (List ℕ)) (p r : ℕ) (fs : Vfs)
      → IsVfs ts fs
      → Allocated fs p
      → vfs_seek w p fs ≡ some r
      → r ≢ 0
      → seek_words ts (w ∷ ws) p fs ≡ seek_words ts ws r fs
  seek_step_found w ws p r fs v al e nz = seek_step w ws p r fs v al e ∙ rw (==_ne r 0 nz) refl

  pub seek_words_total :
      (ws : List (List ℕ)) (p : ℕ) (fs : Vfs)
      → IsVfs ts fs
      → Allocated fs p
      → (r : ℕ) × (seek_words ts ws p fs ≡ some r) × (r ≢ 0 → Allocated fs r)
  unfolding seek_words
  seek_words_total [] p fs v al = (p, refl, λ nz. al)
  seek_words_total (w ∷ ws) p fs v al =
      let (r, run, ok) = seek_total ts fs w p v al in
      elim (Bool-cases (r == 0)) [
        | inl h ↦ (0, seek_step w ws p r fs v al run ∙ rw h refl, λ z. absurd (z refl))
        | inr h ↦
            let nz : r ≢ 0 = λ z. absurd (ground arith) in
            let (q, more, ok') = seek_words_total ws r fs v (ok nz) in
            (q, seek_step_found w ws p r fs v al run nz ∙ more, ok')
      ]

  -- What a path led to it leads to in a file system that extends the first.
  pub seek_words-Extends :
      (ws : List (List ℕ)) (p r : ℕ) (fs fs' : Vfs)
      → IsVfs ts fs
      → IsVfs ts fs'
      → Extends fs fs'
      → Allocated fs p
      → seek_words ts ws p fs ≡ some r
      → r ≢ 0
      → seek_words ts ws p fs' ≡ some r
  unfolding seek_words
  seek_words-Extends [] p r fs fs' v v' x al e nz = e
  seek_words-Extends (w ∷ ws) p r fs fs' v v' x al e nz =
      let (q, run, ok) = seek_total ts fs w p v al in
      let al' : Allocated fs' p = (al.0, omega (arith, x.more)) in
      elim (Bool-cases (q == 0)) [
        | inl h ↦
            let stop : seek_words ts (w ∷ ws) p fs ≡ some 0 =
              seek_step w ws p q fs v al run ∙ rw h refl in
            absurd (nz (some_inj _ _ (sym e ∙ stop)))
        | inr h ↦
            let nq : q ≢ 0 = λ z. absurd (ground arith) in
            seek_step_found w ws p q fs' v' al' (x.found w p q al run nq) nq
            ∙ seek_words-Extends ws q r fs fs' v v' x (ok nq)
                (sym (seek_step_found w ws p q fs v al run nq) ∙ e) nz
      ]

  create_step :
      (w : List ℕ) (ws : List (List ℕ)) (p r : ℕ) (fs : Vfs)
      → IsVfs ts fs
      → vfs_seek w p fs ≡ some r
      → r ≢ 0
      → create_words ts (w ∷ ws) p fs ≡ create_words ts ws r fs
  unfolding create_words
  create_step w ws p r fs v e nz = rw (v.registered, ◌>>=◌, e, ==_ne r 0 nz) refl

  create_step_missing :
      (w : List ℕ) (ws : List (List ℕ)) (p n : ℕ) (fs fs' : Vfs)
      → IsVfs ts fs
      → vfs_seek w p fs ≡ some 0
      → vfs_create w p fs ≡ some (n, fs')
      → create_words ts (w ∷ ws) p fs ≡ create_words ts ws n fs'
  unfolding create_words
  create_step_missing w ws p n fs fs' v e run = rw (v.registered, ◌>>=◌, e, run) refl

  -- What the loop of `kcreate` returns, with the tree it leaves.
  pub record Made (ws : List (List ℕ)) (p : ℕ) (fs : Vfs) : Type 0 where
    pub result : ℕ
    pub fs' : Vfs
    pub run : create_words ts ws p fs ≡ some (result, fs')
    pub valid : IsVfs ts fs'
    pub node : Allocated fs' result
    pub extends : Extends fs fs'
    pub sought : seek_words ts ws p fs' ≡ some result

  pub create_words_total :
      (ws : List (List ℕ)) (p : ℕ) (fs : Vfs) → IsVfs ts fs → Allocated fs p → Made ws p fs
  unfolding create_words seek_words
  create_words_total [] p fs v al = record {
    result = p;
    fs' = fs;
    run = refl;
    valid = v;
    node = al;
    extends = Extends-refl fs;
    sought = refl;
  }
  create_words_total (w ∷ ws) p fs v al =
      let (r, found, ok) = seek_total ts fs w p v al in
      elim (Bool-cases (r == 0)) [
        | inl h ↦
            let missing = found ∙ ap some ((==_iff r 0).0 h) in
            let (n, is) = v.node p al in
            let fs1 = created w p n fs in
            let v1 = created-IsVfs ts w p n fs v al is in
            let x1 = created-Extends ts w p n fs v al is in
            let new : Allocated fs1 fs.next =
              ((λ z. absurd (omega (arith, v.root.1))), omega arith) in
            let rest = create_words_total ws fs.next fs1 v1 new in
            let made = vfs_create-run w p n fs al is.0 in
            let al1 : Allocated fs1 p = (al.0, omega arith) in
            let al2 : Allocated rest.fs' p = (al.0, omega (arith, rest.extends.more)) in
            record {
              result = rest.result;
              fs' = rest.fs';
              run = create_step_missing w ws p fs.next fs fs1 v missing made ∙ rest.run;
              valid = rest.valid;
              node = rest.node;
              extends = Extends-trans fs fs1 rest.fs' x1 rest.extends;
              sought =
                  seek_step_found w ws p fs.next rest.fs' rest.valid al2
                    (rest.extends.found w p fs.next al1 (seek-created ts w p n fs v al is missing)
                      new.0)
                    new.0
                  ∙ rest.sought;
            }
        | inr h ↦
            let nz : r ≢ 0 = λ z. absurd (ground arith) in
            let rest = create_words_total ws r fs v (ok nz) in
            let al2 : Allocated rest.fs' p = (al.0, omega (arith, rest.extends.more)) in
            record {
              result = rest.result;
              fs' = rest.fs';
              run = create_step w ws p r fs v found nz ∙ rest.run;
              valid = rest.valid;
              node = rest.node;
              extends = rest.extends;
              sought =
                  seek_step_found w ws p r rest.fs' rest.valid al2
                    (rest.extends.found w p r al found nz) nz
                  ∙ rest.sought;
            }
      ]

-- A search that ends at a node has gone down along the names.
pub seek_words-Leads :
    (ts : Types) (ws : List (List ℕ)) (p r : ℕ) (fs : Vfs)
    → IsVfs ts fs
    → Allocated fs p
    → seek_words ts ws p fs ≡ some r
    → r ≢ 0
    → Leads fs p ws r
unfolding seek_words Leads
seek_words-Leads ts [] p r fs v al e nz = some_inj _ _ e
seek_words-Leads ts (w ∷ ws) p r fs v al e nz =
    let (q, run, ok) = seek_total ts fs w p v al in
    elim (Bool-cases (q == 0)) [
      | inl h ↦
          let stop : seek_words ts (w ∷ ws) p fs ≡ some 0 =
            seek_step ts w ws p q fs v al run ∙ rw h refl in
          absurd (nz (some_inj _ _ (sym e ∙ stop)))
      | inr h ↦
          let nq : q ≢ 0 = λ z. absurd (ground arith) in
          let (m, im, named, up) = seek-IsChild ts fs w p q v al run nq in
          let more = sym (seek_step_found ts w ws p q fs v al run nq) ∙ e in
          (q, m, im, named, up, seek_words-Leads ts ws q r fs v (ok nq) more nz)
    ]
