-- ===== src/Vfs/Create/Path.antt =====
-- `kseek` and `kcreate` of vfs.c on paths.
use smpl_osv.Base.{
  ℕ, ◌<◌, ◌^◌, ◌≡◌, refl, sym, ap, ◌∙◌, ◌≢◌, arith, none, some, List, All, length, ◌==◌, ==_iff,
  Bool-cases, Option-cases, inl, inr, if◌then◌else◌, some_inj,
}
use smpl_osv.Libc.{◌>>=◌}
use smpl_osv.Libc.Tokens.{words}
use smpl_osv.Libc.Split.{split_string, split_string-words}
use smpl_osv.Vfs.{Vfs, Types, seek_words, create_words, kseek, kcreate}
use smpl_osv.Vfs.Tree.{IsVfs, Extends, Leads}
use smpl_osv.Vfs.Create.Words.{
  seek_words_total, seek_words-Extends, seek_words-Leads, create_words_total,
}

-- A string as C has it, with a length that an `unsigned int` holds.
abbrev pub IsString : List ℕ → Type 0
IsString xs = All (λ x. x ≢ 0) xs × (length xs < 2 ^ 32)

kseek-words :
    (ts : Types) (path : List ℕ) (fs : Vfs)
    → IsString path
    → kseek ts path fs ≡ seek_words ts (words 47 path) fs.vfs_root fs
unfolding kseek
kseek-words ts path fs s = rw (split_string-words 47 path (omega arith) s.0 s.1, ◌>>=◌) refl

kcreate-words :
    (ts : Types) (path : List ℕ) (type r : ℕ) (fs : Vfs)
    → IsString path
    → kseek ts path fs ≡ some r
    → kcreate ts path type fs
      ≡ (if r == 0 then create_words ts (words 47 path) fs.vfs_root fs else some (r, fs))
unfolding kcreate
kcreate-words ts path type r fs s e =
    rw (e, split_string-words 47 path (omega arith) s.0 s.1, ◌>>=◌) refl

-- What any path led to it leads to in a file system that extends the first.
kseek-Extends :
    (ts : Types) (path : List ℕ) (r : ℕ) (fs fs' : Vfs)
    → IsVfs ts fs
    → IsVfs ts fs'
    → Extends fs fs'
    → kseek ts path fs ≡ some r
    → r ≢ 0
    → kseek ts path fs' ≡ some r
unfolding kseek
kseek-Extends ts path r fs fs' v v' x e nz = elim (Option-cases (split_string 47 path)) [
  | inl h ↦ let stop : none ≡ some r = rw (h, ◌>>=◌) at e in absurd (ground arith)
  | inr (ws, h) ↦
      let e' : seek_words ts ws fs.vfs_root fs ≡ some r = rw (h, ◌>>=◌) at e in
      rw (h, ◌>>=◌)
        (ap (λ q. seek_words ts ws q fs') x.same_root
          ∙ seek_words-Extends ts ws fs.vfs_root r fs fs' v v' x v.root e' nz)
]

pub kseek-Leads :
    (ts : Types) (path : List ℕ) (r : ℕ) (fs : Vfs)
    → IsString path
    → IsVfs ts fs
    → kseek ts path fs ≡ some r
    → r ≢ 0
    → Leads fs fs.vfs_root (words 47 path) r
kseek-Leads ts path r fs s v e nz =
    seek_words-Leads ts (words 47 path) fs.vfs_root r fs v v.root
      (sym (kseek-words ts path fs s) ∙ e) nz

-- In a file system whose nodes all have the type of the VFS and whose children point to their
-- parents, `kcreate` of a path of fewer than 2^32 bytes, none of them zero, succeeds with a node
-- that `kseek` then finds by the path, the words of the path being the names of the nodes on the
-- way from the root to it, each the child of the one before; the tree stays such a tree, and every
-- path that led to a node leads to the same node as before; a path that led to a node already
-- changes nothing.
pub kcreate-kseek :
    (ts : Types) (path : List ℕ) (type : ℕ) (fs : Vfs)
    → IsString path
    → IsVfs ts fs
    → (node : ℕ) × (fs' : Vfs) × (kcreate ts path type fs ≡ some (node, fs'))
      × (node ≢ 0)
      × IsVfs ts fs'
      × (kseek ts path fs' ≡ some node)
      × Leads fs' fs'.vfs_root (words 47 path) node
      × ((other : List ℕ) (r : ℕ)
          → kseek ts other fs ≡ some r
          → r ≢ 0
          → kseek ts other fs' ≡ some r)
      × ((r : ℕ) → kseek ts path fs ≡ some r → r ≢ 0 → fs' ≡ fs)
kcreate-kseek ts path type fs s v =
    let ws = words 47 path in
    let (r, sought, ok) = seek_words_total ts ws fs.vfs_root fs v v.root in
    let found = kseek-words ts path fs s ∙ sought in
    let start = kcreate-words ts path type r fs s found in
    elim (Bool-cases (r == 0)) [
      | inl h ↦
          let made = create_words_total ts ws fs.vfs_root fs v v.root in
          let again =
            kseek-words ts path made.fs' s
            ∙ ap (λ q. seek_words ts ws q made.fs') made.extends.same_root
            ∙ made.sought in
          (
            made.result,
            made.fs',
            start ∙ rw h made.run,
            made.node.0,
            made.valid,
            again,
            kseek-Leads ts path made.result made.fs' s made.valid again made.node.0,
            λ other q e nq. kseek-Extends ts other q fs made.fs' v made.valid made.extends e nq,
            λ q e nq. absurd (nq (some_inj _ _ (sym e ∙ found) ∙ (==_iff r 0).0 h)),
          )
      | inr h ↦
          let nz : r ≢ 0 = λ z. absurd (ground arith) in
          (
            r,
            fs,
            start ∙ rw h refl,
            nz,
            v,
            found,
            kseek-Leads ts path r fs s v found nz,
            λ other q e nq. e,
            λ q e nq. refl,
          )
    ]
