-- ===== src/Vfs/Search.antt =====
-- How `vfs_seek` of vfs.c goes through the children of a node.
use smpl_osv.Base.{
  ℕ, ◌≡◌, refl, sym, ◌∙◌, ◌≢◌, true, false, some, List, [], ◌∷◌, ◌++◌, All, Bool-cases, inl, inr,
  some_inj,
}
use smpl_osv.Libc.{string_eq}
use smpl_osv.Vfs.{Node, Vfs, Types, seek_among}
use smpl_osv.Vfs.Tree.{Allocated, IsVfs}

-- One step of the search.
pub among_hit :
    (w : List ℕ) (fs : Vfs) (c : ℕ) (cs : List ℕ) (n : Node)
    → fs.nodes c ≡ some n
    → string_eq w n.name ≡ true
    → seek_among w (c ∷ cs) fs ≡ some c
unfolding seek_among
among_hit w fs c cs n is h = rw (is, h) refl

pub among_miss :
    (w : List ℕ) (fs : Vfs) (c : ℕ) (cs : List ℕ) (n : Node)
    → fs.nodes c ≡ some n
    → string_eq w n.name ≡ false
    → seek_among w (c ∷ cs) fs ≡ seek_among w cs fs
unfolding seek_among
among_miss w fs c cs n is h = rw (is, h) refl

module _ (ts : Types) (w : List ℕ) (fs : Vfs) (v : IsVfs ts fs) (ds : List ℕ) where
  pub among-append_found :
      (cs : List ℕ) (r : ℕ)
      → All (Allocated fs) cs
      → seek_among w cs fs ≡ some r
      → r ≢ 0
      → seek_among w (cs ++ ds) fs ≡ some r
  unfolding seek_among
  among-append_found [] r all e nz = absurd (nz (sym (some_inj _ _ e)))
  among-append_found (c ∷ cs) r (first, rest) e nz =
      let (n, (is, _, _)) = v.node c first in
      elim (Bool-cases (string_eq w n.name)) [
        | inl h ↦ among_hit w fs c (cs ++ ds) n is h ∙ sym (among_hit w fs c cs n is h) ∙ e
        | inr h ↦
            among_miss w fs c (cs ++ ds) n is h
            ∙ among-append_found cs r rest (sym (among_miss w fs c cs n is h) ∙ e) nz
      ]

  pub among-append_missing :
      (cs : List ℕ)
      → All (Allocated fs) cs
      → seek_among w cs fs ≡ some 0
      → seek_among w (cs ++ ds) fs ≡ seek_among w ds fs
  among-append_missing [] all e = refl
  among-append_missing (c ∷ cs) (first, rest) e =
      let (n, (is, _, _)) = v.node c first in
      elim (Bool-cases (string_eq w n.name)) [
        | inl h ↦ absurd (first.0 (some_inj _ _ (sym (among_hit w fs c cs n is h) ∙ e)))
        | inr h ↦
            among_miss w fs c (cs ++ ds) n is h
            ∙ among-append_missing cs rest (sym (among_miss w fs c cs n is h) ∙ e)
      ]
