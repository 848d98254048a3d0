-- ===== src/Vfs/Tree.antt =====
-- The tree of nodes that vfs.c keeps, where every node has the type of the VFS itself.
use mathlib.Core.Path.{subst}
use smpl_osv.Base.{
  sym, some_inj, ℕ, ◌≤◌, ◌<◌, ◌≡◌, refl, ◌∙◌, ◌≢◌, arith, some, List, [], ◌∷◌, All, Bool-cases, inl,
  inr,
}
use smpl_osv.Libc.{string_eq}
use smpl_osv.Libc.Scan.{string_eq-eq}
use smpl_osv.Vfs.{Node, Vfs, Types, vfs_seek, seek_among, vfs_type}

-- A pointer to a node.
abbrev pub Allocated : Vfs → ℕ → Type 0
Allocated fs p = (p ≢ 0) × (p < fs.next)

abbrev pub IsNode : Vfs → ℕ → Node → Type 0
IsNode fs p n = (fs.nodes p ≡ some n) × (n.fs_type ≡ fs.vfs_typeid) × All (Allocated fs) n.childs

-- The node at `c` has the parent `p`.
abbrev pub IsChild : Vfs → ℕ → ℕ → Type 0
IsChild fs p c = (m : Node) × (fs.nodes c ≡ some m) × (m.parent ≡ p)

-- The root and every child are nodes, every child of a node has that node as its parent, and all
-- have the type of the VFS, which is registered.
pub record IsVfs (ts : Types) (fs : Vfs) : Type 0 where
  pub registered : ts.fs_types fs.vfs_typeid ≡ some vfs_type
  pub root : Allocated fs fs.vfs_root
  pub node : (p : ℕ) → Allocated fs p → (n : Node) × IsNode fs p n
  pub childs :
      (p : ℕ) (n : Node) → Allocated fs p → fs.nodes p ≡ some n → All (IsChild fs p) n.childs

-- From the node at `p` these names lead down to the node at `q`: each node on the way has its
-- name and the one before it as its parent.
unfoldable pub Leads : Vfs → ℕ → List (List ℕ) → ℕ → Type 0
Leads fs p [] q = p ≡ q
Leads fs p (w ∷ ws) q =
    (c : ℕ) × (m : Node) × (fs.nodes c ≡ some m) × (m.name ≡ w) × (m.parent ≡ p) × Leads fs c ws q

-- What was found before is found still.
pub record Extends (fs fs' : Vfs) : Type 0 where
  pub same_root : fs'.vfs_root ≡ fs.vfs_root
  pub same_type : fs'.vfs_typeid ≡ fs.vfs_typeid
  pub more : fs.next ≤ fs'.next
  pub found :
      (w : List ℕ) (p r : ℕ)
      → Allocated fs p
      → vfs_seek w p fs ≡ some r
      → r ≢ 0
      → vfs_seek w p fs' ≡ some r

pub Extends-refl : (fs : Vfs) → Extends fs fs
Extends-refl fs = record {
  same_root = refl;
  same_type = refl;
  more = omega arith;
  found = λ w p r a e nz. e;
}

pub Extends-trans : (a b c : Vfs) → Extends a b → Extends b c → Extends a c
Extends-trans a b c x y = record {
  same_root = y.same_root ∙ x.same_root;
  same_type = y.same_type ∙ x.same_type;
  more = omega (arith, x.more, y.more);
  found = λ w p r al e nz. y.found w p r (al.0, omega (arith, x.more)) (x.found w p r al e nz) nz;
}

-- The search through the children ends, at 0 or at one of them.
among_total :
    (ts : Types) (fs : Vfs) (w : List ℕ) (cs : List ℕ)
    → IsVfs ts fs
    → All (Allocated fs) cs
    → (r : ℕ) × (seek_among w cs fs ≡ some r) × (r ≢ 0 → r < fs.next)
unfolding seek_among
among_total ts fs w [] v all = (0, refl, λ h. absurd (h refl))
among_total ts fs w (c ∷ cs) v (first, rest) =
    let (n, (is, _, _)) = v.node c first in
    let (r, run, ok) = among_total ts fs w cs v rest in
    elim (Bool-cases (string_eq w n.name)) [
      | inl e ↦ (c, rw (is, e) refl, λ h. first.1)
      | inr e ↦ (r, rw (is, e) run, ok)
    ]

pub seek_total :
    (ts : Types) (fs : Vfs) (w : List ℕ) (p : ℕ)
    → IsVfs ts fs
    → Allocated fs p
    → (r : ℕ) × (vfs_seek w p fs ≡ some r) × (r ≢ 0 → Allocated fs r)
unfolding vfs_seek
seek_total ts fs w p v al =
    let (n, (is, _, childs)) = v.node p al in
    let (r, run, ok) = among_total ts fs w n.childs v childs in (r, rw is run, λ nz. (nz, ok nz))

-- A child that the search finds has the name, and its parent is the node that was searched.
among-IsChild :
    (fs : Vfs) (w : List ℕ) (p r : ℕ) (cs : List ℕ)
    → All (IsChild fs p) cs
    → seek_among w cs fs ≡ some r
    → r ≢ 0
    → (m : Node) × (fs.nodes r ≡ some m) × (m.name ≡ w) × (m.parent ≡ p)
unfolding seek_among
among-IsChild fs w p r [] all e nz = absurd (nz (sym (some_inj _ _ e)))
among-IsChild fs w p r (c ∷ cs) ((m, is, up), rest) e nz = elim (Bool-cases (string_eq w m.name)) [
  | inl h ↦
      let at : c ≡ r = some_inj c r (rw (is, h) at e) in
      (m, subst (λ k. fs.nodes k ≡ some m) at is, sym (string_eq-eq w m.name h), up)
  | inr h ↦
      let later : seek_among w cs fs ≡ some r = rw (is, h) at e in
      among-IsChild fs w p r cs rest later nz
]

pub seek-IsChild :
    (ts : Types) (fs : Vfs) (w : List ℕ) (p r : ℕ)
    → IsVfs ts fs
    → Allocated fs p
    → vfs_seek w p fs ≡ some r
    → r ≢ 0
    → (m : Node) × (fs.nodes r ≡ some m) × (m.name ≡ w) × (m.parent ≡ p)
unfolding vfs_seek
seek-IsChild ts fs w p r v al e nz =
    let (n, (is, _, _)) = v.node p al in
    let among : seek_among w n.childs fs ≡ some r = rw is at e in
    among-IsChild fs w p r n.childs (v.childs p n al is) among nz
