-- ===== src/Vfs/Create.antt =====
-- What `vfs_create` of vfs.c makes of a tree of nodes.
pub mod Words
pub mod Path
use smpl_osv.Base.{
  ℕ, zero, suc, ◌+◌, ◌≤◌, ◌<◌, ◌≡◌, refl, sym, ap, ◌∙◌, ◌≢◌, arith, Bool, true, false, Option, none,
  some, List, [], ◌∷◌, ◌++◌, All, All-append, ◌==◌, ==_refl, ==_ne, ==_iff, Bool-cases, inl, inr,
  if◌then◌else◌, some_inj,
}
use mathlib.Core.Path.{subst}
use smpl_osv.Libc.{◌>>=◌, string_eq}
use smpl_osv.Vfs.{
  Node, Vfs, FsType, Types, put, vfs_seek, seek_among, vfs_add_child, vfs_create_node, vfs_create,
  vfs_type,
}
use smpl_osv.Vfs.Search.{among_hit, among_miss, among-append_found, among-append_missing}
use smpl_osv.Vfs.Tree.{Allocated, IsNode, IsChild, IsVfs, Extends}
use smpl_osv.Libc.Scan.{string_eq_refl}

-- The node that `vfs_create` adds.
abbrev pub new_node : List ℕ → ℕ → ℕ → Node
new_node name parent type = record {
  name = name;
  fs_type = type;
  inode = 0;
  device = 0;
  childs = [];
  parent = parent;
}

-- The file system after `vfs_create`, where `n` is the parent.
abbrev pub created : List ℕ → ℕ → Node → Vfs → Vfs
created name parent n fs = put fs.next (new_node name parent fs.vfs_typeid) (
    put parent (record n { childs = n.childs ++ fs.next ∷ [] })
      (put fs.next (new_node name 0 fs.vfs_typeid) (record fs { next = suc fs.next })))

pub vfs_create-run :
    (name : List ℕ) (parent : ℕ) (n : Node) (fs : Vfs)
    → Allocated fs parent
    → fs.nodes parent ≡ some n
    → vfs_create name parent fs ≡ some (fs.next, created name parent n fs)
unfolding vfs_create vfs_create_node vfs_add_child
vfs_create-run name parent n fs (nz, lt) e =
    let other : (parent == fs.next) ≡ false = ==_ne _ _ (λ h. absurd (omega arith)) in
    let other' : (fs.next == parent) ≡ false = ==_ne _ _ (λ h. absurd (omega arith)) in
    rw (==_ne parent 0 nz, other, e, other', ==_refl fs.next) refl

module _ (ts : Types) (name : List ℕ) (parent : ℕ) (n : Node) (fs : Vfs) where
  module _ (v : IsVfs ts fs) (al : Allocated fs parent) (is : IsNode fs parent n) where
    abbrev after : Vfs
    after = created name parent n fs

    -- The parent keeps its name and gets one more child.
    at_parent : after.nodes parent ≡ some (record n { childs = n.childs ++ fs.next ∷ [] })
    at_parent =
        let other : (parent == fs.next) ≡ false = ==_ne _ _ (λ h. absurd (omega arith)) in
        rw (other, ==_refl parent) refl

    at_other : (p : ℕ) → p < fs.next → p ≢ parent → after.nodes p ≡ fs.nodes p
    at_other p lt ne =
        let other : (p == fs.next) ≡ false = ==_ne _ _ (λ h. absurd (omega arith)) in
        rw (other, ==_ne p parent ne) refl

    -- Every node keeps its name and its type.
    kept :
        (p : ℕ) (m : Node)
        → p < fs.next
        → fs.nodes p ≡ some m
        → (m' : Node) × (after.nodes p ≡ some m')
          × (m'.name ≡ m.name)
          × (m'.fs_type ≡ m.fs_type)
          × (m'.parent ≡ m.parent)
    kept p m lt e = elim (Bool-cases (p == parent)) [
      | inl h ↦
          let same = (==_iff p parent).0 h in
          let node = some_inj n m (sym is.0 ∙ ap (λ q. fs.nodes q) (sym same) ∙ e) in
          (
            record n { childs = n.childs ++ fs.next ∷ [] },
            ap (λ q. after.nodes q) same ∙ at_parent,
            ap (λ (k : Node). k.name) node,
            ap (λ (k : Node). k.fs_type) node,
            ap (λ (k : Node). k.parent) node,
          )
      | inr h ↦ (m, at_other p lt (λ z. absurd (ground arith)) ∙ e, refl, refl, refl)
    ]

    among_after :
        (w : List ℕ) (cs : List ℕ)
        → All (Allocated fs) cs
        → seek_among w cs after ≡ seek_among w cs fs
    unfolding seek_among
    among_after w [] all = refl
    among_after w (c ∷ cs) (first, rest) =
        let (m, (im, _, _)) = v.node c first in
        let (m', im', same, _, _) = kept c m first.1 im in
        elim (Bool-cases (string_eq w m.name)) [
          | inl h ↦ among_hit w after c cs m' im' (rw same h) ∙ sym (among_hit w fs c cs m im h)
          | inr h ↦
              among_miss w after c cs m' im' (rw same h)
              ∙ among_after w cs rest
              ∙ sym (among_miss w fs c cs m im h)
        ]

    wider : (cs : List ℕ) → All (Allocated fs) cs → All (Allocated after) cs
    wider [] all = all
    wider (c ∷ cs) ((nz, lt), rest) = ((nz, omega arith), wider cs rest)

    created_node : (p : ℕ) → Allocated after p → (m : Node) × IsNode after p m
    created_node p (nz, lt) = elim (Bool-cases (p == fs.next)) [
      | inl h ↦ (new_node name parent fs.vfs_typeid, (rw h refl, refl, tt))
      | inr h ↦ elim (Bool-cases (p == parent)) [
        | inl g ↦
            let next : Allocated after fs.next =
              ((λ z. absurd (omega (arith, v.root.1))), omega arith) in
            (
              record n { childs = n.childs ++ fs.next ∷ [] },
              (
                rw (h, g) refl,
                is.1,
                All-append (Allocated after) n.childs (fs.next ∷ []) (wider n.childs is.2)
                    (next, tt),
              ),
            )
        | inr g ↦
            let (m, (im, it, ic)) = v.node p (nz, ground arith) in
            (m, (rw (h, g) im, it, wider m.childs ic))
      ]
    ]

    children_kept :
        (p : ℕ) (cs : List ℕ)
        → All (Allocated fs) cs
        → All (IsChild fs p) cs
        → All (IsChild after p) cs
    children_kept p [] all up = tt
    children_kept p (c ∷ cs) (al_, rest) ((m, im, up), ups) =
        let (m', im', _, _, same) = kept c m al_.1 im in
        ((m', im', same ∙ up), children_kept p cs rest ups)

    created_children :
        (p : ℕ) (m : Node)
        → Allocated after p
        → after.nodes p ≡ some m
        → All (IsChild after p) m.childs
    created_children p m (nz, lt) e = elim (Bool-cases (p == fs.next)) [
      | inl h ↦
          let same : new_node name parent fs.vfs_typeid ≡ m = some_inj _ _ (rw h at e) in
          subst (λ (k : Node). All (IsChild after p) k.childs) same tt
      | inr h ↦
          let old : p < fs.next = ground arith in
          elim (Bool-cases (p == parent)) [
            | inl g ↦
                let at = (==_iff p parent).0 g in
                let same : record n { childs = n.childs ++ fs.next ∷ [] } ≡ m =
                  some_inj _ _ (rw (h, g) at e) in
                let new : IsChild after p fs.next =
                  (new_node name parent fs.vfs_typeid, rw (==_refl fs.next) refl, sym at) in
                let before =
                  children_kept p n.childs is.2
                    (v.childs p n (nz, old) (ap (λ q. fs.nodes q) at ∙ is.0)) in
                subst (λ (k : Node). All (IsChild after p) k.childs) same
                  (All-append (IsChild after p) n.childs (fs.next ∷ []) before (new, tt))
            | inr g ↦
                let before : fs.nodes p ≡ some m = rw (h, g) at e in
                let (m', (im, it, ic)) = v.node p (nz, old) in
                let same : m' ≡ m = some_inj _ _ (sym im ∙ before) in
                children_kept p m.childs (subst (λ (k : Node). All (Allocated fs) k.childs) same ic)
                  (v.childs p m (nz, old) before)
          ]
    ]

    pub created-IsVfs : IsVfs ts after
    created-IsVfs = record {
      registered = v.registered;
      root = (v.root.0, omega (arith, v.root.1));
      node = created_node;
      childs = created_children;
    }

    seek_parent :
        (w : List ℕ) → vfs_seek w parent after ≡ seek_among w (n.childs ++ fs.next ∷ []) after
    unfolding vfs_seek
    seek_parent w = rw at_parent refl

    seek_before : (w : List ℕ) → vfs_seek w parent fs ≡ seek_among w n.childs fs
    unfolding vfs_seek
    seek_before w = rw is.0 refl

    seek_other :
        (w : List ℕ) (p : ℕ) (m : Node)
        → p < fs.next
        → p ≢ parent
        → IsNode fs p m
        → vfs_seek w p after ≡ vfs_seek w p fs
    unfolding vfs_seek
    seek_other w p m lt ne (im, it, ic) = rw (at_other p lt ne, im) (among_after w m.childs ic)

    pub created-Extends : Extends fs after
    created-Extends = record {
      same_root = refl;
      same_type = refl;
      more = omega arith;
      found = λ w p r ap_ e nz. elim (Bool-cases (p == parent)) [
        | inl h ↦
            let same = (==_iff p parent).0 h in
            let before = sym (seek_before w) ∙ ap (λ q. vfs_seek w q fs) (sym same) ∙ e in
            ap (λ q. vfs_seek w q after) same
            ∙ seek_parent w
            ∙ among-append_found ts w after created-IsVfs (fs.next ∷ []) n.childs r
                (wider n.childs is.2) (among_after w n.childs is.2 ∙ before) nz
        | inr h ↦
            let (m, im) = v.node p ap_ in seek_other w p m ap_.1 (λ z. absurd (ground arith)) im ∙ e
      ];
    }

    -- The new node is found where there was none by its name.
    pub seek-created : vfs_seek name parent fs ≡ some 0 → vfs_seek name parent after ≡ some fs.next
    seek-created e =
        let before = sym (seek_before name) ∙ e in
        seek_parent name
        ∙ among-append_missing ts name after created-IsVfs (fs.next ∷ []) n.childs
            (wider n.childs is.2) (among_after name n.childs is.2 ∙ before)
        ∙ among_hit name after fs.next [] (new_node name parent fs.vfs_typeid)
            (rw (==_refl fs.next) refl) (string_eq_refl name)
