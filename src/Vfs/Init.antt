-- ===== src/Vfs/Init.antt =====
-- What `vfs_init` of vfs.c leaves.
use mathlib.Core.Path.{subst}
use smpl_osv.Base.{
  ℕ, suc, ◌+◌, ◌<◌, ◌≡◌, refl, sym, ap, ◌∙◌, ◌≢◌, arith, some, List, [], ◌∷◌, All, ==_refl,
  some_inj,
}
use smpl_osv.Base.Bits.{u8}
use smpl_osv.Libc.{◌>>=◌}
use smpl_osv.Vfs.{
  Node, Vfs, Types, put, vfs_type, vfs_register_type, kseek, vfs_init, dev_path, proc_path,
  root_name,
}
use smpl_osv.Vfs.Tree.{IsChild, IsVfs, Leads}
use smpl_osv.Vfs.Create.{new_node}
use smpl_osv.Vfs.Create.Path.{IsString, kcreate-kseek, kseek-Leads}

registered : Types → Types
unfolding vfs_register_type
registered ts = (vfs_register_type vfs_type ts).1

register_id :
    (ts : Types) → ts.last_fs_type < 256 → (vfs_register_type vfs_type ts).0 ≡ ts.last_fs_type
unfolding vfs_register_type
register_id ts h = omega arith

register_at : (ts : Types) → (registered ts).fs_types ts.last_fs_type ≡ some vfs_type
unfolding registered vfs_register_type
register_at ts = rw (==_refl ts.last_fs_type) refl

-- The file system with its root alone.
rooted : ℕ → Vfs → Vfs
rooted id fs = record (put fs.next (new_node root_name 0 id) (record fs { next = suc fs.next })) {
  vfs_root = fs.next;
  vfs_typeid = id;
}

rooted-IsVfs :
    (ts : Types) (id : ℕ) (fs : Vfs)
    → fs.next ≡ 1
    → ts.fs_types id ≡ some vfs_type
    → IsVfs ts (rooted id fs)
unfolding rooted
rooted-IsVfs ts id fs first e = record {
  registered = e;
  root = ((λ z. absurd (omega arith)), omega arith);
  node = λ p (np, lt).
      let same : p ≡ fs.next = omega arith in
      (new_node root_name 0 id, (rw (same, ==_refl fs.next) refl, refl, tt));
  childs = λ p n (np, lt) e.
      let same : p ≡ fs.next = omega arith in
      let at : new_node root_name 0 id ≡ n = some_inj _ _ (rw (same, ==_refl fs.next) at e) in
      subst (λ (k : Node). All (IsChild (rooted id fs) p) k.childs) at tt;
}

-- "dev" and "proc".
abbrev pub dev_name : List ℕ
dev_name = 100 ∷ 101 ∷ 118 ∷ []

abbrev pub proc_name : List ℕ
proc_name = 112 ∷ 114 ∷ 111 ∷ 99 ∷ []

dev_path-IsString : IsString dev_path
dev_path-IsString = ((omega arith, (omega arith, (omega arith, (omega arith, tt)))), omega arith)

proc_path-IsString : IsString proc_path
proc_path-IsString =
    ((omega arith, (omega arith, (omega arith, (omega arith, (omega arith, tt))))), omega arith)

-- A node has one name.
Leads-apart :
    (fs : Vfs) (p q r : ℕ) (v w : List ℕ)
    → v ≢ w
    → Leads fs p (v ∷ []) q
    → Leads fs p (w ∷ []) r
    → q ≢ r
unfolding Leads
Leads-apart fs p q r v w ne (c, m, im, named, _, at) (d, n, in_, named', _, at') e =
    let same : c ≡ d = at ∙ e ∙ sym at' in
    let node : m ≡ n = some_inj m n (sym im ∙ ap (λ k. fs.nodes k) same ∙ in_) in
    ne (sym named ∙ ap (λ (k : Node). k.name) node ∙ named')

-- From no nodes at all and a free place among the types, `vfs_init` succeeds and leaves a file
-- system whose nodes have the type of the VFS and whose children point to their parents, in which
-- "/dev" and "/proc" lead to two different children of the root with these names.
pub vfs_init-IsVfs :
    (ts : Types) (fs : Vfs)
    → ts.last_fs_type < 256
    → fs.next ≡ 1
    → (ts' : Types) × (fs' : Vfs) × (vfs_init ts fs ≡ some (ts', fs'))
      × IsVfs ts' fs'
      × ((dev proc : ℕ) × (kseek ts' dev_path fs' ≡ some dev)
          × (kseek ts' proc_path fs' ≡ some proc)
          × Leads fs' fs'.vfs_root (dev_name ∷ []) dev
          × Leads fs' fs'.vfs_root (proc_name ∷ []) proc
          × (dev ≢ proc))
unfolding vfs_init registered rooted
vfs_init-IsVfs ts fs h first =
    let id = ts.last_fs_type in
    let number : u8 (u8 (id + 1) + 255) ≡ id = omega arith in
    let v = rooted-IsVfs (registered ts) id fs first (register_at ts) in
    let (dev, fs2, run2, nz2, v2, at2, _, _, _) =
      kcreate-kseek (registered ts) dev_path id (rooted id fs) dev_path-IsString v in
    let (proc, fs3, run3, nz3, v3, at3, lead3, keep3, _) =
      kcreate-kseek (registered ts) proc_path id fs2 proc_path-IsString v2 in
    let at_dev = keep3 dev_path dev at2 nz2 in
    let lead_dev = kseek-Leads (registered ts) dev_path dev fs3 dev_path-IsString v3 at_dev nz2 in
    (
      registered ts,
      fs3,
      rw (number, ◌>>=◌, run2, run3) refl,
      v3,
      (
        dev,
        proc,
        at_dev,
        at3,
        lead_dev,
        lead3,
        Leads-apart fs3 fs3.vfs_root dev proc dev_name proc_name (λ e. ground arith) lead_dev lead3,
      ),
    )
