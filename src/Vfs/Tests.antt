-- ===== src/Vfs/Tests.antt =====
-- The theorems on the file system as `vfs_init` leaves it.
use smpl_osv.Base.{
  ℕ, ◌+◌, ◌<◌, ◌≡◌, refl, ◌≢◌, arith, none, some, List, [], ◌∷◌, All, some_inj, inl, inr,
  if◌then◌else◌, ◌==◌,
}
use mathlib.Core.Path.{subst}
use smpl_osv.Base.{sym}
use smpl_osv.Vfs.{
  Node, Vfs, Types, vfs_type, vfs_init, kseek, kcreate, kwrite, kread, dev_path, proc_path, put,
}
use smpl_osv.Libc.Tokens.{words}
use smpl_osv.Vfs.Tree.{IsChild, IsVfs, Leads}
use smpl_osv.Vfs.Create.{new_node}
use smpl_osv.Vfs.Create.Path.{IsString, kcreate-kseek}
use smpl_osv.Vfs.Files.{kwrite-kread}
use smpl_osv.Vfs.Init.{vfs_init-IsVfs, dev_name, proc_name}

abbrev no_types : Types
no_types = record { fs_types = λ i. none; last_fs_type = 0 }

abbrev no_nodes : Vfs
no_nodes = record { nodes = λ p. none; next = 1; vfs_root = 0; vfs_typeid = 0; memory = λ a. a }

vfs_init-IsVfs_example :
    (ts' : Types) × (fs' : Vfs) × (vfs_init no_types no_nodes ≡ some (ts', fs'))
    × IsVfs ts' fs'
    × ((dev proc : ℕ) × (kseek ts' dev_path fs' ≡ some dev)
        × (kseek ts' proc_path fs' ≡ some proc)
        × Leads fs' fs'.vfs_root (dev_name ∷ []) dev
        × Leads fs' fs'.vfs_root (proc_name ∷ []) proc
        × (dev ≢ proc))
vfs_init-IsVfs_example = vfs_init-IsVfs no_types no_nodes (omega arith) refl

-- A root with an inode.
abbrev types : Types
types = record { fs_types = λ i. if i == 0 then some vfs_type else none; last_fs_type = 1 }

abbrev root : Node
root = record (new_node [] 0 0) { inode = 4096 }

abbrev small : Vfs
small = record (put 1 root no_nodes) { next = 2; vfs_root = 1 }

small-IsVfs : IsVfs types small
small-IsVfs = record {
  registered = refl;
  root = (omega arith, omega arith);
  node = λ p (nz, lt).
      let same : p ≡ 1 = omega arith in
      (root, (subst (λ q. small.nodes q ≡ some root) (sym same) refl, refl, tt));
  childs = λ p n (nz, lt) e.
      let same : p ≡ 1 = omega arith in
      let at : root ≡ n = some_inj root n (subst (λ q. small.nodes q ≡ some n) same e) in
      subst (λ (k : Node). All (IsChild small p) k.childs) at tt;
}

-- "/sda/x"
abbrev path : List ℕ
path = 47 ∷ 115 ∷ 100 ∷ 97 ∷ 47 ∷ 120 ∷ []

path-IsString : IsString path
path-IsString = (
  (omega arith, (omega arith, (omega arith, (omega arith, (omega arith, (omega arith, tt)))))),
  omega arith,
)

kcreate-kseek_example :
    (node : ℕ) × (fs' : Vfs) × (kcreate types path 0 small ≡ some (node, fs'))
    × (node ≢ 0)
    × IsVfs types fs'
    × (kseek types path fs' ≡ some node)
    × Leads fs' fs'.vfs_root (words 47 path) node
    × ((other : List ℕ) (r : ℕ)
        → kseek types other small ≡ some r
        → r ≢ 0
        → kseek types other fs' ≡ some r)
    × ((r : ℕ) → kseek types path small ≡ some r → r ≢ 0 → fs' ≡ small)
kcreate-kseek_example = kcreate-kseek types path 0 small path-IsString small-IsVfs

kwrite-kread_example :
    (fs' fs'' : Vfs) × (kwrite types 1 8 4 100 small ≡ some (4, fs'))
    × (kread types 1 8 4 200 fs' ≡ some (4, fs''))
    × ((i : ℕ) → i < 4 → fs''.memory (200 + i) ≡ small.memory (100 + i))
    × IsVfs types fs''
kwrite-kread_example =
    kwrite-kread types small 1 root 8 4 100 200 small-IsVfs (omega arith, omega arith) refl
      (omega arith) (inr (omega arith)) (inl (omega arith))
