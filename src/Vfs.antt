-- ===== src/Vfs.antt =====
-- The virtual file system, src/kernel/src/dev/vfs.c. A node is named by its number, in the order of
-- the allocations, and 0 is NULL; it stands together with its directory entry, which is allocated
-- with it and never shared. A string is its bytes; a path is cut by `strdup` and `strtok`
-- (`Libc.Split`), whose copy is freed at the end. `none` is an access through NULL or to a type
-- that is not registered.
pub mod Tree
pub mod Search
pub mod Create
pub mod Files
pub mod Init
mod Tests
use smpl_osv.Base.{
  ℕ, zero, suc, ◌+◌, ◌-◌, Bool, true, false, ◌&&◌, not, Option, none, some, List, [], ◌∷◌, ◌++◌,
  ◌==◌, if◌then◌else◌, update,
}
use smpl_osv.Base.Bits.{u8}
use smpl_osv.Libc.{Bytes, ◌>>=◌, memcpy, string_eq}
use smpl_osv.Libc.Split.{split_string}

-- `vfs_node_t` with its `vfs_dirent_t`; `childs_count` is the length of `childs`.
pub record Node : Type 0 where
  pub name : List ℕ
  pub fs_type : ℕ
  pub inode : ℕ
  pub device : ℕ
  pub childs : List ℕ
  pub parent : ℕ

-- The nodes, the number of the next one, `vfs_root`, `vfs_typeid`, and the memory that inodes and
-- buffers are in.
pub record Vfs : Type 0 where
  pub nodes : ℕ → Option Node
  pub next : ℕ
  pub vfs_root : ℕ
  pub vfs_typeid : ℕ
  pub memory : Bytes

-- `fs_type_t`; `none` is a null pointer.
pub record FsType : Type 0 where
  pub mount : Option (ℕ → ℕ → Vfs → Option Vfs)
  pub read : Option (ℕ → ℕ → ℕ → ℕ → Vfs → Option (ℕ × Vfs))
  pub write : Option (ℕ → ℕ → ℕ → ℕ → Vfs → Option (ℕ × Vfs))
  pub readdir : Option (ℕ → Vfs → Option ℕ)
  pub seek : Option (List ℕ → ℕ → Vfs → Option ℕ)
  pub create : Option (List ℕ → ℕ → Vfs → Option (ℕ × Vfs))

-- `fs_types` and `last_fs_type`.
pub record Types : Type 0 where
  pub fs_types : ℕ → Option FsType
  pub last_fs_type : ℕ

-- A write through a pointer to a node.
abbrev pub put : ℕ → Node → Vfs → Vfs
put p n fs = record fs { nodes = λ q. if q == p then some n else fs.nodes q }

pub vfs_register_type : FsType → Types → ℕ × Types
vfs_register_type type ts =
    let last = u8 (ts.last_fs_type + 1) in
    (
      u8 (last + 255),
      record ts {
        fs_types = λ i. if i == ts.last_fs_type then some type else ts.fs_types i;
        last_fs_type = last;
      },
    )

pub vfs_add_child : ℕ → ℕ → Vfs → Option Vfs
vfs_add_child parent child fs = do
  p ← fs.nodes parent
  let fs' = put parent (record p { childs = p.childs ++ child ∷ [] }) fs
  c ← fs'.nodes child
  some (put child (record c { parent = parent }) fs')

pub vfs_create_node : List ℕ → ℕ → ℕ → ℕ → Vfs → Option (ℕ × Vfs)
unfolding vfs_add_child
vfs_create_node name inode type parent fs =
    let n : Node = record {
      name = name;
      fs_type = type;
      inode = inode;
      device = 0;
      childs = [];
      parent = 0;
    } in
    let fs' = put fs.next n (record fs { next = suc fs.next }) in
    if parent == 0
    then some (fs.next, fs')
    else do added ← vfs_add_child parent fs.next fs'; some (fs.next, added)

-- `strcmp` finds no difference.
pub seek_among : List ℕ → List ℕ → Vfs → Option ℕ
seek_among path [] fs = some 0
seek_among path (c ∷ cs) fs =
    let rest = seek_among path cs fs in
    do n ← fs.nodes c; if string_eq path n.name then some c else rest

pub vfs_seek : List ℕ → ℕ → Vfs → Option ℕ
unfolding seek_among
vfs_seek path node fs = do n ← fs.nodes node; seek_among path n.childs fs

pub vfs_create : List ℕ → ℕ → Vfs → Option (ℕ × Vfs)
unfolding vfs_create_node
vfs_create name parent fs = vfs_create_node name 0 fs.vfs_typeid parent fs

pub vfs_mount : ℕ → ℕ → Vfs → Option Vfs
vfs_mount to from fs = do
  t ← fs.nodes to
  let fs' = put to (record t { device = from }) fs
  f ← fs'.nodes from
  t' ← fs'.nodes to
  some (put to (record t' { fs_type = f.fs_type }) fs')

pub vfs_read : ℕ → ℕ → ℕ → ℕ → Vfs → Option (ℕ × Vfs)
vfs_read node offset size buffer fs = do
  n ← fs.nodes node
  if n.inode == 0
      then some (0, fs)
      else some (size, record fs { memory = memcpy buffer (n.inode + offset) size fs.memory })

pub vfs_write : ℕ → ℕ → ℕ → ℕ → Vfs → Option (ℕ × Vfs)
vfs_write node offset size buffer fs = do
  n ← fs.nodes node
  if n.inode == 0
      then some (0, fs)
      else some (size, record fs { memory = memcpy (n.inode + offset) buffer size fs.memory })

-- The directory entry is that of the node itself.
pub vfs_readdir : ℕ → Vfs → Option ℕ
vfs_readdir node fs = do n ← fs.nodes node; some node

-- The function of a node's type, and where that is NULL the one of the VFS's own type.
pub method {ℓ} : {A : Type ℓ} → (FsType → Option A) → Types → ℕ → Vfs → Option A
method field ts node fs = do
  n ← fs.nodes node
  t ← ts.fs_types n.fs_type
  elim (field t) [ some f ↦ some f | none ↦ do v ← ts.fs_types fs.vfs_typeid; field v ]

pub seek_words : Types → List (List ℕ) → ℕ → Vfs → Option ℕ
unfolding method
seek_words ts [] root fs = some root
seek_words ts (path_part ∷ parts) root fs = do
  seek ← method (λ t. t.seek) ts root fs
  root' ← seek path_part root fs
  elim (root' == 0) [ true ↦ some 0 | false ↦ seek_words ts parts root' fs ]

pub kseek : Types → List ℕ → Vfs → Option ℕ
unfolding seek_words split_string
kseek ts path fs = do parts ← split_string 47 path; seek_words ts parts fs.vfs_root fs

pub create_words : Types → List (List ℕ) → ℕ → Vfs → Option (ℕ × Vfs)
create_words ts [] node fs = some (node, fs)
create_words ts (path_part ∷ parts) prev_node fs = do
  v ← ts.fs_types fs.vfs_typeid
  seek ← v.seek
  node ← seek path_part prev_node fs
  elim (node == 0) [
    | true ↦ do
      create ← v.create
      (node', fs') ← create path_part prev_node fs
      create_words ts parts node' fs'
    | false ↦ create_words ts parts node fs
  ]

pub kcreate : Types → List ℕ → ℕ → Vfs → Option (ℕ × Vfs)
unfolding kseek create_words split_string
kcreate ts path type fs = do
  node ← kseek ts path fs
  if node == 0
      then (do parts ← split_string 47 path; create_words ts parts fs.vfs_root fs)
      else some (node, fs)

-- The device is a string: with NULL, `kseek` reads through the null pointer.
pub kmount : Types → List ℕ → List ℕ → ℕ → Vfs → Option (ℕ × Vfs)
unfolding kseek kcreate method
kmount ts path device type fs = do
  found ← kseek ts path fs
  (node, fs') ← if found == 0 then kcreate ts path type fs else some (found, fs)
  device_node ← kseek ts device fs'
  mount ← method (λ t. t.mount) ts node fs'
  mounted ← mount node device_node fs'
  some (0, mounted)

pub kread : Types → ℕ → ℕ → ℕ → ℕ → Vfs → Option (ℕ × Vfs)
unfolding method
kread ts node offset size buffer fs = do
  read ← method (λ t. t.read) ts node fs
  read node offset size buffer fs

pub kwrite : Types → ℕ → ℕ → ℕ → ℕ → Vfs → Option (ℕ × Vfs)
unfolding method
kwrite ts node offset size buffer fs = do
  write ← method (λ t. t.write) ts node fs
  write node offset size buffer fs

-- The node whose directory entry is returned, or 0.
pub kreaddir : Types → List ℕ → Vfs → Option ℕ
unfolding kseek method
kreaddir ts path fs = do
  node ← kseek ts path fs
  if node == 0 then some 0 else do readdir ← method (λ t. t.readdir) ts node fs; readdir node fs

-- The functions that `vfs_init` registers.
abbrev pub vfs_type : FsType
vfs_type = record {
  mount = some vfs_mount;
  read = some vfs_read;
  write = some vfs_write;
  readdir = some vfs_readdir;
  seek = some vfs_seek;
  create = some vfs_create;
}

-- "[root]", "/dev" and "/proc".
abbrev root_name : List ℕ
root_name = 91 ∷ 114 ∷ 111 ∷ 111 ∷ 116 ∷ 93 ∷ []

abbrev pub dev_path : List ℕ
dev_path = 47 ∷ 100 ∷ 101 ∷ 118 ∷ []

abbrev pub proc_path : List ℕ
proc_path = 47 ∷ 112 ∷ 114 ∷ 111 ∷ 99 ∷ []

pub vfs_init : Types → Vfs → Option (Types × Vfs)
unfolding vfs_register_type vfs_create_node
vfs_init ts fs = do
  let (id, types) = vfs_register_type vfs_type ts
  (root, fs1) ← vfs_create_node root_name 0 id 0 (record fs { vfs_typeid = id })
  (dev, fs2) ← kcreate types dev_path id (record fs1 { vfs_root = root })
  (proc, fs3) ← kcreate types proc_path id fs2
  some (types, fs3)

-- The lines that are printed: how many dashes stand in front of a name.
print_childs : (ℕ → Option (List (ℕ × List ℕ))) → List ℕ → Option (List (ℕ × List ℕ))
print_childs print [] = some []
print_childs print (c ∷ cs) = do lines ← print c; rest ← print_childs print cs; some (lines ++ rest)

pub vfs_print_node : ℕ → ℕ → ℕ → Vfs → Option (List (ℕ × List ℕ))
unfolding print_childs
vfs_print_node zero node spaces fs = none
vfs_print_node (suc fuel) node spaces fs = do
  n ← fs.nodes node
  lines ← print_childs (λ c. vfs_print_node fuel c (spaces + 1) fs) n.childs
  some ((spaces, n.name) ∷ lines)

pub vfs_print_tree : ℕ → Vfs → Option (List (ℕ × List ℕ))
unfolding vfs_print_node
vfs_print_tree fuel fs = vfs_print_node fuel fs.vfs_root 0 fs
