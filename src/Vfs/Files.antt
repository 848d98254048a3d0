-- ===== src/Vfs/Files.antt =====
-- Reading and writing through a node of vfs.c.
use smpl_osv.Base.{ℕ, ◌+◌, ◌≤◌, ◌<◌, ◌≡◌, refl, ap, ◌∙◌, ◌≢◌, ◌⊎◌, arith, some, ==_ne}
use smpl_osv.Libc.{◌>>=◌, memcpy}
use smpl_osv.Libc.Copy.{memcpy-copies}
use smpl_osv.Vfs.{Node, Vfs, FsType, Types, vfs_read, vfs_write, kread, kwrite}
use smpl_osv.Vfs.Tree.{Allocated, IsVfs}
use smpl_osv.Vfs.Create.Words.{method-IsVfs}

module _ (ts : Types) (fs : Vfs) (v : IsVfs ts fs) (p : ℕ) (al : Allocated fs p) (n : Node)
    (is : fs.nodes p ≡ some n) (nz : n.inode ≢ 0) (offset size buffer : ℕ) where
  kwrite_lem :
      kwrite ts p offset size buffer fs
      ≡ some (size, record fs { memory = memcpy (n.inode + offset) buffer size fs.memory })
  unfolding kwrite vfs_write
  kwrite_lem =
      rw
        (
          method-IsVfs ts (λ (t : FsType). t.write) vfs_write p fs v al refl,
          ◌>>=◌,
          is,
          ==_ne n.inode 0 nz,
        )
        refl

  kread_lem :
      kread ts p offset size buffer fs
      ≡ some (size, record fs { memory = memcpy buffer (n.inode + offset) size fs.memory })
  unfolding kread vfs_read
  kread_lem =
      rw
        (
          method-IsVfs ts (λ (t : FsType). t.read) vfs_read p fs v al refl,
          ◌>>=◌,
          is,
          ==_ne n.inode 0 nz,
        )
        refl

IsVfs-memory :
    (ts : Types) (fs : Vfs) (m : ℕ → ℕ) → IsVfs ts fs → IsVfs ts (record fs { memory = m })
IsVfs-memory ts fs m v = record {
  registered = v.registered;
  root = v.root;
  node = v.node;
  childs = v.childs;
}

-- In a file system whose nodes have the type of the VFS, what `kwrite` writes from one buffer to a
-- node with an inode `kread` reads from the same place into another: both return the size, the
-- second buffer has the bytes that the first had, and the tree stays such a tree. Each copy may
-- overlap forward only, as `memcpy` copies from the first byte on.
pub kwrite-kread :
    (ts : Types) (fs : Vfs) (p : ℕ) (n : Node) (offset size from to : ℕ)
    → IsVfs ts fs
    → Allocated fs p
    → fs.nodes p ≡ some n
    → n.inode ≢ 0
    → (n.inode + offset ≤ from) ⊎ (from + size ≤ n.inode + offset)
    → (to ≤ n.inode + offset) ⊎ (n.inode + offset + size ≤ to)
    → (fs' fs'' : Vfs) × (kwrite ts p offset size from fs ≡ some (size, fs'))
      × (kread ts p offset size to fs' ≡ some (size, fs''))
      × ((i : ℕ) → i < size → fs''.memory (to + i) ≡ fs.memory (from + i))
      × IsVfs ts fs''
kwrite-kread ts fs p n offset size from to v al is nz apart apart' =
    let m1 = memcpy (n.inode + offset) from size fs.memory in
    let m2 = memcpy to (n.inode + offset) size m1 in
    let fs1 = record fs { memory = m1 } in
    let v1 = IsVfs-memory ts fs m1 v in
    let (w, _) = memcpy-copies (n.inode + offset) from size fs.memory apart in
    let (r, _) = memcpy-copies to (n.inode + offset) size m1 apart' in
    (
      fs1,
      record fs { memory = m2 },
      kwrite_lem ts fs v p al n is nz offset size from,
      kread_lem ts fs1 v1 p al n is nz offset size to,
      λ i lt.
          r (to + i) (omega arith) (omega arith)
          ∙ ap m1 (omega arith)
          ∙ w (n.inode + offset + i) (omega arith) (omega arith)
          ∙ ap (λ a. fs.memory a) (omega arith),
      IsVfs-memory ts fs m2 v,
    )
