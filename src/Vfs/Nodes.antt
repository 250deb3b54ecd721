-- ===== src/Vfs/Nodes.antt =====
-- kernel/vfs/src/vfs/node.rs: the operations of an open file, which go through a weak reference.
use muffin.Base.{ℕ, Option, none, some, List, [], ◌∷◌, ◌==◌, if◌then◌else◌, Result, err}
use muffin.Vfs.Path.{OwnedPath}
use muffin.Vfs.Mounts.{
  file_system_not_open, ReadError, read_fs_error, WriteError, write_fs_error, StatError,
  stat_fs_error, IoctlError, ioctl_fs_error, MmapError, mmap_fs_error, FsyncError, fsync_fs_error,
  MmapRegion, Stat, FileSystem, Mounted, Vfs, VfsNode, store,
}

module _ {F : Type 0} where
  -- `Weak::upgrade`: an `Arc` lives as long as it is mounted.
  unfoldable pub upgrade : ℕ → List (OwnedPath × Mounted F) → Option F
  upgrade i [] = none
  upgrade i ((q, m) ∷ l) = if m.arc == i then some m.file_system else upgrade i l

  -- The upgrade, its answer when the file system is gone, and a call with the file system locked.
  unfoldable pub with_fs : {R : Type 0} → VfsNode → R → (F → F × R) → Vfs F → Vfs F × R
  unfolding upgrade store
  with_fs node gone call v = elim (upgrade node.fs v.file_systems) [
    | none ↦ (v, gone)
    | some fs ↦
        let (fs', r) = call fs in (record v { file_systems = store node.fs fs' v.file_systems }, r)
  ]

module _ {F : Type 0} (api : FileSystem F) where
  unfoldable pub read : VfsNode → List ℕ → ℕ → Vfs F → Vfs F × (List ℕ × Result ℕ ReadError)
  unfolding with_fs
  read node buf offset =
      with_fs node (buf, err (read_fs_error file_system_not_open))
        (api.read node.fs_handle buf offset)

  unfoldable pub write : VfsNode → List ℕ → ℕ → Vfs F → Vfs F × Result ℕ WriteError
  unfolding with_fs
  write node buf offset =
      with_fs node (err (write_fs_error file_system_not_open)) (api.write node.fs_handle buf offset)

  unfoldable pub stat : VfsNode → Stat → Vfs F → Vfs F × (Stat × Result (Unit {0}) StatError)
  unfolding with_fs
  stat node st =
      with_fs node (st, err (stat_fs_error file_system_not_open)) (api.stat node.fs_handle st)

  unfoldable pub mmap : VfsNode → Vfs F → Vfs F × Result MmapRegion MmapError
  unfolding with_fs
  mmap node = with_fs node (err (mmap_fs_error file_system_not_open)) (api.mmap node.fs_handle)

  unfoldable pub ioctl : VfsNode → ℕ → List ℕ → Vfs F → Vfs F × (List ℕ × Result ℕ IoctlError)
  unfolding with_fs
  ioctl node request arg =
      with_fs node (arg, err (ioctl_fs_error file_system_not_open))
        (api.ioctl node.fs_handle request arg)

  unfoldable pub fsync : VfsNode → Vfs F → Vfs F × Result (Unit {0}) FsyncError
  unfolding with_fs
  fsync node = with_fs node (err (fsync_fs_error file_system_not_open)) (api.fsync node.fs_handle)

  -- The drop of the last reference to a node closes its handle.
  unfoldable pub drop_node : VfsNode → Vfs F → Vfs F
  unfolding upgrade store
  drop_node node v = elim (upgrade node.fs v.file_systems) [
    | none ↦ v
    | some fs ↦ record v {
      file_systems = store node.fs (api.close node.fs_handle fs).0 v.file_systems;
    }
  ]
