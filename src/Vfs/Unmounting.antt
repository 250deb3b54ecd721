-- ===== src/Vfs/Unmounting.antt =====
-- kernel/vfs/src/vfs/mod.rs, node.rs: the states that the calls lead to, and a file system after `unmount`.
use muffin.Base.{ℕ, ◌≡◌, refl, ap, ◌∙◌, none, some, List, ok, err, arith}
use mathlib.Core.Path.{subst}
use muffin.Vfs.Path.{OwnedPath}
use muffin.Vfs.Mounts.{
  file_system_not_open, read_fs_error, write_fs_error, stat_fs_error, ioctl_fs_error, mmap_fs_error,
  fsync_fs_error, Stat, FileSystem, Mounted, Vfs, VfsNode, get, remove, new, unmount,
}
use muffin.Vfs.Nodes.{upgrade, with_fs, read, write, stat, mmap, ioctl, fsync, drop_node}
use muffin.Vfs.Arcs.{AreMounts, IsValid, upgrade-remove, get-arc}
use muffin.Vfs.Steps.{Steps, Keeps-Steps}

module _ {F : Type 0} (api : FileSystem F) where
  -- The calls of `Vfs` and of its nodes, from a new `Vfs` on, lead only to states where no two mount points and
  -- no two arcs are the same, and each arc was given out before.
  pub Steps-IsValid : {v : Vfs F} → Steps api new v → IsValid v
  unfolding new AreMounts
  Steps-IsValid {v = v} steps = (Keeps-Steps api 0 steps).0 tt

  with_fs-gone :
      {R : Type 0} (node : VfsNode) (gone : R) (call : F → F × R) (w : Vfs F)
      → upgrade node.fs w.file_systems ≡ none
      → with_fs node gone call w ≡ (w, gone)
  unfolding with_fs
  with_fs-gone node gone call w e = rw (with_fs, e) refl

  -- All operations of a node on `w` answer `FileSystemNotOpen` and change nothing.
  pub AllFail : VfsNode → Vfs F → Type 0
  AllFail node w =
      ((buf : List ℕ) (offset : ℕ)
        → read api node buf offset w ≡ (w, (buf, err (read_fs_error file_system_not_open))))
      × ((buf : List ℕ) (offset : ℕ)
          → write api node buf offset w ≡ (w, err (write_fs_error file_system_not_open)))
      × ((st : Stat) → stat api node st w ≡ (w, (st, err (stat_fs_error file_system_not_open))))
      × (mmap api node w ≡ (w, err (mmap_fs_error file_system_not_open)))
      × ((request : ℕ) (arg : List ℕ)
          → ioctl api node request arg w ≡ (w, (arg, err (ioctl_fs_error file_system_not_open))))
      × (fsync api node w ≡ (w, err (fsync_fs_error file_system_not_open)))
      × (drop_node api node w ≡ w)

  gone-AllFail :
      (node : VfsNode) (w : Vfs F) → upgrade node.fs w.file_systems ≡ none → AllFail node w
  unfolding AllFail read write stat mmap ioctl fsync drop_node
  gone-AllFail node w e = (
    (λ buf offset.
        with_fs-gone node (buf, err (read_fs_error file_system_not_open))
          (api.read node.fs_handle buf offset) w e),
    (λ buf offset.
        with_fs-gone node (err (write_fs_error file_system_not_open))
          (api.write node.fs_handle buf offset) w e),
    (λ st.
        with_fs-gone node (st, err (stat_fs_error file_system_not_open))
          (api.stat node.fs_handle st) w e),
    with_fs-gone node (err (mmap_fs_error file_system_not_open)) (api.mmap node.fs_handle) w e,
    (λ request arg.
        with_fs-gone node (arg, err (ioctl_fs_error file_system_not_open))
          (api.ioctl node.fs_handle request arg) w e),
    with_fs-gone node (err (fsync_fs_error file_system_not_open)) (api.fsync node.fs_handle) w e,
    rw (drop_node, e) refl,
  )

  unmount-upgrade :
      (p : OwnedPath) (m : Mounted F) (v v' : Vfs F)
      → IsValid v
      → get p v.file_systems ≡ some m
      → unmount p v ≡ ok v'
      → (v.next_arc ≡ v'.next_arc) × (upgrade m.arc v'.file_systems ≡ none)
  unfolding unmount
  unmount-upgrade p m v v' valid there e =
      let w : Vfs F = record v { file_systems = remove p v.file_systems } in
      let here : w ≡ v' = ground (arith, there, e) in
      subst (λ (x : Vfs F). (v.next_arc ≡ x.next_arc) × (upgrade m.arc x.file_systems ≡ none)) here
        (refl, upgrade-remove v.next_arc p m v.file_systems valid there)

  -- After the file system mounted at `p` is unmounted from a valid state, in every state that calls lead to
  -- from there, mounts at the same place included, each operation of a node opened on that file system
  -- answers `FileSystemNotOpen` and changes nothing, and the drop of the node changes nothing.
  pub unmount-AllFail :
      (p : OwnedPath) (m : Mounted F) (node : VfsNode) (v v' w : Vfs F)
      → IsValid v
      → get p v.file_systems ≡ some m
      → node.fs ≡ m.arc
      → unmount p v ≡ ok v'
      → Steps api v' w
      → AllFail node w
  unmount-AllFail p m node v v' w valid there own e steps =
      let (same, lost) = unmount-upgrade p m v v' valid there e in
      let below = get-arc v.next_arc p m v.file_systems valid there in
      let (below', gone) = (Keeps-Steps api m.arc steps).1 (omega (arith, below, same)) lost in
      gone-AllFail node w (ap (λ i. upgrade i w.file_systems) own ∙ gone)
