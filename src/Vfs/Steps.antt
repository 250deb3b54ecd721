-- ===== src/Vfs/Steps.antt =====
-- kernel/vfs/src/vfs/mod.rs, node.rs: the calls as steps, and what each keeps.
use muffin.Base.{
  ℕ, ◌+◌, ◌<◌, ◌≡◌, refl, sym, ◌∙◌, none, some, List, ◌∷◌, Result, ok, err, arith, Option-cases,
  inl, inr,
}
use mathlib.Core.Path.{subst}
use muffin.Vfs.Path.{OwnedPath}
use muffin.Vfs.Mounts.{
  file_system_not_open, OpenError, read_fs_error, write_fs_error, stat_fs_error, ioctl_fs_error,
  mmap_fs_error, fsync_fs_error, Stat, FileSystem, Mounted, Vfs, VfsNode, Search, search_panicked,
  search_out_of_fuel, found, opened, find_mount, relative_path, get, remove, store, mount, unmount,
  open_in, open_node,
}
use muffin.Vfs.Opening.{open_node-found}
use muffin.Vfs.Nodes.{upgrade, with_fs, read, write, stat, mmap, ioctl, fsync, drop_node}
use muffin.Vfs.Arcs.{
  IsFresh, AreMounts, IsValid, IsFresh-new, AreMounts-suc, AreMounts-remove, AreMounts-store,
  upgrade-store, upgrade-remove_other,
}

-- A call of `Vfs` or of a node.
pub data Step {F : Type 0} (api : FileSystem F) : Vfs F → Vfs F → Type 0 where
  mounts : (p : OwnedPath) (fs : F) {v v' : Vfs F} → mount p fs v ≡ ok v' → Step api v v'
  unmounts : (p : OwnedPath) {v v' : Vfs F} → unmount p v ≡ ok v' → Step api v v'
  opens :
      (p : OwnedPath) (r : Result VfsNode OpenError) {v v' : Vfs F}
      → open_node api p v ≡ opened v' r
      → Step api v v'
  reads :
      (node : VfsNode) (buf : List ℕ) (offset : ℕ) {v : Vfs F}
      → Step api v (read api node buf offset v).0
  writes :
      (node : VfsNode) (buf : List ℕ) (offset : ℕ) {v : Vfs F}
      → Step api v (write api node buf offset v).0
  stats : (node : VfsNode) (st : Stat) {v : Vfs F} → Step api v (stat api node st v).0
  mmaps : (node : VfsNode) {v : Vfs F} → Step api v (mmap api node v).0
  ioctls :
      (node : VfsNode) (request : ℕ) (arg : List ℕ) {v : Vfs F}
      → Step api v (ioctl api node request arg v).0
  fsyncs : (node : VfsNode) {v : Vfs F} → Step api v (fsync api node v).0
  drops : (node : VfsNode) {v : Vfs F} → Step api v (drop_node api node v)

pub data Steps {F : Type 0} (api : FileSystem F) : Vfs F → Vfs F → Type 0 where
  done : {v : Vfs F} → Steps api v v
  next : {u v w : Vfs F} → Step api u v → Steps api v w → Steps api u w

module _ {F : Type 0} where
  -- A state that a call may leave behind: valid, and without the arc `i` if that was gone.
  abbrev pub Keeps : ℕ → Vfs F → Vfs F → Type 0
  Keeps i v w =
      (IsValid v → IsValid w)
      × (i < v.next_arc
          → upgrade i v.file_systems ≡ none
          → (i < w.next_arc) × (upgrade i w.file_systems ≡ none))

  Keeps-refl : (i : ℕ) (v : Vfs F) → Keeps i v v
  Keeps-refl i v = ((λ h. h), (λ h e. (h, e)))

  Keeps-trans : (i : ℕ) (u v w : Vfs F) → Keeps i u v → Keeps i v w → Keeps i u w
  Keeps-trans i u v w (valid, lost) (valid', lost') = (
    (λ h. valid' (valid h)),
    (λ below gone. let (below', gone') = lost below gone in lost' below' gone'),
  )

  Keeps-store :
      (i j : ℕ) (fs : F) (v : Vfs F)
      → Keeps i v (record v { file_systems = store j fs v.file_systems })
  Keeps-store i j fs v = (
    AreMounts-store v.next_arc j fs v.file_systems,
    (λ h e. (h, upgrade-store i j fs v.file_systems e)),
  )

  Keeps-with_fs :
      (i : ℕ) {R : Type 0} (node : VfsNode) (gone : R) (call : F → F × R) (v : Vfs F)
      → Keeps i v (with_fs node gone call v).0
  unfolding with_fs
  Keeps-with_fs i node gone call v = elim (Option-cases (upgrade node.fs v.file_systems)) [
    | inl lost ↦ rw (with_fs, lost) (Keeps-refl i v)
    | inr (fs, here) ↦ rw (with_fs, here) (Keeps-store i node.fs (call fs).0 v)
  ]

  Keeps-mount :
      (i : ℕ) (p : OwnedPath) (fs : F) (v v' : Vfs F) → mount p fs v ≡ ok v' → Keeps i v v'
  unfolding mount IsFresh AreMounts upgrade
  Keeps-mount i p fs v v' e = elim (Option-cases (get p v.file_systems)) [
    | inr (m, here) ↦ ground (arith, here, e)
    | inl gone ↦
        let m : Mounted F = record { arc = v.next_arc; file_system = fs } in
        let w : Vfs F = record {
          file_systems = (p, m) ∷ v.file_systems;
          next_arc = v.next_arc + 1;
        } in
        let here : w ≡ v' = ground (arith, gone, e) in
        let kept : Keeps i v w = (
          (λ valid. (
            omega arith,
            IsFresh-new v.next_arc p v.file_systems valid gone,
            AreMounts-suc v.next_arc v.file_systems valid,
          )),
          (λ below lost. (omega (arith, below), ground (arith, below, lost))),
        ) in
        subst (Keeps i v) here kept
  ]

  Keeps-unmount : (i : ℕ) (p : OwnedPath) (v v' : Vfs F) → unmount p v ≡ ok v' → Keeps i v v'
  unfolding unmount
  Keeps-unmount i p v v' e = elim (Option-cases (get p v.file_systems)) [
    | inl gone ↦ ground (arith, gone, e)
    | inr (m, there) ↦
        let w : Vfs F = record v { file_systems = remove p v.file_systems } in
        let here : w ≡ v' = ground (arith, there, e) in
        let kept : Keeps i v w = (
          AreMounts-remove v.next_arc p v.file_systems,
          (λ below lost. (below, upgrade-remove_other i p v.file_systems lost)),
        ) in
        subst (Keeps i v) here kept
  ]

module _ {F : Type 0} (api : FileSystem F) where
  open_in-store :
      (rest p : OwnedPath) (m : Mounted F) (v v' : Vfs F) (r : Result VfsNode OpenError)
      (x : F × Result ℕ OpenError)
      → api.open_file rest m.file_system ≡ x
      → open_in api rest p m v ≡ opened v' r
      → record v { file_systems = store m.arc x.0 v.file_systems } ≡ v'
  unfolding open_in
  open_in-store rest p m v v' r (fs, ok h) here e = ground (arith, here, e)
  open_in-store rest p m v v' r (fs, err f) here e = ground (arith, here, e)

  Keeps-open_in :
      (i : ℕ) (rest p : OwnedPath) (m : Mounted F) (v v' : Vfs F) (r : Result VfsNode OpenError)
      → open_in api rest p m v ≡ opened v' r
      → Keeps i v v'
  Keeps-open_in i rest p m v v' r e =
      let x = api.open_file rest m.file_system in
      subst (Keeps i v) (open_in-store rest p m v v' r x refl e) (Keeps-store i m.arc x.0 v)

  Keeps-open_node :
      (i : ℕ) (p : OwnedPath) (v v' : Vfs F) (r : Result VfsNode OpenError) (s : Search F)
      → find_mount p v ≡ s
      → open_node api p v ≡ opened v' r
      → Keeps i v v'
  unfolding open_node
  Keeps-open_node i p v v' r search_panicked run e = ground (arith, run, e)
  Keeps-open_node i p v v' r search_out_of_fuel run e = ground (arith, run, e)
  Keeps-open_node i p v v' r (found none) run e =
      let here : v ≡ v' = ground (arith, run, e) in subst (Keeps i v) here (Keeps-refl i v)
  Keeps-open_node i p v v' r (found (some (m, fs))) run e =
      elim (Option-cases (relative_path m p)) [
        | inl gone ↦ ground (arith, run, gone, e)
        | inr (rest, here) ↦
            Keeps-open_in i rest p fs v v' r (sym (open_node-found api p m rest fs v run here) ∙ e)
      ]

  Keeps-drop : (i : ℕ) (node : VfsNode) (v : Vfs F) → Keeps i v (drop_node api node v)
  unfolding drop_node
  Keeps-drop i node v = elim (Option-cases (upgrade node.fs v.file_systems)) [
    | inl lost ↦ rw (drop_node, lost) (Keeps-refl i v)
    | inr (fs, here) ↦
        rw (drop_node, here) (Keeps-store i node.fs (api.close node.fs_handle fs).0 v)
  ]

  Keeps-Step : (i : ℕ) {v w : Vfs F} → Step api v w → Keeps i v w
  unfolding read write stat mmap ioctl fsync
  Keeps-Step i (mounts p fs {v = v} {v' = w} e) = Keeps-mount i p fs v w e
  Keeps-Step i (unmounts p {v = v} {v' = w} e) = Keeps-unmount i p v w e
  Keeps-Step i (opens p r {v = v} {v' = w} e) = Keeps-open_node i p v w r (find_mount p v) refl e
  Keeps-Step i (reads node buf offset {v = v}) =
      Keeps-with_fs i node (buf, err (read_fs_error file_system_not_open))
        (api.read node.fs_handle buf offset) v
  Keeps-Step i (writes node buf offset {v = v}) =
      Keeps-with_fs i node (err (write_fs_error file_system_not_open))
        (api.write node.fs_handle buf offset) v
  Keeps-Step i (stats node st {v = v}) =
      Keeps-with_fs i node (st, err (stat_fs_error file_system_not_open))
        (api.stat node.fs_handle st) v
  Keeps-Step i (mmaps node {v = v}) =
      Keeps-with_fs i node (err (mmap_fs_error file_system_not_open)) (api.mmap node.fs_handle) v
  Keeps-Step i (ioctls node request arg {v = v}) =
      Keeps-with_fs i node (arg, err (ioctl_fs_error file_system_not_open))
        (api.ioctl node.fs_handle request arg) v
  Keeps-Step i (fsyncs node {v = v}) =
      Keeps-with_fs i node (err (fsync_fs_error file_system_not_open)) (api.fsync node.fs_handle) v
  Keeps-Step i (drops node {v = v}) = Keeps-drop i node v

  pub Keeps-Steps : (i : ℕ) {v w : Vfs F} → Steps api v w → Keeps i v w
  Keeps-Steps i (done {v = v}) = Keeps-refl i v
  Keeps-Steps i (next {u = u} {v = v} {w = w} first rest) =
      Keeps-trans i u v w (Keeps-Step i first) (Keeps-Steps i rest)
