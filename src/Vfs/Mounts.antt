-- ===== src/Vfs/Mounts.antt =====
-- kernel/vfs/src/vfs/mod.rs, error.rs and fs.rs: the mounted file systems. An `Arc` of a file system is its
-- number and the state behind it; the map of mount points is a list of pairs, newest first.
use muffin.Base.{
  ℕ, zero, suc, ◌+◌, Option, none, some, List, [], ◌∷◌, length, ◌==◌, if◌then◌else◌, Result, ok,
  err,
}
use muffin.Vfs.Path.{OwnedPath, root, path_eq, parent}

pub data FsError : Type 0 where
  file_system_not_open invalid_handle : FsError

pub data OpenError : Type 0 where
  not_found : OpenError

pub data CloseError : Type 0 where
  not_open : CloseError

pub data ReadError : Type 0 where
  read_fs_error : FsError → ReadError
  end_of_file read_failed not_readable : ReadError

pub data WriteError : Type 0 where
  write_fs_error : FsError → WriteError
  write_failed not_writable : WriteError

pub data StatError : Type 0 where
  stat_fs_error : FsError → StatError

pub data IoctlError : Type 0 where
  ioctl_fs_error : FsError → IoctlError
  ioctl_not_supported invalid_argument : IoctlError

pub data MmapError : Type 0 where
  mmap_fs_error : FsError → MmapError
  mmap_not_supported : MmapError

pub data FsyncError : Type 0 where
  fsync_fs_error : FsError → FsyncError
  fsync_failed : FsyncError

pub record MmapRegion : Type 0 where
  pub ptr : ℕ
  pub len : ℕ

pub record Stat : Type 0 where
  pub size : ℕ

-- The trait `FileSystem`, for a file system whose state is in `F`. A handle is a number, and what a call
-- writes through a reference is a part of its answer.
pub record FileSystem (F : Type 0) : Type 0 where
  pub open_file : OwnedPath → F → F × Result ℕ OpenError
  pub close : ℕ → F → F × Result (Unit {0}) CloseError
  pub read : ℕ → List ℕ → ℕ → F → F × (List ℕ × Result ℕ ReadError)
  pub write : ℕ → List ℕ → ℕ → F → F × Result ℕ WriteError
  pub stat : ℕ → Stat → F → F × (Stat × Result (Unit {0}) StatError)
  pub mmap : ℕ → F → F × Result MmapRegion MmapError
  pub ioctl : ℕ → ℕ → List ℕ → F → F × (List ℕ × Result ℕ IoctlError)
  pub fsync : ℕ → F → F × Result (Unit {0}) FsyncError

pub record Mounted (F : Type 0) : Type 0 where
  pub arc : ℕ
  pub file_system : F

-- `Vfs`, with the number of the next `Arc`.
pub record Vfs (F : Type 0) : Type 0 where
  pub file_systems : List (OwnedPath × Mounted F)
  pub next_arc : ℕ

pub data MountError : Type 0 where
  already_mounted : MountError

pub data UnmountError : Type 0 where
  not_mounted : UnmountError

-- `VfsNode` and its `Inner`. The weak reference to the file system is the number of the `Arc`.
pub record VfsNode : Type 0 where
  pub path : OwnedPath
  pub fs_handle : ℕ
  pub fs : ℕ

-- The outcome of `find_mount`.
pub data Search (F : Type 0) : Type 0 where
  search_panicked search_out_of_fuel : Search F
  found : Option (OwnedPath × Mounted F) → Search F

-- The outcome of `open`.
pub data Opening (F : Type 0) : Type 0 where
  open_panicked open_out_of_fuel : Opening F
  opened : Vfs F → Result VfsNode OpenError → Opening F

-- `BTreeMap::get` and `BTreeMap::remove`.
unfoldable pub get : {F : Type 0} → OwnedPath → List (OwnedPath × Mounted F) → Option (Mounted F)
get p [] = none
get p ((q, m) ∷ l) = if path_eq q p then some m else get p l

unfoldable pub remove :
    {F : Type 0} → OwnedPath → List (OwnedPath × Mounted F) → List (OwnedPath × Mounted F)
remove p [] = []
remove p ((q, m) ∷ l) = let rest = remove p l in if path_eq q p then l else (q, m) ∷ rest

-- `str::strip_prefix`.
unfoldable pub strip_prefix : OwnedPath → OwnedPath → Option OwnedPath
strip_prefix [] p = some p
strip_prefix (c ∷ m) [] = none
strip_prefix (c ∷ m) (d ∷ p) = if c == d then strip_prefix m p else none

-- `relative_path`, of a path below a mount.
unfoldable pub relative_path : OwnedPath → OwnedPath → Option OwnedPath
unfolding strip_prefix
relative_path mount_path p = if path_eq mount_path root then some p else strip_prefix mount_path p

module _ {F : Type 0} where
  -- `Vfs::new`.
  unfoldable pub new : Vfs F
  new = record { file_systems = []; next_arc = 0 }

  -- `Vfs::mount`.
  unfoldable pub mount : OwnedPath → F → Vfs F → Result (Vfs F) MountError
  unfolding get
  mount p fs v = elim (get p v.file_systems) [
    | some m ↦ err already_mounted
    | none ↦ ok (record {
      file_systems = (p, record { arc = v.next_arc; file_system = fs }) ∷ v.file_systems;
      next_arc = v.next_arc + 1;
    })
  ]

  -- `Vfs::unmount`.
  unfoldable pub unmount : OwnedPath → Vfs F → Result (Vfs F) UnmountError
  unfolding get remove
  unmount p v = elim (get p v.file_systems) [
    | none ↦ err not_mounted
    | some m ↦ ok (record v { file_systems = remove p v.file_systems })
  ]

  -- The loop of `find_mount`.
  unfoldable pub climb : ℕ → OwnedPath → Vfs F → Search F
  unfolding get parent
  climb zero current v = search_out_of_fuel
  climb (suc fuel) current v = elim (parent current) [
    | none ↦ search_panicked
    | some none ↦ found (elim (get root v.file_systems) [ none ↦ none | some m ↦ some (root, m) ])
    | some (some p) ↦ elim (get p v.file_systems) [
      | some m ↦ found (some (p, m))
      | none ↦ climb fuel p v
    ]
  ]

  -- `Vfs::find_mount`. The loop has fuel for each character of the path.
  unfoldable pub find_mount : OwnedPath → Vfs F → Search F
  unfolding get climb
  find_mount p v = elim (get p v.file_systems) [
    | some m ↦ found (some (p, m))
    | none ↦ climb (length p) p v
  ]

  -- The state of the file system behind an `Arc`.
  unfoldable pub store : ℕ → F → List (OwnedPath × Mounted F) → List (OwnedPath × Mounted F)
  store i fs [] = []
  store i fs ((q, m) ∷ l) =
      (q, if m.arc == i then record m { file_system = fs } else m) ∷ store i fs l

  -- The call of the file system's `open`, and the node.
  unfoldable pub open_in : FileSystem F → OwnedPath → OwnedPath → Mounted F → Vfs F → Opening F
  unfolding store
  open_in api relative p m v =
      let (fs, r) = api.open_file relative m.file_system in
      let v' = record v { file_systems = store m.arc fs v.file_systems } in
      elim r [
        | err e ↦ opened v' (err e)
        | ok h ↦ opened v' (ok (record { path = p; fs_handle = h; fs = m.arc }))
      ]

  -- `Vfs::open`.
  unfoldable pub open_node : FileSystem F → OwnedPath → Vfs F → Opening F
  unfolding find_mount relative_path open_in
  open_node api p v = elim (find_mount p v) [
    | search_panicked ↦ open_panicked
    | search_out_of_fuel ↦ open_out_of_fuel
    | found none ↦ opened v (err not_found)
    | found (some (m, fs)) ↦ elim (relative_path m p) [
      | none ↦ open_panicked
      | some relative ↦ open_in api relative p fs v
    ]
  ]
