-- ===== src/DevFs/Files.antt =====
-- kernel/devfs/src/fs.rs, kernel/vfs/src/path/filenames.rs: the device file system. The static counter of
-- handles is a field of the state.
use muffin.Base.{
  ℕ, zero, suc, ◌+◌, ◌%◌, ◌^◌, Option, none, some, List, [], ◌∷◌, length, ◌==◌, if◌then◌else◌,
  Result, ok, err,
}
use muffin.Vfs.Path.{OwnedPath, root, is_separator, is_ascii, parent, file_name}
use muffin.Vfs.Mounts.{
  invalid_handle, OpenError, not_found, CloseError, not_open, ReadError, read_fs_error, WriteError,
  write_fs_error, StatError, stat_fs_error, IoctlError, ioctl_fs_error, MmapError, mmap_fs_error,
  FsyncError, fsync_fs_error, MmapRegion, Stat,
}
use muffin.DevFs.Nodes.{DevFile, DevNode, directory, device, lookup_child, push_child, set_child}

-- The name at the front of a path, and what is left behind the separator that ends it.
unfoldable pub front_name : OwnedPath → OwnedPath × OwnedPath
front_name [] = ([], [])
front_name (c ∷ p) =
    let (name, rest) = front_name p in if is_separator c then ([], p) else (c ∷ name, rest)

-- `Filenames::next` on what is left of a path. `none` is the panic of a slice inside a character.
unfoldable pub next_name : OwnedPath → Option (Option (OwnedPath × OwnedPath))
unfolding front_name
next_name [] = some none
next_name (c ∷ p) =
    if is_separator c
    then next_name p
    else (if is_ascii c then some (some (front_name (c ∷ p))) else none)

pub data ResolveError : Type 0 where
  parent_not_found parent_not_directory : ResolveError

pub data RegisterError : Type 0 where
  resolve_error : ResolveError → RegisterError
  already_exists : RegisterError

-- The outcome of a function that may panic, or run out of its fuel.
pub data Walk (A : Type 0) : Type 0 where
  walk_panicked walk_out_of_fuel : Walk A
  walked : A → Walk A

pub record DevFs (S : Type 0) : Type 0 where
  pub root_node : DevNode S
  pub open_files : List (ℕ × S)
  pub fs_counter : ℕ

-- The end of `register_file`, in the directory that was found.
unfoldable pub register_in :
    {S : Type 0} → OwnedPath → Result S OpenError → DevNode S → Result (DevNode S) RegisterError
unfolding lookup_child push_child
register_in name open_fn (device own f) = err (resolve_error parent_not_directory)
register_in name open_fn (directory own children) = elim (lookup_child name children) [
  | some n ↦ err already_exists
  | none ↦ ok (directory own (push_child (device name open_fn) children))
]

module _ {S : Type 0} where
  -- The loop of `resolve_node`.
  unfoldable pub resolve_from : ℕ → OwnedPath → DevNode S → Walk (Result (DevNode S) ResolveError)
  unfolding next_name lookup_child
  resolve_from zero p n = walk_out_of_fuel
  resolve_from (suc fuel) p n = elim (next_name p) [
    | none ↦ walk_panicked
    | some none ↦ walked (ok n)
    | some (some (name, rest)) ↦ elim n [
      | device own f ↦ walked (err parent_not_directory)
      | directory own children ↦ elim (lookup_child name children) [
        | none ↦ walked (err parent_not_found)
        | some child ↦ resolve_from fuel rest child
      ]
    ]
  ]

  -- `resolve_node`. The loop has fuel for each character of the path and one more.
  unfoldable pub resolve_node : OwnedPath → DevFs S → Walk (Result (DevNode S) ResolveError)
  unfolding resolve_from
  resolve_node p d = resolve_from (suc (length p)) p d.root_node

  -- The loop of `resolve_node_mut`, with what is done at its end, and the tree after that.
  unfoldable pub register_from :
      ℕ
      → OwnedPath
      → OwnedPath
      → Result S OpenError
      → DevNode S
      → Walk (Result (DevNode S) RegisterError)
  unfolding next_name lookup_child set_child register_in
  register_from zero p name open_fn n = walk_out_of_fuel
  register_from (suc fuel) p name open_fn n = elim (next_name p) [
    | none ↦ walk_panicked
    | some none ↦ walked (register_in name open_fn n)
    | some (some (next, rest)) ↦ elim n [
      | device own f ↦ walked (err (resolve_error parent_not_directory))
      | directory own children ↦ elim (lookup_child next children) [
        | none ↦ walked (err (resolve_error parent_not_found))
        | some child ↦ elim (register_from fuel rest name open_fn child) [
          | walk_panicked ↦ walk_panicked
          | walk_out_of_fuel ↦ walk_out_of_fuel
          | walked (err e) ↦ walked (err e)
          | walked (ok child') ↦ walked (ok (directory own (set_child next child' children)))
        ]
      ]
    ]
  ]

  -- The state with the tree that is left.
  unfoldable pub with_root :
      DevFs S → Walk (Result (DevNode S) RegisterError) → Walk (Result (DevFs S) RegisterError)
  with_root d walk_panicked = walk_panicked
  with_root d walk_out_of_fuel = walk_out_of_fuel
  with_root d (walked (err e)) = walked (err e)
  with_root d (walked (ok n)) = walked (ok (record d { root_node = n }))

  -- `register_file`.
  unfoldable pub register_file :
      OwnedPath → Result S OpenError → DevFs S → Walk (Result (DevFs S) RegisterError)
  unfolding register_from parent file_name with_root
  register_file p open_fn d = elim (parent p) [
    | none ↦ walk_panicked
    | some above ↦ elim (file_name p) [
      | none ↦ walk_panicked
      | some none ↦ walked (err (resolve_error parent_not_found))
      | some (some name) ↦
          let start : OwnedPath = elim above [ none ↦ root | some q ↦ q ] in
          with_root d (register_from (suc (length start)) start name open_fn d.root_node)
    ]
  ]

  -- `resolve_handle`.
  unfoldable pub find_file : ℕ → List (ℕ × S) → Option S
  find_file h [] = none
  find_file h ((k, s) ∷ l) = if k == h then some s else find_file h l

  unfoldable pub store_file : ℕ → S → List (ℕ × S) → List (ℕ × S)
  store_file h s' [] = []
  store_file h s' ((k, s) ∷ l) =
      let rest = store_file h s' l in if k == h then (k, s') ∷ l else (k, s) ∷ rest

  unfoldable pub remove_file : ℕ → List (ℕ × S) → List (ℕ × S)
  remove_file h [] = []
  remove_file h ((k, s) ∷ l) = let rest = remove_file h l in if k == h then l else (k, s) ∷ rest

  -- `new_fs_handle`, whose counter is an `AtomicU64`, and the insertion into the map of open files, which takes
  -- the place of what has the same handle.
  unfoldable pub insert_file : S → DevFs S → DevFs S × ℕ
  unfolding remove_file
  insert_file s d = (
    record d {
      open_files = (d.fs_counter, s) ∷ remove_file d.fs_counter d.open_files;
      fs_counter = (d.fs_counter + 1) % 2 ^ 64;
    },
    d.fs_counter,
  )

  -- `open`. It panics on a directory.
  unfoldable pub open_device : OwnedPath → DevFs S → Walk (DevFs S × Result ℕ OpenError)
  unfolding resolve_node insert_file
  open_device p d = elim (resolve_node p d) [
    | walk_panicked ↦ walk_panicked
    | walk_out_of_fuel ↦ walk_out_of_fuel
    | walked (err e) ↦ walked (d, err not_found)
    | walked (ok (directory own children)) ↦ walk_panicked
    | walked (ok (device own (err e))) ↦ walked (d, err e)
    | walked (ok (device own (ok s))) ↦ let (d', h) = insert_file s d in walked (d', ok h)
  ]

  -- `close`.
  unfoldable pub close_device : ℕ → DevFs S → DevFs S × Result (Unit {0}) CloseError
  unfolding find_file remove_file
  close_device h d = elim (find_file h d.open_files) [
    | none ↦ (d, err not_open)
    | some s ↦ (record d { open_files = remove_file h d.open_files }, ok tt)
  ]

  -- A call of the file behind a handle, with the answer where there is none.
  unfoldable pub on_file : {R : Type 0} → ℕ → R → (S → S × R) → DevFs S → DevFs S × R
  unfolding find_file store_file
  on_file h gone call d = elim (find_file h d.open_files) [
    | none ↦ (d, gone)
    | some s ↦ let (s', r) = call s in (record d { open_files = store_file h s' d.open_files }, r)
  ]

module _ {S : Type 0} (dev : DevFile S) where
  unfoldable pub read_device : ℕ → List ℕ → ℕ → DevFs S → DevFs S × (List ℕ × Result ℕ ReadError)
  unfolding on_file
  read_device h buf offset =
      on_file h (buf, err (read_fs_error invalid_handle)) (dev.file_read buf offset)

  unfoldable pub write_device : ℕ → List ℕ → ℕ → DevFs S → DevFs S × Result ℕ WriteError
  unfolding on_file
  write_device h buf offset =
      on_file h (err (write_fs_error invalid_handle)) (dev.file_write buf offset)

  unfoldable pub stat_device : ℕ → Stat → DevFs S → DevFs S × (Stat × Result (Unit {0}) StatError)
  unfolding on_file
  stat_device h st = on_file h (st, err (stat_fs_error invalid_handle)) (dev.file_stat st)

  unfoldable pub mmap_device : ℕ → DevFs S → DevFs S × Result MmapRegion MmapError
  unfolding on_file
  mmap_device h = on_file h (err (mmap_fs_error invalid_handle)) dev.file_mmap

  unfoldable pub ioctl_device : ℕ → ℕ → List ℕ → DevFs S → DevFs S × (List ℕ × Result ℕ IoctlError)
  unfolding on_file
  ioctl_device h request arg =
      on_file h (arg, err (ioctl_fs_error invalid_handle)) (dev.file_ioctl request arg)

  unfoldable pub fsync_device : ℕ → DevFs S → DevFs S × Result (Unit {0}) FsyncError
  unfolding on_file
  fsync_device h = on_file h (err (fsync_fs_error invalid_handle)) dev.file_fsync
