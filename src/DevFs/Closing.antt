-- ===== src/DevFs/Closing.antt =====
-- kernel/devfs/src/fs.rs: the states that the calls on open files lead to, and a handle after `close`.
use muffin.Base.{
  ℕ, suc, ◌≡◌, ◌≢◌, refl, ap, sym, ◌∙◌, Option, none, some, List, [], length, Result, ok, err,
  arith, Option-cases, inl, inr,
}
use mathlib.Core.Path.{subst}
use muffin.Vfs.Path.{OwnedPath, root, parent, file_name}
use muffin.Vfs.Mounts.{
  OpenError, not_open, invalid_handle, read_fs_error, write_fs_error, stat_fs_error, ioctl_fs_error,
  mmap_fs_error, fsync_fs_error, Stat,
}
use muffin.DevFs.Nodes.{DevFile, DevNode, directory, device}
use muffin.DevFs.Files.{
  ResolveError, RegisterError, Walk, walk_panicked, walk_out_of_fuel, walked, DevFs, with_root,
  register_from, register_file, resolve_node, insert_file, open_device, find_file, remove_file,
  close_device, on_file, read_device, write_device, stat_device, mmap_device, ioctl_device,
  fsync_device,
}
use muffin.DevFs.Handles.{
  AreHandles, remove-find, remove-other, AreHandles-remove, AreHandles-store, IsUnused-removed,
}

-- The states that calls lead to from one without open files.
pub data Reach {S : Type 0} (dev : DevFile S) : DevFs S → Type 0 where
  starts :
      (root_node : DevNode S) (n : ℕ)
      → Reach dev (record { root_node = root_node; open_files = []; fs_counter = n })
  registers :
      (p : OwnedPath) (f : Result S OpenError) (d : DevFs S) {d' : DevFs S}
      → Reach dev d
      → register_file p f d ≡ walked (ok d')
      → Reach dev d'
  opens :
      (p : OwnedPath) (r : Result ℕ OpenError) (d : DevFs S) {d' : DevFs S}
      → Reach dev d
      → open_device p d ≡ walked (d', r)
      → Reach dev d'
  closes : (h : ℕ) (d : DevFs S) → Reach dev d → Reach dev (close_device h d).0
  reads :
      (h : ℕ) (buf : List ℕ) (offset : ℕ) (d : DevFs S)
      → Reach dev d
      → Reach dev (read_device dev h buf offset d).0
  writes :
      (h : ℕ) (buf : List ℕ) (offset : ℕ) (d : DevFs S)
      → Reach dev d
      → Reach dev (write_device dev h buf offset d).0
  stats : (h : ℕ) (st : Stat) (d : DevFs S) → Reach dev d → Reach dev (stat_device dev h st d).0
  mmaps : (h : ℕ) (d : DevFs S) → Reach dev d → Reach dev (mmap_device dev h d).0
  ioctls :
      (h request : ℕ) (arg : List ℕ) (d : DevFs S)
      → Reach dev d
      → Reach dev (ioctl_device dev h request arg d).0
  fsyncs : (h : ℕ) (d : DevFs S) → Reach dev d → Reach dev (fsync_device dev h d).0

module _ {S : Type 0} where
  abbrev IsValid : DevFs S → Type 0
  IsValid d = AreHandles d.open_files

  on_file-IsValid :
      {R : Type 0} (h : ℕ) (gone : R) (call : S → S × R) (d : DevFs S)
      → IsValid d
      → IsValid (on_file h gone call d).0
  unfolding on_file
  on_file-IsValid h gone call d v = elim (Option-cases (find_file h d.open_files)) [
    | inl lost ↦ rw (on_file, lost) v
    | inr (s, here) ↦ rw (on_file, here) (AreHandles-store h (call s).0 d.open_files v)
  ]

  close_device-IsValid : (h : ℕ) (d : DevFs S) → IsValid d → IsValid (close_device h d).0
  unfolding close_device
  close_device-IsValid h d v = elim (Option-cases (find_file h d.open_files)) [
    | inl lost ↦ rw (close_device, lost) v
    | inr (s, here) ↦ rw (close_device, here) (AreHandles-remove h d.open_files v)
  ]

  insert_file-IsValid : (s : S) (d : DevFs S) → IsValid d → IsValid (insert_file s d).0
  unfolding insert_file AreHandles
  insert_file-IsValid s d v =
      (IsUnused-removed d.fs_counter d.open_files v, AreHandles-remove d.fs_counter d.open_files v)

  open_device-IsValid :
      (p : OwnedPath) (r : Result ℕ OpenError) (d d' : DevFs S)
      (w : Walk (Result (DevNode S) ResolveError))
      → resolve_node p d ≡ w
      → open_device p d ≡ walked (d', r)
      → IsValid d
      → IsValid d'
  unfolding open_device
  open_device-IsValid p r d d' walk_panicked run e v = ground (arith, run, e)
  open_device-IsValid p r d d' walk_out_of_fuel run e v = ground (arith, run, e)
  open_device-IsValid p r d d' (walked (err f)) run e v =
      let here : d ≡ d' = ground (arith, run, e) in subst IsValid here v
  open_device-IsValid p r d d' (walked (ok (directory own l))) run e v = ground (arith, run, e)
  open_device-IsValid p r d d' (walked (ok (device own (err f)))) run e v =
      let here : d ≡ d' = ground (arith, run, e) in subst IsValid here v
  open_device-IsValid p r d d' (walked (ok (device own (ok s)))) run e v =
      let here : (insert_file s d).0 ≡ d' = ground (arith, run, e) in
      subst IsValid here (insert_file-IsValid s d v)

  with_root-files :
      (d d' : DevFs S) (w : Walk (Result (DevNode S) RegisterError))
      → with_root d w ≡ walked (ok d')
      → (d.open_files ≡ d'.open_files) × (d.fs_counter ≡ d'.fs_counter)
  unfolding with_root
  with_root-files d d' walk_panicked e = ground (arith, e)
  with_root-files d d' walk_out_of_fuel e = ground (arith, e)
  with_root-files d d' (walked (err f)) e = ground (arith, e)
  with_root-files d d' (walked (ok n)) e =
      let here : record d { root_node = n } ≡ d' = ground (arith, e) in
      (ap (λ (x : DevFs S). x.open_files) here, ap (λ (x : DevFs S). x.fs_counter) here)

  -- `register_file` changes the tree alone.
  register_file-files :
      (p : OwnedPath) (f : Result S OpenError) (d d' : DevFs S)
      (above name : Option (Option OwnedPath))
      → parent p ≡ above
      → file_name p ≡ name
      → register_file p f d ≡ walked (ok d')
      → (d.open_files ≡ d'.open_files) × (d.fs_counter ≡ d'.fs_counter)
  unfolding register_file
  register_file-files p f d d' none name a b e = ground (arith, a, e)
  register_file-files p f d d' (some above) none a b e = ground (arith, a, b, e)
  register_file-files p f d d' (some above) (some none) a b e = ground (arith, a, b, e)
  register_file-files p f d d' (some none) (some (some name)) a b e =
      with_root-files d d' (register_from 2 root name f d.root_node)
        (sym (rw (register_file, a, b) refl) ∙ e)
  register_file-files p f d d' (some (some q)) (some (some name)) a b e =
      with_root-files d d' (register_from (suc (length q)) q name f d.root_node)
        (sym (rw (register_file, a, b) refl) ∙ e)

module _ {S : Type 0} (dev : DevFile S) where
  Reach-IsValid : {d : DevFs S} → Reach dev d → IsValid d
  unfolding AreHandles read_device write_device stat_device mmap_device ioctl_device fsync_device
  Reach-IsValid (starts root_node n) = tt
  Reach-IsValid (registers p f d {d' = d'} reach e) =
      let (same_files, same_counter) =
        register_file-files p f d d' (parent p) (file_name p) refl refl e in
      rw (← same_files) (Reach-IsValid reach)
  Reach-IsValid (opens p r d {d' = d'} reach e) =
      open_device-IsValid p r d d' (resolve_node p d) refl e (Reach-IsValid reach)
  Reach-IsValid (closes h d reach) = close_device-IsValid h d (Reach-IsValid reach)
  Reach-IsValid (reads h buf offset d reach) =
      on_file-IsValid h (buf, err (read_fs_error invalid_handle)) (dev.file_read buf offset) d
        (Reach-IsValid reach)
  Reach-IsValid (writes h buf offset d reach) =
      on_file-IsValid h (err (write_fs_error invalid_handle)) (dev.file_write buf offset) d
        (Reach-IsValid reach)
  Reach-IsValid (stats h st d reach) =
      on_file-IsValid h (st, err (stat_fs_error invalid_handle)) (dev.file_stat st) d
        (Reach-IsValid reach)
  Reach-IsValid (mmaps h d reach) =
      on_file-IsValid h (err (mmap_fs_error invalid_handle)) dev.file_mmap d (Reach-IsValid reach)
  Reach-IsValid (ioctls h request arg d reach) =
      on_file-IsValid h (arg, err (ioctl_fs_error invalid_handle)) (dev.file_ioctl request arg) d
        (Reach-IsValid reach)
  Reach-IsValid (fsyncs h d reach) =
      on_file-IsValid h (err (fsync_fs_error invalid_handle)) dev.file_fsync d (Reach-IsValid reach)

  -- In every state that calls lead to from one without open files, `close` of the handle of an open file
  -- succeeds and keeps every other open file as it was. After it, `read`, `write`, `stat`, `mmap`, `ioctl`,
  -- `fsync` and a second `close` of the handle fail and change nothing, neither the state nor what the caller
  -- handed over.
  pub close_device-Closes :
      (h : ℕ) (s : S) (d : DevFs S) (buf arg : List ℕ) (offset request : ℕ) (st : Stat)
      → Reach dev d
      → find_file h d.open_files ≡ some s
      → (d' : DevFs S) × (close_device h d ≡ (d', ok tt))
        × ((k : ℕ) → h ≢ k → find_file k d'.open_files ≡ find_file k d.open_files)
        × (read_device dev h buf offset d' ≡ (d', (buf, err (read_fs_error invalid_handle))))
        × (write_device dev h buf offset d' ≡ (d', err (write_fs_error invalid_handle)))
        × (stat_device dev h st d' ≡ (d', (st, err (stat_fs_error invalid_handle))))
        × (mmap_device dev h d' ≡ (d', err (mmap_fs_error invalid_handle)))
        × (ioctl_device dev h request arg d' ≡ (d', (arg, err (ioctl_fs_error invalid_handle))))
        × (fsync_device dev h d' ≡ (d', err (fsync_fs_error invalid_handle)))
        × (close_device h d' ≡ (d', err not_open))
  unfolding close_device read_device write_device stat_device mmap_device ioctl_device fsync_device
      on_file
  close_device-Closes h s d buf arg offset request st reach here =
      let gone = remove-find h d.open_files (Reach-IsValid reach) in
      (
        record d { open_files = remove_file h d.open_files },
        rw (close_device, here) refl,
        (λ k apart. remove-other h k d.open_files apart),
        rw (read_device, on_file, gone) refl,
        rw (write_device, on_file, gone) refl,
        rw (stat_device, on_file, gone) refl,
        rw (mmap_device, on_file, gone) refl,
        rw (ioctl_device, on_file, gone) refl,
        rw (fsync_device, on_file, gone) refl,
        rw (close_device, gone) refl,
      )
