-- ===== src/Vfs/Tests.antt =====
-- Runs of kernel/vfs on concrete paths and on a file system that counts the calls of `open`.
use muffin.Base.{ℕ, suc, ◌≡◌, refl, none, some, [], ◌∷◌, ok, err}
use muffin.Vfs.Path.{OwnedPath, root, ends_with_separator, parent, push}
use muffin.Vfs.Mounts.{
  read_failed, write_failed, stat_fs_error, invalid_handle, mmap_not_supported, ioctl_not_supported,
  fsync_failed, FileSystem, Vfs, opened, found, get, new, mount, unmount, find_mount, open_node,
}
use muffin.Vfs.Opening.{Asks, open_node-mount}
use muffin.Vfs.Arcs.{IsValid}
use muffin.Vfs.Steps.{mounts, Steps, done, next}
use muffin.Vfs.Unmounting.{AllFail, Steps-IsValid, unmount-AllFail}

-- `/a`, `/a/b` and `/é`.
abbrev dir : OwnedPath
dir = 47 ∷ 97 ∷ []

abbrev file : OwnedPath
file = 47 ∷ 97 ∷ 47 ∷ 98 ∷ []

abbrev accent : OwnedPath
accent = 47 ∷ 233 ∷ []

-- `parent` panics on `/é`.
parent_panics : parent accent ≡ none
unfolding parent
parent_panics = refl

abbrev counting : FileSystem ℕ
counting = record {
  open_file = λ p n. (suc n, ok n);
  close = λ h n. (n, ok tt);
  read = λ h buf offset n. (n, (buf, err read_failed));
  write = λ h buf offset n. (n, err write_failed);
  stat = λ h st n. (n, (st, err (stat_fs_error invalid_handle)));
  mmap = λ h n. (n, err mmap_not_supported);
  ioctl = λ h request arg n. (n, (arg, err ioctl_not_supported));
  fsync = λ h n. (n, err fsync_failed);
}

abbrev mounted : Vfs ℕ
mounted = record { file_systems = (dir, record { arc = 0; file_system = 5 }) ∷ []; next_arc = 1 }

abbrev unmounted : Vfs ℕ
unmounted = record { file_systems = []; next_arc = 1 }

abbrev again : Vfs ℕ
again = record { file_systems = (dir, record { arc = 1; file_system = 8 }) ∷ []; next_arc = 2 }

mount_runs : mount dir 5 new ≡ ok mounted
unfolding mount new
mount_runs = refl

unmount_runs : unmount dir mounted ≡ ok unmounted
unfolding unmount
unmount_runs = refl

remount_runs : mount dir 8 unmounted ≡ ok again
unfolding mount
remount_runs = refl

file_bare : get (push dir (98 ∷ [])) mounted.file_systems ≡ none
unfolding get push
file_bare = refl

dir_there : get dir mounted.file_systems ≡ some (record { arc = 0; file_system = 5 })
unfolding get
dir_there = refl

-- An open of `/a/b` hands `/b` to the file system at `/a`.
open_runs :
    open_node counting file mounted
    ≡ opened
        (record { file_systems = (dir, record { arc = 0; file_system = 6 }) ∷ []; next_arc = 1 })
        (ok (record { path = file; fs_handle = 5; fs = 0 }))
unfolding open_node
open_runs = refl

-- With `/` mounted alone, it is what `/a/b` is found under.
abbrev rooted : Vfs ℕ
rooted = record { file_systems = (root, record { arc = 0; file_system = 5 }) ∷ []; next_arc = 1 }

found_at_root : find_mount file rooted ≡ found (some (root, record { arc = 0; file_system = 5 }))
unfolding find_mount
found_at_root = refl

open_node-mount_example :
    Asks counting dir
      (record { arc = 0; file_system = 5 })
      (47 ∷ 98 ∷ [])
      (push dir (98 ∷ []))
      (open_node counting (push dir (98 ∷ [])) mounted)
unfolding ends_with_separator new
open_node-mount_example =
    open_node-mount counting 47 (97 ∷ []) 98 [] 5 new mounted refl refl refl refl mount_runs
      file_bare

mounted-Steps : Steps counting new mounted
mounted-Steps = next (mounts dir 5 mount_runs) done

mounted-IsValid : IsValid mounted
mounted-IsValid = Steps-IsValid counting mounted-Steps

-- The node of the first file system fails when another is mounted at its place.
unmount-AllFail_example : AllFail counting (record { path = file; fs_handle = 5; fs = 0 }) again
unmount-AllFail_example =
    unmount-AllFail counting dir (record { arc = 0; file_system = 5 })
      (record { path = file; fs_handle = 5; fs = 0 }) mounted unmounted again mounted-IsValid
      dir_there refl unmount_runs (next (mounts dir 8 remount_runs) done)
