-- ===== src/DevFs/Tests.antt =====
-- Runs of kernel/devfs on concrete trees.
use muffin.Base.{ℕ, ◌≡◌, ◌≢◌, refl, none, some, List, [], ◌∷◌, ok, err, arith}
use muffin.Vfs.Path.{OwnedPath, root}
use muffin.Vfs.Mounts.{
  not_open, invalid_handle, read_fs_error, write_fs_error, stat_fs_error, mmap_fs_error,
  ioctl_fs_error, fsync_fs_error,
}
use muffin.DevFs.Nodes.{
  DevNode, directory, device, DevDirectoryNode, new_directory, with_child, null_file, zero_file,
  lookup_child,
}
use muffin.DevFs.Files.{
  walk_panicked, walked, DevFs, already_exists, register_file, open_device, find_file, close_device,
  read_device, write_device, stat_device, mmap_device, ioctl_device, fsync_device,
}
use muffin.DevFs.Handles.{AreBelow}
use muffin.DevFs.Registering.{OpensTwice, register_file-open}
use muffin.DevFs.Closing.{Reach, starts, opens, close_device-Closes}

-- `/n`, in a tree with that file, and after it was opened.
abbrev null_path : OwnedPath
null_path = 47 ∷ 110 ∷ []

abbrev tree : DevNode (Unit {0})
tree = directory root (with_child (device (110 ∷ []) (ok tt)) new_directory)

abbrev closed : DevFs (Unit {0})
closed = record { root_node = tree; open_files = []; fs_counter = 4 }

abbrev opened : DevFs (Unit {0})
opened = record { root_node = tree; open_files = (4, tt) ∷ []; fs_counter = 5 }

open_runs : open_device null_path closed ≡ walked (opened, ok 4)
unfolding open_device
open_runs = refl

-- An open of the root directory panics.
open_panics : open_device root closed ≡ walk_panicked
unfolding open_device
open_panics = refl

zero_runs : (read_device zero_file 4 (7 ∷ 8 ∷ []) 0 opened).1 ≡ (0 ∷ 0 ∷ [], ok 2)
unfolding read_device
zero_runs = refl

file_there : find_file 4 opened.open_files ≡ some tt
unfolding find_file
file_there = refl

abbrev bare : DevDirectoryNode (Unit {0})
bare = new_directory

name_bare : lookup_child (110 ∷ []) bare ≡ none
unfolding lookup_child
name_bare = refl

abbrev no_files : List (ℕ × Unit {0})
no_files = []

none_open : AreBelow 4 no_files
unfolding AreBelow
none_open = tt

register_file-open_example :
    (d : DevFs (Unit {0})) × (register_file null_path
        (ok tt)
        (record { root_node = directory root bare; open_files = []; fs_counter = 4 })
      ≡ walked (ok d))
    × (d.open_files ≡ [])
    × (d.fs_counter ≡ 4)
    × OpensTwice null_path tt 4 d
    × (register_file null_path (ok tt) d ≡ walked (err already_exists))
register_file-open_example =
    register_file-open 110 [] root tt (ok tt) bare [] 4 refl refl name_bare none_open (omega arith)

opened-Reach : Reach null_file opened
opened-Reach = opens null_path (ok 4) closed (starts tree 4) open_runs

close_device-Closes_example :
    (d' : DevFs (Unit {0})) × (close_device 4 opened ≡ (d', ok tt))
    × ((k : ℕ) → 4 ≢ k → find_file k d'.open_files ≡ find_file k opened.open_files)
    × (read_device null_file 4 (1 ∷ []) 0 d' ≡ (d', (1 ∷ [], err (read_fs_error invalid_handle))))
    × (write_device null_file 4 (1 ∷ []) 0 d' ≡ (d', err (write_fs_error invalid_handle)))
    × (stat_device null_file 4 (record { size = 7 }) d'
        ≡ (d', (record { size = 7 }, err (stat_fs_error invalid_handle))))
    × (mmap_device null_file 4 d' ≡ (d', err (mmap_fs_error invalid_handle)))
    × (ioctl_device null_file 4 3 (2 ∷ []) d' ≡ (d', (2 ∷ [], err (ioctl_fs_error invalid_handle))))
    × (fsync_device null_file 4 d' ≡ (d', err (fsync_fs_error invalid_handle)))
    × (close_device 4 d' ≡ (d', err not_open))
close_device-Closes_example =
    close_device-Closes null_file 4 tt opened (1 ∷ []) (2 ∷ []) 0 3 (record { size = 7 })
      opened-Reach file_there
