-- ===== src/DevFs/Nodes.antt =====
-- kernel/devfs/src/node.rs, file: the tree of device nodes, and the device files behind them.
use muffin.Base.{ℕ, Option, none, some, List, length, replicate, if◌then◌else◌, Result, ok, err}
use muffin.Vfs.Path.{OwnedPath, path_eq}
use muffin.Vfs.Mounts.{
  OpenError, ReadError, end_of_file, WriteError, StatError, IoctlError, ioctl_not_supported,
  MmapError, mmap_not_supported, FsyncError, MmapRegion, Stat,
}

-- The trait `DevFile`, for a file whose state is in `S`. What a call writes through a reference is a part of its
-- answer.
pub record DevFile (S : Type 0) : Type 0 where
  pub file_read : List ℕ → ℕ → S → S × (List ℕ × Result ℕ ReadError)
  pub file_write : List ℕ → ℕ → S → S × Result ℕ WriteError
  pub file_stat : Stat → S → S × (Stat × Result (Unit {0}) StatError)
  pub file_mmap : S → S × Result MmapRegion MmapError
  pub file_fsync : S → S × Result (Unit {0}) FsyncError
  pub file_ioctl : ℕ → List ℕ → S → S × (List ℕ × Result ℕ IoctlError)

-- The defaults of the trait.
abbrev default_mmap : {S : Type 0} → S → S × Result MmapRegion MmapError
default_mmap s = (s, err mmap_not_supported)

abbrev default_fsync : {S : Type 0} → S → S × Result (Unit {0}) FsyncError
default_fsync s = (s, ok tt)

abbrev default_ioctl : {S : Type 0} → ℕ → List ℕ → S → S × (List ℕ × Result ℕ IoctlError)
default_ioctl request arg s = (s, (arg, err ioctl_not_supported))

-- `Null`.
abbrev pub null_file : DevFile (Unit {0})
null_file = record {
  file_read = λ buf offset s. (s, (buf, err end_of_file));
  file_write = λ buf offset s. (s, ok (length buf));
  file_stat = λ st s. (s, (record { size = 0 }, ok tt));
  file_mmap = default_mmap;
  file_fsync = default_fsync;
  file_ioctl = default_ioctl;
}

-- `Zero`.
abbrev pub zero_file : DevFile (Unit {0})
zero_file = record {
  file_read = λ buf offset s. (s, (replicate (length buf) 0, ok (length buf)));
  file_write = λ buf offset s. (s, ok (length buf));
  file_stat = λ st s. (s, (record { size = 0 }, ok tt));
  file_mmap = default_mmap;
  file_fsync = default_fsync;
  file_ioctl = default_ioctl;
}

-- `DevNode` with its kind, a directory or a file, and the children of a directory. A file has what its
-- `open_fn` answers.
mutual
  pub data DevNode (S : Type 0) : Type 0 where
    directory : OwnedPath → DevDirectoryNode S → DevNode S
    device : OwnedPath → Result S OpenError → DevNode S

  pub data DevDirectoryNode (S : Type 0) : Type 0 where
    new_directory : DevDirectoryNode S
    with_child : DevNode S → DevDirectoryNode S → DevDirectoryNode S

module _ {S : Type 0} where
  unfoldable pub node_name : DevNode S → OwnedPath
  node_name (directory name children) = name
  node_name (device name open_fn) = name

  -- `lookup_child`.
  unfoldable pub lookup_child : OwnedPath → DevDirectoryNode S → Option (DevNode S)
  unfolding node_name
  lookup_child name new_directory = none
  lookup_child name (with_child n rest) =
      if path_eq (node_name n) name then some n else lookup_child name rest

  -- `children_mut().push`.
  unfoldable pub push_child : DevNode S → DevDirectoryNode S → DevDirectoryNode S
  push_child m new_directory = with_child m new_directory
  push_child m (with_child n rest) = with_child n (push_child m rest)

  -- The write through `lookup_child_mut`: the first child of that name is replaced.
  unfoldable pub set_child : OwnedPath → DevNode S → DevDirectoryNode S → DevDirectoryNode S
  unfolding node_name
  set_child name m new_directory = new_directory
  set_child name m (with_child n rest) =
      let rest' = set_child name m rest in
      if path_eq (node_name n) name then with_child m rest else with_child n rest'
