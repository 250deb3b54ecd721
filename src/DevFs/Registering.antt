-- ===== src/DevFs/Registering.antt =====
-- kernel/devfs/src/fs.rs: a file that is registered in the root directory is what a path to it opens.
use muffin.Base.{
  ℕ, ◌+◌, ◌%◌, ◌^◌, ◌<◌, ◌≡◌, ◌≢◌, refl, ap, true, none, some, List, ◌∷◌, all, Result, ok, err,
  arith, Bool-cases, inl, inr,
}
use muffin.Vfs.Path.{OwnedPath, root, is_name, is_ascii, path_eq}
use muffin.Vfs.Lookup.{path_eq_refl}
use muffin.Vfs.Mounts.{OpenError}
use muffin.DevFs.Nodes.{
  DevNode, directory, device, DevDirectoryNode, new_directory, with_child, node_name, lookup_child,
  push_child,
}
use muffin.DevFs.Files.{
  next_name, RegisterError, already_exists, walked, DevFs, register_in, resolve_from, resolve_node,
  register_from, with_root, register_file, insert_file, open_device, find_file, remove_file,
}
use mathlib.Core.Path.{subst}
use muffin.DevFs.Handles.{AreBelow, find-unused, IsUnused-new, remove-other, AreBelow-remove}
use muffin.DevFs.TopPaths.{top, parent-top, file_name-top, next_name-top}

module _ {S : Type 0} where
  lookup_child-push_child :
      (name : OwnedPath) (f : Result S OpenError) (l : DevDirectoryNode S)
      → lookup_child name l ≡ none
      → lookup_child name (push_child (device name f) l) ≡ some (device name f)
  unfolding lookup_child push_child node_name
  lookup_child-push_child name f new_directory gone = rw (path_eq_refl name) refl
  lookup_child-push_child name f (with_child n l) gone =
      elim (Bool-cases (path_eq (node_name n) name)) [
        | inl here ↦ ground (arith, here, gone)
        | inr there ↦ rw there (lookup_child-push_child name f l (ground (arith, there, gone)))
      ]

  register_from-root :
      (name own : OwnedPath) (f : Result S OpenError) (l : DevDirectoryNode S)
      (r : Result (DevNode S) RegisterError)
      → register_in name f (directory own l) ≡ r
      → register_from 2 root name f (directory own l) ≡ walked r
  unfolding register_from next_name
  register_from-root name own f l r e = ap walked e

  register_in-new :
      (name own : OwnedPath) (f : Result S OpenError) (l : DevDirectoryNode S)
      → lookup_child name l ≡ none
      → register_in name f (directory own l) ≡ ok (directory own (push_child (device name f) l))
  unfolding register_in
  register_in-new name own f l gone = rw (register_in, gone) refl

  register_in-again :
      (name own : OwnedPath) (f : Result S OpenError) (l : DevDirectoryNode S) (m : DevNode S)
      → lookup_child name l ≡ some m
      → register_in name f (directory own l) ≡ err already_exists
  unfolding register_in
  register_in-again name own f l m here = rw (register_in, here) refl

  register_file-top :
      (c : ℕ) (name own : OwnedPath) (f : Result S OpenError) (l : DevDirectoryNode S)
      (files : List (ℕ × S)) (n : ℕ)
      → all is_ascii (c ∷ name) ≡ true
      → all is_name (c ∷ name) ≡ true
      → lookup_child (c ∷ name) l ≡ none
      → register_file
          (top c name)
          f
          (record { root_node = directory own l; open_files = files; fs_counter = n })
        ≡ walked (
            ok (record {
              root_node = directory own (push_child (device (c ∷ name) f) l);
              open_files = files;
              fs_counter = n;
            }))
  unfolding register_file with_root
  register_file-top c name own f l files n ascii plain gone =
      rw
        (
          register_file,
          parent-top c name ascii plain,
          file_name-top c name ascii plain,
          register_from-root (c ∷ name) own f l _ (register_in-new (c ∷ name) own f l gone),
        )
        refl

  register_file-again :
      (c : ℕ) (name own : OwnedPath) (f : Result S OpenError) (l : DevDirectoryNode S)
      (m : DevNode S) (files : List (ℕ × S)) (n : ℕ)
      → all is_ascii (c ∷ name) ≡ true
      → all is_name (c ∷ name) ≡ true
      → lookup_child (c ∷ name) l ≡ some m
      → register_file
          (top c name)
          f
          (record { root_node = directory own l; open_files = files; fs_counter = n })
        ≡ walked (err already_exists)
  unfolding register_file with_root
  register_file-again c name own f l m files n ascii plain here =
      rw
        (
          register_file,
          parent-top c name ascii plain,
          file_name-top c name ascii plain,
          register_from-root (c ∷ name) own f l _ (register_in-again (c ∷ name) own f l m here),
        )
        refl

  resolve_node-top :
      (c : ℕ) (name own : OwnedPath) (l : DevDirectoryNode S) (m : DevNode S) (files : List (ℕ × S))
      (n : ℕ)
      → all is_ascii (c ∷ name) ≡ true
      → all is_name (c ∷ name) ≡ true
      → lookup_child (c ∷ name) l ≡ some m
      → resolve_node
          (top c name)
          (record { root_node = directory own l; open_files = files; fs_counter = n })
        ≡ walked (ok m)
  unfolding resolve_node resolve_from next_name
  resolve_node-top c name own l m files n ascii plain here =
      rw (resolve_node, resolve_from, next_name-top c name ascii plain, here) refl

  -- What a first and a second `open` of the file at a path, in `d` with counter `n`, give: handle `n`, which
  -- no open file had, and then `n + 1`. Each is that of the file `s`, the first still after the second,
  -- the other open files are as they were, and the counter stays above all handles.
  abbrev pub OpensTwice : OwnedPath → S → ℕ → DevFs S → Type 0
  OpensTwice p s n d =
      (d' : DevFs S) × (d'' : DevFs S) × (find_file n d.open_files ≡ none)
      × (open_device p d ≡ walked (d', ok n))
      × (find_file n d'.open_files ≡ some s)
      × ((k : ℕ) → n ≢ k → find_file k d'.open_files ≡ find_file k d.open_files)
      × (d'.fs_counter ≡ n + 1)
      × AreBelow (n + 1) d'.open_files
      × (open_device p d' ≡ walked (d'', ok (n + 1)))
      × (find_file (n + 1) d''.open_files ≡ some s)
      × (find_file n d''.open_files ≡ some s)

  open_device-there :
      (c : ℕ) (name own : OwnedPath) (s : S) (l : DevDirectoryNode S) (files : List (ℕ × S)) (n : ℕ)
      → all is_ascii (c ∷ name) ≡ true
      → all is_name (c ∷ name) ≡ true
      → lookup_child (c ∷ name) l ≡ some (device (c ∷ name) (ok s))
      → open_device
          (top c name)
          (record { root_node = directory own l; open_files = files; fs_counter = n })
        ≡ walked (
          record {
            root_node = directory own l;
            open_files = (n, s) ∷ remove_file n files;
            fs_counter = (n + 1) % 2 ^ 64;
          },
          ok n,
        )
  unfolding open_device insert_file
  open_device-there c name own s l files n ascii plain here =
      rw
        (
          open_device,
          resolve_node-top c name own l (device (c ∷ name) (ok s)) files n ascii plain here,
        )
        refl

  open_device-OpensTwice :
      (c : ℕ) (name own : OwnedPath) (s : S) (l : DevDirectoryNode S) (files : List (ℕ × S)) (n : ℕ)
      → all is_ascii (c ∷ name) ≡ true
      → all is_name (c ∷ name) ≡ true
      → lookup_child (c ∷ name) l ≡ some (device (c ∷ name) (ok s))
      → AreBelow n files
      → n + 1 < 2 ^ 64
      → OpensTwice
          (top c name)
          s
          n
          (record { root_node = directory own l; open_files = files; fs_counter = n })
  unfolding find_file remove_file AreBelow
  open_device-OpensTwice c name own s l files n ascii plain here below small =
      let files' : List (ℕ × S) = (n, s) ∷ remove_file n files in
      let next : (n + 1) % 2 ^ 64 ≡ n + 1 = omega (arith, small) in
      (
        record { root_node = directory own l; open_files = files'; fs_counter = n + 1 },
        record {
          root_node = directory own l;
          open_files = (n + 1, s) ∷ remove_file (n + 1) files';
          fs_counter = (n + 1 + 1) % 2 ^ 64;
        },
        find-unused n files (IsUnused-new n files below),
        subst
            (λ (i : ℕ).
              open_device (top c name)
                (record { root_node = directory own l; open_files = files; fs_counter = n })
              ≡ walked (
                record { root_node = directory own l; open_files = files'; fs_counter = i },
                ok n,
              ))
            next (open_device-there c name own s l files n ascii plain here),
        ground arith,
        (λ k apart. ground (arith, apart, remove-other n k files apart)),
        refl,
        (omega arith, AreBelow-remove n n files below),
        open_device-there c name own s l files' (n + 1) ascii plain here,
        ground arith,
        ground arith,
      )

  -- In a device file system whose root is a directory and whose counter is above each handle, and with two
  -- more handles before it wraps, a file is registered under an ASCII name that is not empty and has
  -- no separator, and that the directory does not have yet. That succeeds and changes the tree alone. An
  -- `open` of the path then answers the counter as a handle that no open file had, whose file is what the file's
  -- `open_fn` gave. The other open files stay as they were, and the counter goes up by one and above
  -- each handle. A second `open` answers the next handle, and the first keeps its file.
  -- Registering the path again fails with `AlreadyExists`.
  pub register_file-open :
      (c : ℕ) (name own : OwnedPath) (s : S) (f : Result S OpenError) (l : DevDirectoryNode S)
      (files : List (ℕ × S)) (n : ℕ)
      → all is_ascii (c ∷ name) ≡ true
      → all is_name (c ∷ name) ≡ true
      → lookup_child (c ∷ name) l ≡ none
      → AreBelow n files
      → n + 1 < 2 ^ 64
      → (d : DevFs S) × (register_file
            (top c name)
            (ok s)
            (record { root_node = directory own l; open_files = files; fs_counter = n })
          ≡ walked (ok d))
        × (d.open_files ≡ files)
        × (d.fs_counter ≡ n)
        × OpensTwice (top c name) s n d
        × (register_file (top c name) f d ≡ walked (err already_exists))
  register_file-open c name own s f l files n ascii plain gone below small =
      let children = push_child (device (c ∷ name) (ok s)) l in
      let here = lookup_child-push_child (c ∷ name) (ok s) l gone in
      (
        record { root_node = directory own children; open_files = files; fs_counter = n },
        register_file-top c name own (ok s) l files n ascii plain gone,
        refl,
        refl,
        open_device-OpensTwice c name own s children files n ascii plain here below small,
        register_file-again c name own f children (device (c ∷ name) (ok s)) files n ascii plain
            here,
      )
