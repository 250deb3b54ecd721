-- ===== src/Vfs/Opening.antt =====
-- kernel/vfs/src/vfs/mod.rs: what `open` asks of a mounted file system.
use muffin.Base.{
  ℕ, zero, suc, ◌+◌, ◌≤◌, ◌≡◌, ◌⊎◌, refl, ap, ◌∙◌, true, false, none, some, List, [], ◌∷◌, ◌++◌,
  length, all, Result, ok, err, arith, Bool-cases, Option-cases, inl, inr,
}
use muffin.Vfs.Path.{
  OwnedPath, filepath_separator, root, is_name, is_ascii, path_eq, parent, ends_with_separator,
  push,
}
use muffin.Vfs.Parents.{parent-push, push-append}
use muffin.Vfs.Mounts.{
  OpenError, FileSystem, Mounted, Vfs, Opening, found, opened, get, store, mount, climb, find_mount,
  relative_path, open_in, open_node,
}
use muffin.Vfs.Lookup.{path_eq_refl, strip_prefix-append}

relative_path-append :
    (m rest : OwnedPath) → path_eq m root ≡ false → relative_path m (m ++ rest) ≡ some rest
unfolding relative_path
relative_path-append m rest other = rw (relative_path, other) (strip_prefix-append m rest)

-- The path that a mount at `m` is asked for: the whole one at the root, or the rest of it.
abbrev IsRelative : OwnedPath → OwnedPath → OwnedPath → Type 0
IsRelative m rest p = ((m ≡ root) × (rest ≡ p)) ⊎ (m ++ rest ≡ p)

-- After a store, what was mounted behind the `Arc` has the new state.
get-store :
    {F : Type 0} (m : OwnedPath) (fs : Mounted F) (s : F) (l : List (OwnedPath × Mounted F))
    → get m l ≡ some fs
    → get m (store fs.arc s l) ≡ some (record fs { file_system = s })
unfolding get store
get-store m fs s [] here = ground arith
get-store m fs s ((q, g) ∷ l) here = elim (Bool-cases (path_eq q m)) [
  | inl same ↦ let is : g ≡ fs = ground (arith, same, here) in rw (same, is) (ground arith)
  | inr other ↦ rw other (get-store m fs s l (ground (arith, other, here)))
]

module _ {F : Type 0} (api : FileSystem F) where
  pub open_node-found :
      (p m rest : OwnedPath) (fs : Mounted F) (v : Vfs F)
      → find_mount p v ≡ found (some (m, fs))
      → relative_path m p ≡ some rest
      → open_node api p v ≡ open_in api rest p fs v
  unfolding open_node
  open_node-found p m rest fs v run relative = rw (open_node, run, relative) refl

  -- The answer of a node for `p` or an error, and the state behind the mount point `m` after it, are those of
  -- the call `open_file` with the path `rest` of the file system `fs` that is mounted there.
  abbrev pub Asks : OwnedPath → Mounted F → OwnedPath → OwnedPath → Opening F → Type 0
  Asks m fs rest p out =
      (v' : Vfs F) × (out
        ≡ opened v' (elim (api.open_file rest fs.file_system).1 [
          | err e ↦ err e
          | ok h ↦ ok (record { path = p; fs_handle = h; fs = fs.arc })
        ]))
      × (get m v'.file_systems
          ≡ some (record fs { file_system = (api.open_file rest fs.file_system).0 }))

  open_in_result :
      (rest p : OwnedPath) (fs : Mounted F) (v : Vfs F) (x : F × Result ℕ OpenError)
      → api.open_file rest fs.file_system ≡ x
      → open_in api rest p fs v
        ≡ opened
            (record v { file_systems = store fs.arc x.0 v.file_systems })
            (elim x.1 [
              | err e ↦ err e
              | ok h ↦ ok (record { path = p; fs_handle = h; fs = fs.arc })
            ])
  unfolding open_in
  open_in_result rest p fs v (s, err e) here =
      rw (open_in, here)
        (ap (λ o. opened (record v { file_systems = store fs.arc o.0 v.file_systems }) (err e))
          here)
  open_in_result rest p fs v (s, ok h) here =
      rw (open_in, here)
        (ap
          (λ o.
            opened (record v { file_systems = store fs.arc o.0 v.file_systems })
              (ok (record { path = p; fs_handle = h; fs = fs.arc })))
          here)

  open_node-Asks :
      (p m rest : OwnedPath) (fs : Mounted F) (v : Vfs F)
      → find_mount p v ≡ found (some (m, fs))
      → relative_path m p ≡ some rest
      → get m v.file_systems ≡ some fs
      → Asks m fs rest p (open_node api p v)
  open_node-Asks p m rest fs v run relative there =
      let x = api.open_file rest fs.file_system in
      (
        record v { file_systems = store fs.arc x.0 v.file_systems },
        open_node-found p m rest fs v run relative ∙ open_in_result rest p fs v x refl,
        get-store m fs x.0 v.file_systems there,
      )

module _ {F : Type 0} where
  climb-child :
      (n : ℕ) (p q : OwnedPath) (fs : Mounted F) (v : Vfs F)
      → 1 ≤ n
      → parent q ≡ some (some p)
      → get p v.file_systems ≡ some fs
      → climb n q v ≡ found (some (p, fs))
  unfolding climb
  climb-child zero p q fs v size e here = absurd (omega arith)
  climb-child (suc n) p q fs v size e here = rw (climb, e, here) refl

  find_mount-child :
      (p q : OwnedPath) (fs : Mounted F) (v : Vfs F)
      → 1 ≤ length q
      → parent q ≡ some (some p)
      → get q v.file_systems ≡ none
      → get p v.file_systems ≡ some fs
      → find_mount q v ≡ found (some (p, fs))
  unfolding find_mount
  find_mount-child p q fs v size e bare here =
      rw (find_mount, bare) (climb-child (length q) p q fs v size e here)

  -- A mount that succeeds is found under its mount point.
  get-mount :
      (p : OwnedPath) (fs : F) (v v' : Vfs F)
      → mount p fs v ≡ ok v'
      → get p v'.file_systems ≡ some (record { arc = v.next_arc; file_system = fs })
  unfolding mount get
  get-mount p fs v v' e = elim (Option-cases (get p v.file_systems)) [
    | inr (m, here) ↦ ground (arith, here, e)
    | inl gone ↦
        let added : v' ≡ record {
          file_systems = (p, record { arc = v.next_arc; file_system = fs }) ∷ v.file_systems;
          next_arc = v.next_arc + 1;
        } =
          ground (arith, gone, e) in
        rw (added, path_eq_refl p) refl
  ]

not_root :
    (c : ℕ) (p : OwnedPath) → ends_with_separator (c ∷ p) ≡ false → path_eq (c ∷ p) root ≡ false
unfolding ends_with_separator
not_root c [] h = rw h refl
not_root c (d ∷ p) h = ground arith

length-push :
    (c : ℕ) (p q : OwnedPath) → ends_with_separator (c ∷ p) ≡ false → 1 ≤ length (push (c ∷ p) q)
length-push c p q open_end = rw (push-append (c ∷ p) q open_end) (omega arith)

module _ {F : Type 0} (api : FileSystem F) where
  -- After a file system is mounted at an ASCII path that is not empty and does not end in a separator, `open`
  -- of a name pushed onto that path, where nothing else is mounted, calls `open_file` of that file system
  -- with the name behind a separator, answers its error or a node of the whole path with its handle, and
  -- keeps its state. The name is ASCII, not empty and has no separator.
  pub open_node-mount :
      (c : ℕ) (p : OwnedPath) (d : ℕ) (name : OwnedPath) (fs : F) (v v' : Vfs F)
      → all is_ascii (c ∷ p) ≡ true
      → ends_with_separator (c ∷ p) ≡ false
      → all is_ascii (d ∷ name) ≡ true
      → all is_name (d ∷ name) ≡ true
      → mount (c ∷ p) fs v ≡ ok v'
      → get (push (c ∷ p) (d ∷ name)) v'.file_systems ≡ none
      → Asks api
          (c ∷ p)
          (record { arc = v.next_arc; file_system = fs })
          (filepath_separator ∷ d ∷ name)
          (push (c ∷ p) (d ∷ name))
          (open_node api (push (c ∷ p) (d ∷ name)) v')
  open_node-mount c p d name fs v v' hp open_end hn plain mounted bare =
      let q = push (c ∷ p) (d ∷ name) in
      let m : Mounted F = record { arc = v.next_arc; file_system = fs } in
      let there = get-mount (c ∷ p) fs v v' mounted in
      let run =
        find_mount-child (c ∷ p) q m v' (length-push c p (d ∷ name) open_end)
          (parent-push c p d name hp open_end hn plain) bare there in
      let rest =
        ap (relative_path (c ∷ p)) (push-append (c ∷ p) (d ∷ name) open_end)
        ∙ relative_path-append (c ∷ p) (filepath_separator ∷ d ∷ name) (not_root c p open_end) in
      open_node-Asks api q (c ∷ p) (filepath_separator ∷ d ∷ name) m v' run rest there
