-- ===== src/Ext2/Directory/Directories.antt =====
-- kernel/ext2/src/dir.rs: the entries of a directory's blocks, and a new entry in the room that another leaves. `none` is a panic.
use Prim.Native.Nat.{bit_and}
use muffin.Base.{
  ℕ, zero, suc, ◌+◌, ◌-◌, ◌%◌, ◌^◌, Bool, true, false, not, ◌&&◌, Option, none, some, List, [], ◌∷◌,
  ◌++◌, length, drop, ltb, leb, ◌==◌, if◌then◌else◌, ok, err, ◌⊎◌, inl, inr,
}
use muffin.BlockDevice.Writes.{overwrite}
use muffin.Ext2.Metadata.Allocation.{ran_then, unchanged, or_panic}
use muffin.Ext2.Storage.Blocks.{MountedFs, Ran, write_block}
use muffin.Ext2.Directory.Entries.{DirEntry, entry_size, entry_from, serialize}
use muffin.Ext2.Storage.Filesystem.{
  not_directory, entry_exists, DiskApi, Ext2Fs, block_address, block_size, Fallible, outcome_then,
  read_block,
}
use muffin.Ext2.Records.InodeRecord.{Inode}
use muffin.Ext2.Files.Reads.{inode_typ, type_directory}
use muffin.Ext2.Records.SuperblockRecord.{Superblock}

-- `DIRECTORY_ENTRIES_HAVE_TYPE` in the required features.
unfoldable pub entries_have_type : Superblock → Bool
entries_have_type s = not (bit_and s.required_features 0x2 == 0)

-- The loop over the entries of a block from an offset on, on fuel.
unfoldable pub list_entries : ℕ → Bool → List ℕ → ℕ → Option (List DirEntry)
unfolding entry_from
list_entries zero typed block offset = none
list_entries (suc fuel) typed block offset =
    if ltb offset (length block - 8)
    then (elim (entry_from typed (drop offset block)) [
      | none ↦ none
      | some e ↦ elim (list_entries fuel typed block (offset + e.total_size)) [
        | none ↦ none
        | some es ↦ some (e ∷ es)
      ]
    ])
    else some []

-- The entries of a block; more rounds than bytes are not needed, since each entry takes at least one.
unfoldable pub block_entries : Bool → List ℕ → Option (List DirEntry)
unfolding list_entries
block_entries typed block = list_entries (suc (length block)) typed block 0

-- The direct pointers that are there.
unfoldable pub direct_blocks : List ℕ → List ℕ
unfolding block_address
direct_blocks [] = []
direct_blocks (word ∷ words) =
    let rest = direct_blocks words in
    elim (block_address word) [ none ↦ rest | some addr ↦ addr ∷ rest ]

-- Two names with the same bytes.
unfoldable pub same_name : List ℕ → List ℕ → Bool
same_name [] [] = true
same_name [] (y ∷ ys) = false
same_name (x ∷ xs) [] = false
same_name (x ∷ xs) (y ∷ ys) = (x == y) && same_name xs ys

-- `find` by name.
unfoldable pub find_name : List ℕ → List DirEntry → Option DirEntry
unfolding same_name
find_name name [] = none
find_name name (e ∷ es) =
    let rest = find_name name es in if same_name e.name_bytes name then some e else rest

-- The entry found shrunk to its size and the new one after it, both merged into the block.
unfoldable pub merge_entries : Bool → ℕ → ℕ → DirEntry → DirEntry → List ℕ → Option (List ℕ)
unfolding serialize overwrite
merge_entries typed offset size old new block =
    elim (serialize typed (record old { total_size = size })) [
      | none ↦ none
      | some bytes ↦ elim (overwrite offset (offset + length bytes) bytes block) [
        | none ↦ none
        | some block' ↦
            if not ((offset + size) % 4 == 0)
            then none
            else (elim (serialize typed (record new { total_size = old.total_size - size })) [
              | none ↦ none
              | some bytes' ↦
                  overwrite (offset + size) (offset + size + length bytes') bytes' block'
            ])
      ]
    ]

-- What the loop does at one entry: `inl` is the block with the new entry in it, `inr` the offset of the next entry.
unfoldable pub try_entry : Bool → ℕ → DirEntry → List ℕ → ℕ → DirEntry → Option (List ℕ ⊎ ℕ)
unfolding entry_size merge_entries
try_entry typed required new block offset e = elim (entry_size e.name_length) [
  | none ↦ none
  | some size ↦
      if leb (2 ^ 16) (required + size)
      then none
      else (if leb (required + size) e.total_size
          then (elim (merge_entries typed offset size e new block) [
            | none ↦ none
            | some block' ↦ some (inl block')
          ])
          else some (inr (offset + e.total_size)))
]

-- The loop over a block's entries for a slot, on fuel: an inner `none` is no slot.
unfoldable pub add_in_block : ℕ → Bool → ℕ → DirEntry → List ℕ → ℕ → Option (Option (List ℕ))
unfolding entry_from try_entry
add_in_block zero typed required new block offset = none
add_in_block (suc fuel) typed required new block offset =
    if ltb offset (length block - 8)
    then (if not (offset % 4 == 0) then none else (elim (entry_from typed (drop offset block)) [
      | none ↦ none
      | some e ↦ elim (try_entry typed required new block offset e) [
        | none ↦ none
        | some (inl block') ↦ some (some block')
        | some (inr next) ↦ add_in_block fuel typed required new block next
      ]
    ]))
    else some none

module _ {D E : Type 0} (api : DiskApi D E) where
  -- The entries of the blocks of a directory.
  unfoldable pub list_blocks : Ext2Fs D → List ℕ → Fallible (List DirEntry)
  unfolding read_block block_size block_entries entries_have_type outcome_then
  list_blocks fs [] = some (ok [])
  list_blocks fs (addr ∷ addrs) =
      outcome_then (read_block api fs addr (block_size fs.superblock)) (λ block.
        elim (block_entries (entries_have_type fs.superblock) block) [
          | none ↦ none
          | some es ↦ outcome_then (list_blocks fs addrs) (λ more. some (ok (es ++ more)))
        ])

  unfoldable pub list_dir : Ext2Fs D → Inode → Fallible (List DirEntry)
  unfolding inode_typ direct_blocks list_blocks
  list_dir fs dir =
      if inode_typ dir == type_directory
      then list_blocks fs (direct_blocks dir.direct_block_ptr)
      else some (err not_directory)

  unfoldable pub find_entry : Ext2Fs D → Inode → List ℕ → Fallible (Option DirEntry)
  unfolding list_dir find_name outcome_then
  find_entry fs dir name = outcome_then (list_dir fs dir) (λ es. some (ok (find_name name es)))

  -- The loop over the blocks of the directory; with no slot in any of them the code is not done and panics.
  unfoldable pub add_in_blocks : ℕ → DirEntry → List ℕ → MountedFs D → Ran D ℕ
  unfolding read_block block_size add_in_block entries_have_type ran_then unchanged or_panic
      write_block
  add_in_blocks required new [] s = none
  add_in_blocks required new (addr ∷ addrs) s =
      ran_then (unchanged s (read_block api s.fs addr (block_size s.fs.superblock))) (λ s' block.
        ran_then
          (or_panic s' (
            add_in_block (suc (length block)) (entries_have_type s'.fs.superblock) required new
              block 0))
          (λ s'' placed. elim placed [
            | none ↦ add_in_blocks required new addrs s''
            | some block' ↦ write_block api addr block' s''
          ]))

  -- The entry that is added, its size aside.
  unfoldable pub new_entry : Superblock → ℕ → ℕ → List ℕ → DirEntry
  unfolding entries_have_type
  new_entry superblock address kind name = record {
    inode = address;
    total_size = 0;
    name_length = length name % 2 ^ 16;
    type_indicator = if entries_have_type superblock then some kind else none;
    name_bytes = name;
  }

  unfoldable pub add_entry_to_dir : Inode → List ℕ → ℕ → ℕ → MountedFs D → Ran D ℕ
  unfolding find_entry entry_size new_entry add_in_blocks direct_blocks ran_then unchanged
  add_entry_to_dir dir name address kind s =
      ran_then (unchanged s (find_entry s.fs dir name)) (λ s' found. elim found [
        | some e ↦ some (s', err entry_exists)
        | none ↦ elim (entry_size (length name % 2 ^ 16)) [
          | none ↦ none
          | some required ↦
              add_in_blocks required (new_entry s'.fs.superblock address kind name)
                (direct_blocks dir.direct_block_ptr) s'
        ]
      ])
