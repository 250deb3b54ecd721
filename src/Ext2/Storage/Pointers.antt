-- ===== src/Ext2/Storage/Pointers.antt =====
-- kernel/ext2/src/read.rs: from the index of a block in a file to the address of the block, through the cache.
use muffin.Base.{
  ℕ, ◌+◌, ◌-◌, ◌*◌, ◌/◌, ◌%◌, Option, none, some, List, map, length, get_elem?, ltb, leb, ◌==◌,
  if◌then◌else◌, Result, ok, err,
}
use muffin.Ext2.Records.Bytefield.{words_of_bytes}
use muffin.Ext2.Storage.Cache.{IndirectCache, lookup, insert_table}
use muffin.Ext2.Storage.Filesystem.{
  Error, invalid_block_index, DiskApi, Ext2Fs, block_address, checked_u32, block_size, read_block,
}
use muffin.Ext2.Records.InodeRecord.{Inode}
use muffin.Ext2.Records.SuperblockRecord.{Superblock}

-- What a computation behind a shared reference gives: the cache after it and its result.
abbrev pub Cached : Type 0 → Type 0
Cached A = Option (IndirectCache × Result A Error)

unfoldable pub cached_then : {A B : Type 0} → Cached A → (IndirectCache → A → Cached B) → Cached B
cached_then none k = none
cached_then (some (c, err e)) k = some (c, err e)
cached_then (some (c, ok a)) k = k c a

-- The pointers of an indirect block.
unfoldable pub table_of : List ℕ → List (Option ℕ)
unfolding words_of_bytes block_address
table_of bytes = map block_address (words_of_bytes (length bytes / 4) bytes)

-- The pointer at an index of the table just read, and the cache with the table in it.
unfoldable pub resolve_in_table : ℕ → ℕ → List (Option ℕ) → IndirectCache → Cached (Option ℕ)
unfolding insert_table
resolve_in_table addr index table c = elim (get_elem? table index) [
  | none ↦ some (c, err (invalid_block_index index))
  | some resolved ↦ some (insert_table addr table c, ok resolved)
]

-- The direct pointers: the entry at an index, where out of range and 0 are no block.
unfoldable pub direct_ptr : Inode → ℕ → Option ℕ
unfolding block_address
direct_ptr inode index = elim (get_elem? inode.direct_block_ptr index) [
  | none ↦ none
  | some word ↦ block_address word
]

unfoldable pub indirect_pointer_limits : Superblock → Option (ℕ × (ℕ × ℕ))
unfolding block_size checked_u32
indirect_pointer_limits s =
    let pointers_per_block = block_size s / 4 in
    elim (checked_u32 (12 + pointers_per_block + pointers_per_block * pointers_per_block)) [
      | none ↦ none
      | some double_limit ↦ some (12, (12 + pointers_per_block, double_limit))
    ]

module _ {D E : Type 0} (api : DiskApi D E) where
  -- The part of `resolve_indirect_ptr` after the cache has missed.
  unfoldable pub resolve_from_disk : Ext2Fs D → ℕ → ℕ → IndirectCache → Cached (Option ℕ)
  unfolding read_block block_size table_of resolve_in_table
  resolve_from_disk fs addr index c = elim (read_block api fs addr (block_size fs.superblock)) [
    | none ↦ none
    | some (err e) ↦ some (c, err e)
    | some (ok bytes) ↦ resolve_in_table addr index (table_of bytes) c
  ]

  -- What `resolve_indirect_ptr` does with the answer of the cache.
  unfoldable pub resolve_after_lookup :
      Ext2Fs D → ℕ → ℕ → Option (Option ℕ) × IndirectCache → Cached (Option ℕ)
  unfolding resolve_from_disk
  resolve_after_lookup fs addr index (none, c) = resolve_from_disk fs addr index c
  resolve_after_lookup fs addr index (some cached, c) = some (c, ok cached)

  unfoldable pub resolve_indirect_ptr : Ext2Fs D → Option ℕ → ℕ → IndirectCache → Cached (Option ℕ)
  unfolding lookup resolve_after_lookup
  resolve_indirect_ptr fs none index c = some (c, ok none)
  resolve_indirect_ptr fs (some addr) index c =
      resolve_after_lookup fs addr index (lookup addr index c)

  -- A division by 0 panics, here and below.
  unfoldable pub resolve_double_indirect_ptr :
      Ext2Fs D → Option ℕ → ℕ → IndirectCache → Cached (Option ℕ)
  unfolding resolve_indirect_ptr block_size cached_then
  resolve_double_indirect_ptr fs ptr index c =
      let size = block_size fs.superblock / 4 in
      if size == 0
      then none
      else cached_then (resolve_indirect_ptr fs ptr (index / size) c)
          (λ c' single. resolve_indirect_ptr fs single (index % size) c')

  unfoldable pub resolve_triple_indirect_ptr :
      Ext2Fs D → Option ℕ → ℕ → IndirectCache → Cached (Option ℕ)
  unfolding resolve_indirect_ptr resolve_double_indirect_ptr block_size cached_then checked_u32
  resolve_triple_indirect_ptr fs ptr index c =
      let size = block_size fs.superblock / 4 in
      elim (checked_u32 (size * size)) [
        | none ↦ none
        | some blocks ↦
            if blocks == 0
            then none
            else cached_then (resolve_indirect_ptr fs ptr (index / blocks) c)
                (λ c' double. resolve_double_indirect_ptr fs double (index % blocks) c')
      ]

  unfoldable pub resolve_block_index : Ext2Fs D → Inode → ℕ → IndirectCache → Cached (Option ℕ)
  unfolding indirect_pointer_limits direct_ptr block_address resolve_indirect_ptr
      resolve_double_indirect_ptr resolve_triple_indirect_ptr block_size
  resolve_block_index fs inode index c = elim (indirect_pointer_limits fs.superblock) [
    | none ↦ none
    | some (direct_limit, (indirect_limit, double_limit)) ↦
        let size = block_size fs.superblock / 4 in
        if ltb index direct_limit
        then some (c, ok (direct_ptr inode index))
        else (if ltb index indirect_limit
            then resolve_indirect_ptr fs (block_address inode.singly_indirect_block_ptr)
                (index - direct_limit) c
            else (if ltb index double_limit
                then resolve_double_indirect_ptr fs (block_address inode.doubly_indirect_block_ptr)
                    (index - indirect_limit) c
                else (if leb (double_limit + size * size * size) index
                    then some (c, err (invalid_block_index index))
                    else resolve_triple_indirect_ptr fs
                        (block_address inode.triply_indirect_block_ptr) (index - double_limit) c)))
  ]
