-- ===== src/Ext2/Storage/Coherence.antt =====
-- kernel/ext2/src/read.rs: the pointers of a file as they stand on the device, without the cache, and when a cache agrees with the device.
use muffin.Base.{
  ℕ, ◌-◌, ◌*◌, ◌/◌, ◌%◌, ◌≡◌, Option, none, some, List, [], ◌∷◌, get_elem?, ltb, if◌then◌else◌, ok,
  err, ok_or,
}
use muffin.Ext2.Storage.Cache.{IndirectCache}
use muffin.Ext2.Storage.Filesystem.{
  invalid_block_index, DiskApi, Ext2Fs, block_address, block_size, Fallible, outcome_then,
  read_block,
}
use muffin.Ext2.Records.InodeRecord.{Inode}
use muffin.Ext2.Storage.Pointers.{table_of, direct_ptr, Cached}

module _ {D E : Type 0} (api : DiskApi D E) (fs : Ext2Fs D) where
  -- The pointers of a block, read from the device.
  unfoldable pub table_at : ℕ → Fallible (List (Option ℕ))
  unfolding read_block block_size outcome_then table_of
  table_at addr =
      outcome_then (read_block api fs addr (block_size fs.superblock))
        (λ bytes. some (ok (table_of bytes)))

  unfoldable pub pointer_at : Option ℕ → ℕ → Fallible (Option ℕ)
  unfolding table_at outcome_then
  pointer_at none index = some (ok none)
  pointer_at (some addr) index =
      outcome_then (table_at addr)
        (λ table. some (ok_or (get_elem? table index) (invalid_block_index index)))

  -- The pointer reached from a root by one index for each level of indirect blocks.
  unfoldable pub follow : Option ℕ → List ℕ → Fallible (Option ℕ)
  unfolding pointer_at outcome_then
  follow ptr [] = some (ok ptr)
  follow ptr (index ∷ more) = outcome_then (pointer_at ptr index) (λ next. follow next more)

  -- The address of block `index` of a file as the format defines it: 12 direct pointers, then trees of one, two and three
  -- levels of indirect blocks.
  unfoldable pub block_pointer : Inode → ℕ → Fallible (Option ℕ)
  unfolding follow direct_ptr block_address block_size
  block_pointer inode index =
      let size = block_size fs.superblock / 4 in
      let i1 = index - 12 in
      let i2 = i1 - size in
      let i3 = i2 - size * size in
      let within = i3 % (size * size) in
      if ltb index 12
      then some (ok (direct_ptr inode index))
      else (if ltb i1 size
          then follow (block_address inode.singly_indirect_block_ptr) (i1 ∷ [])
          else (if ltb i2 (size * size)
              then follow (block_address inode.doubly_indirect_block_ptr)
                  ((i2 / size) ∷ (i2 % size) ∷ [])
              else (if ltb i3 (size * size * size)
                  then follow (block_address inode.triply_indirect_block_ptr)
                      ((i3 / (size * size)) ∷ (within / size) ∷ (within % size) ∷ [])
                  else some (err (invalid_block_index index)))))

  -- Every entry of the cache holds the pointers that are on the device.
  unfoldable pub Agrees : IndirectCache → Type 0
  unfolding table_at
  Agrees [] = Unit {0}
  Agrees (e ∷ es) = (table_at e.0 ≡ some (ok e.1)) × Agrees es

  -- A computation through the cache panics, fails or succeeds as one without it does, and leaves a cache that agrees with the device.
  unfoldable pub Follows : {A : Type 0} → Cached A → Fallible A → Type 0
  unfolding Agrees
  Follows none r = r ≡ none
  Follows (some (c, x)) r = Agrees c × (r ≡ some x)
