-- ===== src/Ext2/Metadata/Mounting.antt =====
-- kernel/ext2/src/lib.rs: mounting, and the root directory. An outer `none` is a panic.
use muffin.Base.{
  ℕ, zero, suc, ◌+◌, ◌-◌, ◌*◌, ◌/◌, Option, none, some, List, [], ◌∷◌, ◌==◌, leb, if◌then◌else◌, ok,
  err,
}
use muffin.BlockDevice.Sectors.{slice}
use muffin.Ext2.Metadata.Allocation.{superblock_offset, bgd_size, bgdt_offset}
use muffin.Ext2.Storage.Blocks.{MountedFs}
use muffin.Ext2.Storage.Filesystem.{
  unable_to_read_superblock, unable_to_read_block_group_descriptor_table, not_directory, DiskApi,
  Ext2Fs, block_size, Fallible, outcome_then, map_err,
}
use muffin.Ext2.Records.InodeRecord.{Inode}
use muffin.Ext2.Metadata.Inodes.{read_inode}
use muffin.Ext2.Files.Reads.{inode_typ, type_directory}
use muffin.Ext2.Records.SmallRecords.{BlockGroupDescriptor, descriptor_try_from}
use muffin.Ext2.Records.SuperblockRecord.{Superblock, superblock_try_from}

-- `num_blocks.div_ceil(blocks_per_group)`.
unfoldable pub number_of_block_groups : Superblock → Option ℕ
number_of_block_groups s =
    if s.blocks_per_group == 0
    then none
    else some ((s.num_blocks + (s.blocks_per_group - 1)) / s.blocks_per_group)

-- The descriptors of `n` groups from group `i` on.
unfoldable pub read_groups : ℕ → ℕ → List ℕ → Option (List BlockGroupDescriptor)
unfolding slice
read_groups zero i table = some []
read_groups (suc n) i table =
    let rest = read_groups n (i + 1) table in
    elim (slice table (i * bgd_size) bgd_size) [
      | none ↦ none
      | some bytes ↦ elim rest [
        | none ↦ none
        | some groups ↦ some (descriptor_try_from bytes ∷ groups)
      ]
    ]

-- The file system with the groups that were read.
unfoldable pub with_groups :
    {D : Type 0} → D → Superblock → Option (List BlockGroupDescriptor) → Fallible (MountedFs D)
with_groups d superblock none = none
with_groups d superblock (some groups) = some (
    ok (record {
      fs = record { block_device = d; superblock = superblock; bgdt = groups };
      indirect_cache = [];
    }))

module _ {D E : Type 0} (api : DiskApi D E) where
  -- The file system once the superblock is known. The block size is a shift that panics from 32 on.
  unfoldable pub mount_with : D → Superblock → Fallible (MountedFs D)
  unfolding number_of_block_groups bgdt_offset block_size map_err outcome_then read_groups
      with_groups
  mount_with d superblock = elim (number_of_block_groups superblock) [
    | none ↦ none
    | some n ↦
        if leb 32 superblock.log2_block_size
        then none
        else outcome_then
            (map_err unable_to_read_block_group_descriptor_table
              (api.read_bytes d (bgdt_offset superblock) (block_size superblock)))
            (λ table. with_groups d superblock (read_groups n 0 table))
  ]

  -- `try_new`.
  unfoldable pub mount_device : D → Fallible (MountedFs D)
  unfolding mount_with map_err outcome_then
  mount_device d =
      outcome_then (map_err unable_to_read_superblock (api.read_bytes d superblock_offset 1024))
        (λ bytes. mount_with d (superblock_try_from bytes))

  unfoldable pub read_root_inode : Ext2Fs D → Fallible (ℕ × Inode)
  unfolding read_inode inode_typ outcome_then
  read_root_inode fs = outcome_then (read_inode api fs 2) (λ (address, inode).
      if inode_typ inode == type_directory
      then some (ok (address, inode))
      else some (err not_directory))
