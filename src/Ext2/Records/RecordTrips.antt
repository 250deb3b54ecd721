-- ===== src/Ext2/Records/RecordTrips.antt =====
-- kernel/ext2/src: each record on disk, written and read again.
use muffin.Base.{◌≡◌, refl, ap, replicate}
use muffin.Ext2.Records.Bytefield.{AllFit, in_order}
use muffin.Ext2.Records.Fields.{from_bytes-write_fields}
use muffin.Ext2.Records.InodeRecord.{
  Inode, inode_fields, inode_values, inode_of_values, inode_try_from, inode_into,
}
use muffin.Ext2.Records.SuperblockRecord.{
  Superblock, superblock_fields, superblock_values, superblock_of_values, superblock_try_from,
  superblock_into,
}
use muffin.Ext2.Records.SmallRecords.{
  BlockGroupDescriptor, descriptor_fields, descriptor_values, descriptor_of_values,
  descriptor_try_from, descriptor_into, DirEntryNoName, entry_head_fields, entry_head_values,
  entry_head_of_values, entry_head_try_from, entry_head_into,
}

-- An inode whose fields are values of their Rust types, written to its 128 bytes and read again, is the same.
pub inode_try_from-inode_into :
    (s : Inode) → AllFit inode_fields (inode_values s) → inode_try_from (inode_into s) ≡ s
unfolding inode_try_from inode_into inode_of_values inode_values in_order
inode_try_from-inode_into s fit =
    ap inode_of_values
      (from_bytes-write_fields inode_fields (inode_values s) (replicate 128 0) 0 refl fit)

-- A superblock whose fields are values of their Rust types, written to its 1024 bytes and read again, is the same.
pub superblock_try_from-superblock_into :
    (s : Superblock)
    → AllFit superblock_fields (superblock_values s)
    → superblock_try_from (superblock_into s) ≡ s
unfolding superblock_try_from superblock_into superblock_of_values superblock_values in_order
superblock_try_from-superblock_into s fit =
    ap superblock_of_values (
      from_bytes-write_fields superblock_fields (superblock_values s) (replicate 1024 0) 0 refl fit)

-- A block group descriptor whose fields are values of their Rust types, written to its 32 bytes and read again, is the same.
pub descriptor_try_from-descriptor_into :
    (s : BlockGroupDescriptor)
    → AllFit descriptor_fields (descriptor_values s)
    → descriptor_try_from (descriptor_into s) ≡ s
unfolding descriptor_try_from descriptor_into descriptor_of_values descriptor_values in_order
descriptor_try_from-descriptor_into s fit =
    ap descriptor_of_values
      (from_bytes-write_fields descriptor_fields (descriptor_values s) (replicate 32 0) 0 refl fit)

-- The head of a directory entry whose fields are values of their Rust types, written to its 8 bytes and read again, is the same.
pub entry_head_try_from-entry_head_into :
    (s : DirEntryNoName)
    → AllFit entry_head_fields (entry_head_values s)
    → entry_head_try_from (entry_head_into s) ≡ s
unfolding entry_head_try_from entry_head_into entry_head_of_values entry_head_values in_order
entry_head_try_from-entry_head_into s fit =
    ap entry_head_of_values
      (from_bytes-write_fields entry_head_fields (entry_head_values s) (replicate 8 0) 0 refl fit)
