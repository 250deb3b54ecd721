-- ===== src/Ext2/MountTests.antt =====
-- A volume that is mounted.
use muffin.Base.{◌≡◌, refl, some, [], ◌∷◌, ◌++◌, replicate, take, drop, ok, arith}
use muffin.BlockDevice.Sectors.{
  MemoryBlockDevice, read_at, read_sectors, memory_device, memory_read_sector, cut, slice,
}
use muffin.Ext2.Metadata.Allocation.{bgdt_offset}
use muffin.Ext2.Storage.Blocks.{MountedFs}
use muffin.Ext2.Storage.Filesystem.{memory_disk, block_size, map_err, outcome_then}
use muffin.Ext2.Storage.Flat.{IsWhole, memory_flat}
use muffin.Ext2.Metadata.Mounting.{
  number_of_block_groups, read_groups, with_groups, mount_with, mount_device,
}
use muffin.Ext2.Metadata.Groups.{HasGroups}
use muffin.Ext2.Metadata.Mounts.{mount_device_lem}
use muffin.Ext2.Records.SmallRecords.{descriptor_try_from}
use muffin.Ext2.Records.SuperblockRecord.{Superblock, superblock_try_from}
use muffin.Ext2.Samples.{superblock}

-- A volume of one block group, whose superblock has the number of blocks and of blocks per group alone.
abbrev volume : MemoryBlockDevice
volume = record {
  size = 512;
  bytes = replicate 1028 0 ++ (1 ∷ replicate 27 0 ++ (1 ∷ replicate 2015 0));
}

volume-IsWhole : IsWhole volume
volume-IsWhole = (omega arith, (omega arith, (6, omega arith)))

abbrev volume_superblock : Superblock
volume_superblock = record superblock {
  num_blocks = 1;
  blocks_per_group = 1;
  inode_size = 0;
  inodes_per_group = 0;
  num_unallocated_blocks = 0;
  required_features = 0;
}

abbrev volume_mounted : MountedFs MemoryBlockDevice
volume_mounted = record {
  fs = record {
    block_device = volume;
    superblock = volume_superblock;
    bgdt =
        record {
          block_usage_bitmap_block = 0;
          inode_usage_bitmap_block = 0;
          inode_table_starting_block = 0;
          num_unallocated_blocks = 0;
          num_unallocated_inodes = 0;
          num_directories = 0;
        }
        ∷ [];
  };
  indirect_cache = [];
}

volume_mount : mount_device memory_disk volume ≡ some (ok volume_mounted)
unfolding mount_device mount_with with_groups read_groups number_of_block_groups map_err
    outcome_then superblock_try_from descriptor_try_from memory_disk read_at read_sectors
    memory_device memory_read_sector cut slice bgdt_offset block_size
volume_mount = refl

mount_device_lem_example :
    (volume ≡ volume)
    × (volume_superblock ≡ superblock_try_from (take 1024 (drop 1024 volume.bytes)))
    × (volume_mounted.indirect_cache ≡ [])
    × HasGroups volume.bytes volume_superblock volume_mounted.fs.bgdt
unfolding memory_flat
mount_device_lem_example =
    mount_device_lem memory_disk memory_flat volume volume_mounted volume-IsWhole volume_mount
      (unfold block_size in omega arith)
