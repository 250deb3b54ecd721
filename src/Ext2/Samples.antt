-- ===== src/Ext2/Samples.antt =====
-- A small file system on a memory device, for the tests.
use muffin.Base.{
  ℕ, ◌≡◌, refl, List, [], ◌∷◌, ◌++◌, length, replicate, length-append, length-replicate, arith,
}
use muffin.BlockDevice.Sectors.{MemoryBlockDevice}
use muffin.Ext2.Storage.Blocks.{MountedFs}
use muffin.Ext2.Storage.Filesystem.{Ext2Fs, block_size}
use muffin.Ext2.Storage.Flat.{IsWhole}
use muffin.Ext2.Records.InodeRecord.{Inode}
use muffin.Ext2.Records.SmallRecords.{BlockGroupDescriptor}
use muffin.Ext2.Records.SuperblockRecord.{Superblock}

-- Four blocks of 1024 bytes, in sectors of 512.
abbrev pub bytes : List ℕ
bytes = replicate 2048 0 ++ replicate 2048 7

abbrev pub disk : MemoryBlockDevice
disk = record { size = 512; bytes = bytes }

pub length-bytes : length bytes ≡ 4096
length-bytes = omega (
  arith,
  length-append {A = ℕ} (replicate 2048 0) (replicate 2048 7),
  length-replicate {A = ℕ} 2048 0,
  length-replicate {A = ℕ} 2048 7,
)

pub disk-IsWhole : IsWhole disk
disk-IsWhole = (omega arith, (omega (arith, length-bytes), (8, omega (arith, length-bytes))))

abbrev pub superblock : Superblock
superblock = record {
  num_inodes = 0;
  num_blocks = 4;
  num_superuser_reserved_blocks = 0;
  num_unallocated_blocks = 2;
  num_unallocated_inodes = 0;
  superblock_block_number = 0;
  log2_block_size = 0;
  log2_fragment_size = 0;
  blocks_per_group = 16;
  fragments_per_group = 0;
  inodes_per_group = 16;
  last_mount_time = 0;
  last_written_time = 0;
  mounts_since_fsck = 0;
  mounts_allowed_before_fsck = 0;
  magic_number = 0;
  state = 0;
  error_policy = 0;
  version_minor = 0;
  last_fsck = 0;
  fsck_force_interval = 0;
  os_id = 0;
  version_major = 0;
  uid_for_reserved_blocks = 0;
  gid_for_reserved_blocks = 0;
  first_non_reserved_inode = 0;
  inode_size = 128;
  this_superblock_block_group = 0;
  optional_features = 0;
  required_features = 2;
  write_required_features = 0;
  fsid = replicate 16 0;
  volume_name = replicate 16 0;
  last_mount_path = replicate 16 0;
  compression = 0;
  num_preallocate_blocks_file = 0;
  num_preallocate_blocks_directory = 0;
}

abbrev pub group : BlockGroupDescriptor
group = record {
  block_usage_bitmap_block = 2;
  inode_usage_bitmap_block = 3;
  inode_table_starting_block = 1;
  num_unallocated_blocks = 2;
  num_unallocated_inodes = 3;
  num_directories = 1;
}

abbrev pub fs : Ext2Fs MemoryBlockDevice
fs = record { block_device = disk; superblock = superblock; bgdt = group ∷ [] }

abbrev pub mounted : MountedFs MemoryBlockDevice
mounted = record { fs = fs; indirect_cache = [] }

-- A regular file of ten bytes in block 2.
abbrev pub file : Inode
file = record {
  type_and_perm = 0x8000;
  user_id = 0;
  byte_size_lower = 10;
  last_access_time = 0;
  creation_time = 0;
  last_modification_time = 0;
  deletion_time = 0;
  group_id = 0;
  num_hard_links = 0;
  num_disk_sectors = 0;
  flags = 0;
  os_val_1 = replicate 4 0;
  direct_block_ptr = 2 ∷ replicate 11 0;
  singly_indirect_block_ptr = 3;
  doubly_indirect_block_ptr = 0;
  triply_indirect_block_ptr = 0;
  generation = 0;
  extended_attribute_block = 0;
  byte_size_upper_or_dir_acl = 0;
  fragment_block_address = 0;
  os_val_2 = replicate 12 0;
}

pub block_size_1024 : block_size superblock ≡ 1024
unfolding block_size
block_size_1024 = refl
