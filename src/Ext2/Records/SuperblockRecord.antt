-- ===== src/Ext2/Records/SuperblockRecord.antt =====
-- kernel/ext2/src/superblock.rs: the superblock on disk.
use muffin.Base.{ℕ, List, [], ◌∷◌, replicate}
use muffin.Ext2.Records.Bytefield.{
  integer, byte_array, Field, Value, Values, Builder, build, ◌&◌, from_bytes, write_fields,
}

pub record Superblock : Type 0 where
  pub num_inodes : ℕ
  pub num_blocks : ℕ
  pub num_superuser_reserved_blocks : ℕ
  pub num_unallocated_blocks : ℕ
  pub num_unallocated_inodes : ℕ
  pub superblock_block_number : ℕ
  pub log2_block_size : ℕ
  pub log2_fragment_size : ℕ
  pub blocks_per_group : ℕ
  pub fragments_per_group : ℕ
  pub inodes_per_group : ℕ
  pub last_mount_time : ℕ
  pub last_written_time : ℕ
  pub mounts_since_fsck : ℕ
  pub mounts_allowed_before_fsck : ℕ
  pub magic_number : ℕ
  pub state : ℕ
  pub error_policy : ℕ
  pub version_minor : ℕ
  pub last_fsck : ℕ
  pub fsck_force_interval : ℕ
  pub os_id : ℕ
  pub version_major : ℕ
  pub uid_for_reserved_blocks : ℕ
  pub gid_for_reserved_blocks : ℕ
  pub first_non_reserved_inode : ℕ
  pub inode_size : ℕ
  pub this_superblock_block_group : ℕ
  pub optional_features : ℕ
  pub required_features : ℕ
  pub write_required_features : ℕ
  pub fsid : List ℕ
  pub volume_name : List ℕ
  pub last_mount_path : List ℕ
  pub compression : ℕ
  pub num_preallocate_blocks_file : ℕ
  pub num_preallocate_blocks_directory : ℕ

abbrev pub superblock_fields : List Field
superblock_fields =
    record { typ = integer 4; offset = 0 }
    ∷ record { typ = integer 4; offset = 4 }
    ∷ record { typ = integer 4; offset = 8 }
    ∷ record { typ = integer 4; offset = 12 }
    ∷ record { typ = integer 4; offset = 16 }
    ∷ record { typ = integer 4; offset = 20 }
    ∷ record { typ = integer 4; offset = 24 }
    ∷ record { typ = integer 4; offset = 28 }
    ∷ record { typ = integer 4; offset = 32 }
    ∷ record { typ = integer 4; offset = 36 }
    ∷ record { typ = integer 4; offset = 40 }
    ∷ record { typ = integer 4; offset = 44 }
    ∷ record { typ = integer 4; offset = 48 }
    ∷ record { typ = integer 2; offset = 52 }
    ∷ record { typ = integer 2; offset = 54 }
    ∷ record { typ = integer 2; offset = 56 }
    ∷ record { typ = integer 2; offset = 58 }
    ∷ record { typ = integer 2; offset = 60 }
    ∷ record { typ = integer 2; offset = 62 }
    ∷ record { typ = integer 4; offset = 64 }
    ∷ record { typ = integer 4; offset = 68 }
    ∷ record { typ = integer 4; offset = 72 }
    ∷ record { typ = integer 4; offset = 76 }
    ∷ record { typ = integer 2; offset = 80 }
    ∷ record { typ = integer 2; offset = 82 }
    ∷ record { typ = integer 4; offset = 84 }
    ∷ record { typ = integer 2; offset = 88 }
    ∷ record { typ = integer 2; offset = 90 }
    ∷ record { typ = integer 4; offset = 92 }
    ∷ record { typ = integer 4; offset = 96 }
    ∷ record { typ = integer 4; offset = 100 }
    ∷ record { typ = byte_array 16; offset = 104 }
    ∷ record { typ = byte_array 16; offset = 120 }
    ∷ record { typ = byte_array 16; offset = 136 }
    ∷ record { typ = integer 4; offset = 200 }
    ∷ record { typ = integer 1; offset = 204 }
    ∷ record { typ = integer 1; offset = 205 }
    ∷ []

unfoldable pub superblock_of_values : Values superblock_fields → Superblock
unfolding Builder Values Value build
superblock_of_values vs =
    build superblock_fields
      (λ v_num_inodes v_num_blocks v_num_superuser_reserved_blocks v_num_unallocated_blocks
          v_num_unallocated_inodes v_superblock_block_number v_log2_block_size v_log2_fragment_size
          v_blocks_per_group v_fragments_per_group v_inodes_per_group v_last_mount_time
          v_last_written_time v_mounts_since_fsck v_mounts_allowed_before_fsck v_magic_number
          v_state v_error_policy v_version_minor v_last_fsck v_fsck_force_interval v_os_id
          v_version_major v_uid_for_reserved_blocks v_gid_for_reserved_blocks
          v_first_non_reserved_inode v_inode_size v_this_superblock_block_group v_optional_features
          v_required_features v_write_required_features v_fsid v_volume_name v_last_mount_path
          v_compression v_num_preallocate_blocks_file v_num_preallocate_blocks_directory.
        record {
          num_inodes = v_num_inodes;
          num_blocks = v_num_blocks;
          num_superuser_reserved_blocks = v_num_superuser_reserved_blocks;
          num_unallocated_blocks = v_num_unallocated_blocks;
          num_unallocated_inodes = v_num_unallocated_inodes;
          superblock_block_number = v_superblock_block_number;
          log2_block_size = v_log2_block_size;
          log2_fragment_size = v_log2_fragment_size;
          blocks_per_group = v_blocks_per_group;
          fragments_per_group = v_fragments_per_group;
          inodes_per_group = v_inodes_per_group;
          last_mount_time = v_last_mount_time;
          last_written_time = v_last_written_time;
          mounts_since_fsck = v_mounts_since_fsck;
          mounts_allowed_before_fsck = v_mounts_allowed_before_fsck;
          magic_number = v_magic_number;
          state = v_state;
          error_policy = v_error_policy;
          version_minor = v_version_minor;
          last_fsck = v_last_fsck;
          fsck_force_interval = v_fsck_force_interval;
          os_id = v_os_id;
          version_major = v_version_major;
          uid_for_reserved_blocks = v_uid_for_reserved_blocks;
          gid_for_reserved_blocks = v_gid_for_reserved_blocks;
          first_non_reserved_inode = v_first_non_reserved_inode;
          inode_size = v_inode_size;
          this_superblock_block_group = v_this_superblock_block_group;
          optional_features = v_optional_features;
          required_features = v_required_features;
          write_required_features = v_write_required_features;
          fsid = v_fsid;
          volume_name = v_volume_name;
          last_mount_path = v_last_mount_path;
          compression = v_compression;
          num_preallocate_blocks_file = v_num_preallocate_blocks_file;
          num_preallocate_blocks_directory = v_num_preallocate_blocks_directory;
        })
      vs

unfoldable pub superblock_values : Superblock → Values superblock_fields
unfolding Values Value
superblock_values s =
    s.num_inodes & s.num_blocks & s.num_superuser_reserved_blocks & s.num_unallocated_blocks
    & s.num_unallocated_inodes & s.superblock_block_number & s.log2_block_size
    & s.log2_fragment_size & s.blocks_per_group & s.fragments_per_group & s.inodes_per_group
    & s.last_mount_time & s.last_written_time & s.mounts_since_fsck & s.mounts_allowed_before_fsck
    & s.magic_number & s.state & s.error_policy & s.version_minor & s.last_fsck
    & s.fsck_force_interval & s.os_id & s.version_major & s.uid_for_reserved_blocks
    & s.gid_for_reserved_blocks & s.first_non_reserved_inode & s.inode_size
    & s.this_superblock_block_group & s.optional_features & s.required_features
    & s.write_required_features & s.fsid & s.volume_name & s.last_mount_path & s.compression
    & s.num_preallocate_blocks_file & s.num_preallocate_blocks_directory & tt

-- `Superblock::try_from` the bytes.
unfoldable pub superblock_try_from : List ℕ → Superblock
unfolding superblock_of_values from_bytes
superblock_try_from source = superblock_of_values (from_bytes superblock_fields source)

-- The record of 1024 bytes on disk.
unfoldable pub superblock_into : Superblock → List ℕ
unfolding superblock_values write_fields
superblock_into s = write_fields superblock_fields (superblock_values s) (replicate 1024 0)
