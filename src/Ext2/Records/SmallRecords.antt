-- ===== src/Ext2/Records/SmallRecords.antt =====
-- kernel/ext2/src/block_group.rs, dir.rs: the block group descriptor and the head of a directory entry on disk.
use muffin.Base.{ℕ, List, [], ◌∷◌, replicate}
use muffin.Ext2.Records.Bytefield.{
  integer, Field, Value, Values, Builder, build, ◌&◌, from_bytes, write_fields,
}

pub record BlockGroupDescriptor : Type 0 where
  pub block_usage_bitmap_block : ℕ
  pub inode_usage_bitmap_block : ℕ
  pub inode_table_starting_block : ℕ
  pub num_unallocated_blocks : ℕ
  pub num_unallocated_inodes : ℕ
  pub num_directories : ℕ

abbrev pub descriptor_fields : List Field
descriptor_fields =
    record { typ = integer 4; offset = 0 }
    ∷ record { typ = integer 4; offset = 4 }
    ∷ record { typ = integer 4; offset = 8 }
    ∷ record { typ = integer 2; offset = 12 }
    ∷ record { typ = integer 2; offset = 14 }
    ∷ record { typ = integer 2; offset = 16 }
    ∷ []

unfoldable pub descriptor_of_values : Values descriptor_fields → BlockGroupDescriptor
unfolding Builder Values Value build
descriptor_of_values vs =
    build descriptor_fields
      (λ v_block_usage_bitmap_block v_inode_usage_bitmap_block v_inode_table_starting_block
          v_num_unallocated_blocks v_num_unallocated_inodes v_num_directories.
        record {
          block_usage_bitmap_block = v_block_usage_bitmap_block;
          inode_usage_bitmap_block = v_inode_usage_bitmap_block;
          inode_table_starting_block = v_inode_table_starting_block;
          num_unallocated_blocks = v_num_unallocated_blocks;
          num_unallocated_inodes = v_num_unallocated_inodes;
          num_directories = v_num_directories;
        })
      vs

unfoldable pub descriptor_values : BlockGroupDescriptor → Values descriptor_fields
unfolding Values Value
descriptor_values s =
    s.block_usage_bitmap_block & s.inode_usage_bitmap_block & s.inode_table_starting_block
    & s.num_unallocated_blocks & s.num_unallocated_inodes & s.num_directories & tt

-- `BlockGroupDescriptor::try_from` the bytes.
unfoldable pub descriptor_try_from : List ℕ → BlockGroupDescriptor
unfolding descriptor_of_values from_bytes
descriptor_try_from source = descriptor_of_values (from_bytes descriptor_fields source)

-- The record of 32 bytes on disk.
unfoldable pub descriptor_into : BlockGroupDescriptor → List ℕ
unfolding descriptor_values write_fields
descriptor_into s = write_fields descriptor_fields (descriptor_values s) (replicate 32 0)

pub record DirEntryNoName : Type 0 where
  pub inode : ℕ
  pub total_size : ℕ
  pub name_length_lsb : ℕ
  pub type_indicator_or_name_length_msb : ℕ

abbrev pub entry_head_fields : List Field
entry_head_fields =
    record { typ = integer 4; offset = 0 }
    ∷ record { typ = integer 2; offset = 4 }
    ∷ record { typ = integer 1; offset = 6 }
    ∷ record { typ = integer 1; offset = 7 }
    ∷ []

unfoldable pub entry_head_of_values : Values entry_head_fields → DirEntryNoName
unfolding Builder Values Value build
entry_head_of_values vs =
    build entry_head_fields
      (λ v_inode v_total_size v_name_length_lsb v_type_indicator_or_name_length_msb. record {
        inode = v_inode;
        total_size = v_total_size;
        name_length_lsb = v_name_length_lsb;
        type_indicator_or_name_length_msb = v_type_indicator_or_name_length_msb;
      })
      vs

unfoldable pub entry_head_values : DirEntryNoName → Values entry_head_fields
unfolding Values Value
entry_head_values s =
    s.inode & s.total_size & s.name_length_lsb & s.type_indicator_or_name_length_msb & tt

-- `DirEntryNoName::try_from` the bytes.
unfoldable pub entry_head_try_from : List ℕ → DirEntryNoName
unfolding entry_head_of_values from_bytes
entry_head_try_from source = entry_head_of_values (from_bytes entry_head_fields source)

-- The record of 8 bytes on disk.
unfoldable pub entry_head_into : DirEntryNoName → List ℕ
unfolding entry_head_values write_fields
entry_head_into s = write_fields entry_head_fields (entry_head_values s) (replicate 8 0)
