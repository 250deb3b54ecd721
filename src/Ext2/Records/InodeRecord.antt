-- ===== src/Ext2/Records/InodeRecord.antt =====
-- kernel/ext2/src/inode.rs: the inode on disk.
use muffin.Base.{ℕ, List, [], ◌∷◌, replicate}
use muffin.Ext2.Records.Bytefield.{
  integer, byte_array, word_array, Field, Value, Values, Builder, build, ◌&◌, from_bytes,
  write_fields,
}

pub record Inode : Type 0 where
  pub type_and_perm : ℕ
  pub user_id : ℕ
  pub byte_size_lower : ℕ
  pub last_access_time : ℕ
  pub creation_time : ℕ
  pub last_modification_time : ℕ
  pub deletion_time : ℕ
  pub group_id : ℕ
  pub num_hard_links : ℕ
  pub num_disk_sectors : ℕ
  pub flags : ℕ
  pub os_val_1 : List ℕ
  pub direct_block_ptr : List ℕ
  pub singly_indirect_block_ptr : ℕ
  pub doubly_indirect_block_ptr : ℕ
  pub triply_indirect_block_ptr : ℕ
  pub generation : ℕ
  pub extended_attribute_block : ℕ
  pub byte_size_upper_or_dir_acl : ℕ
  pub fragment_block_address : ℕ
  pub os_val_2 : List ℕ

abbrev pub inode_fields : List Field
inode_fields =
    record { typ = integer 2; offset = 0 }
    ∷ record { typ = integer 2; offset = 2 }
    ∷ record { typ = integer 4; offset = 4 }
    ∷ record { typ = integer 4; offset = 8 }
    ∷ record { typ = integer 4; offset = 12 }
    ∷ record { typ = integer 4; offset = 16 }
    ∷ record { typ = integer 4; offset = 20 }
    ∷ record { typ = integer 2; offset = 24 }
    ∷ record { typ = integer 2; offset = 26 }
    ∷ record { typ = integer 4; offset = 28 }
    ∷ record { typ = integer 4; offset = 32 }
    ∷ record { typ = byte_array 4; offset = 36 }
    ∷ record { typ = word_array 12; offset = 40 }
    ∷ record { typ = integer 4; offset = 88 }
    ∷ record { typ = integer 4; offset = 92 }
    ∷ record { typ = integer 4; offset = 96 }
    ∷ record { typ = integer 4; offset = 100 }
    ∷ record { typ = integer 4; offset = 104 }
    ∷ record { typ = integer 4; offset = 108 }
    ∷ record { typ = integer 4; offset = 112 }
    ∷ record { typ = byte_array 12; offset = 116 }
    ∷ []

unfoldable pub inode_of_values : Values inode_fields → Inode
unfolding Builder Values Value build
inode_of_values vs =
    build inode_fields
      (λ v_type_and_perm v_user_id v_byte_size_lower v_last_access_time v_creation_time
          v_last_modification_time v_deletion_time v_group_id v_num_hard_links v_num_disk_sectors
          v_flags v_os_val_1 v_direct_block_ptr v_singly_indirect_block_ptr
          v_doubly_indirect_block_ptr v_triply_indirect_block_ptr v_generation
          v_extended_attribute_block v_byte_size_upper_or_dir_acl v_fragment_block_address
          v_os_val_2.
        record {
          type_and_perm = v_type_and_perm;
          user_id = v_user_id;
          byte_size_lower = v_byte_size_lower;
          last_access_time = v_last_access_time;
          creation_time = v_creation_time;
          last_modification_time = v_last_modification_time;
          deletion_time = v_deletion_time;
          group_id = v_group_id;
          num_hard_links = v_num_hard_links;
          num_disk_sectors = v_num_disk_sectors;
          flags = v_flags;
          os_val_1 = v_os_val_1;
          direct_block_ptr = v_direct_block_ptr;
          singly_indirect_block_ptr = v_singly_indirect_block_ptr;
          doubly_indirect_block_ptr = v_doubly_indirect_block_ptr;
          triply_indirect_block_ptr = v_triply_indirect_block_ptr;
          generation = v_generation;
          extended_attribute_block = v_extended_attribute_block;
          byte_size_upper_or_dir_acl = v_byte_size_upper_or_dir_acl;
          fragment_block_address = v_fragment_block_address;
          os_val_2 = v_os_val_2;
        })
      vs

unfoldable pub inode_values : Inode → Values inode_fields
unfolding Values Value
inode_values s =
    s.type_and_perm & s.user_id & s.byte_size_lower & s.last_access_time & s.creation_time
    & s.last_modification_time & s.deletion_time & s.group_id & s.num_hard_links
    & s.num_disk_sectors & s.flags & s.os_val_1 & s.direct_block_ptr & s.singly_indirect_block_ptr
    & s.doubly_indirect_block_ptr & s.triply_indirect_block_ptr & s.generation
    & s.extended_attribute_block & s.byte_size_upper_or_dir_acl & s.fragment_block_address
    & s.os_val_2 & tt

-- `Inode::try_from` the bytes.
unfoldable pub inode_try_from : List ℕ → Inode
unfolding inode_of_values from_bytes
inode_try_from source = inode_of_values (from_bytes inode_fields source)

-- The record of 128 bytes on disk.
unfoldable pub inode_into : Inode → List ℕ
unfolding inode_values write_fields
inode_into s = write_fields inode_fields (inode_values s) (replicate 128 0)
