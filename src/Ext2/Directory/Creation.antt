-- ===== src/Ext2/Directory/Creation.antt =====
-- kernel/ext2/src/create.rs, inode.rs, dir.rs: new inodes and their entries. `none` is a panic.
use muffin.Base.{ℕ, Option, none, some, List, replicate, ◌==◌, if◌then◌else◌, ok, err}
use muffin.Ext2.Metadata.Allocation.{allocate_inode, ran_then, or_panic}
use muffin.Ext2.Storage.Blocks.{MountedFs, Ran}
use muffin.Ext2.Directory.Directories.{add_entry_to_dir}
use muffin.Ext2.Storage.Filesystem.{no_space, DiskApi}
use muffin.Ext2.Records.InodeRecord.{Inode}
use muffin.Ext2.Metadata.Inodes.{write_inode}
use muffin.Ext2.Files.Reads.{inode_typ}

abbrev pub type_regular_file : ℕ
type_regular_file = 0x8000

-- `Inode::new`.
unfoldable pub new_inode : ℕ → Inode
new_inode kind = record {
  type_and_perm = kind;
  user_id = 0;
  byte_size_lower = 0;
  last_access_time = 0;
  creation_time = 0;
  last_modification_time = 0;
  deletion_time = 0;
  group_id = 0;
  num_hard_links = 0;
  num_disk_sectors = 0;
  flags = 0;
  os_val_1 = replicate 4 0;
  direct_block_ptr = replicate 12 0;
  singly_indirect_block_ptr = 0;
  doubly_indirect_block_ptr = 0;
  triply_indirect_block_ptr = 0;
  generation = 0;
  extended_attribute_block = 0;
  byte_size_upper_or_dir_acl = 0;
  fragment_block_address = 0;
  os_val_2 = replicate 12 0;
}

-- `DirType::from` the type of an inode.
unfoldable pub dir_type : ℕ → Option ℕ
dir_type t =
    if t == 0x8000
    then some 1
    else (if t == 0x4000
        then some 2
        else (if t == 0x2000
            then some 3
            else (if t == 0x6000
                then some 4
                else (if t == 0x1000
                    then some 5
                    else (if t == 0xC000
                        then some 6
                        else (if t == 0xA000 then some 7 else none))))))

module _ {D E : Type 0} (api : DiskApi D E) where
  -- The inode written and its entry added.
  unfoldable pub link_inode : Inode → List ℕ → ℕ → Inode → MountedFs D → Ran D (ℕ × Inode)
  unfolding write_inode dir_type inode_typ add_entry_to_dir ran_then or_panic
  link_inode parent name address inode s = ran_then (write_inode api address inode s) (λ s' _.
      ran_then (or_panic s' (dir_type (inode_typ inode))) (λ s'' kind.
        ran_then (add_entry_to_dir api parent name address kind s'')
          (λ s3 _. some (s3, ok (address, inode)))))

  unfoldable pub create_inode : Inode → List ℕ → ℕ → MountedFs D → Ran D (ℕ × Inode)
  unfolding allocate_inode link_inode new_inode ran_then
  create_inode parent name kind s = ran_then (allocate_inode api s) (λ s' found. elim found [
    | none ↦ some (s', err no_space)
    | some address ↦ link_inode parent name address (new_inode kind) s'
  ])

  -- The inode has the type that it was made with, or the code panics.
  unfoldable pub create_regular_file : Inode → List ℕ → MountedFs D → Ran D (ℕ × Inode)
  unfolding create_inode inode_typ ran_then
  create_regular_file parent name s =
      ran_then (create_inode parent name type_regular_file s) (λ s' (address, inode).
        if inode_typ inode == type_regular_file then some (s', ok (address, inode)) else none)
