-- ===== src/Ext2/Metadata/Inodes.antt =====
-- kernel/ext2/src/lib.rs: the inodes in the tables of the block groups.
use muffin.Base.{ℕ, ◌+◌, ◌-◌, ◌*◌, ◌/◌, ◌%◌, Option, none, some, get_elem?, ◌==◌, if◌then◌else◌, ok}
use muffin.Ext2.Storage.Blocks.{MountedFs, Ran, write_to_device}
use muffin.Ext2.Storage.Filesystem.{
  device_read, device_write, DiskApi, Ext2Fs, block_address, checked_u32, Fallible, outcome_then,
  map_err, resolve_block_offset,
}
use muffin.Ext2.Records.InodeRecord.{Inode, inode_try_from, inode_into}

module _ {D E : Type 0} (api : DiskApi D E) where
  -- The byte of the device at which the table of a group has its entry `index`.
  unfoldable pub table_entry : Ext2Fs D → ℕ → ℕ → Option ℕ
  unfolding block_address checked_u32 resolve_block_offset
  table_entry fs start index = elim (block_address start) [
    | none ↦ none
    | some itable ↦ elim (resolve_block_offset api fs itable) [
      | none ↦ none
      | some base ↦ elim (checked_u32 (index * fs.superblock.inode_size)) [
        | none ↦ none
        | some inside ↦ some (base + inside)
      ]
    ]
  ]

  -- The address of an inode; the group out of range and a division by 0 panic.
  unfoldable pub inode_offset : Ext2Fs D → ℕ → Option ℕ
  unfolding table_entry
  inode_offset fs addr =
      let per_group = fs.superblock.inodes_per_group in
      if per_group == 0 then none else (elim (get_elem? fs.bgdt ((addr - 1) / per_group)) [
        | none ↦ none
        | some group ↦ table_entry fs group.inode_table_starting_block ((addr - 1) % per_group)
      ])

  unfoldable pub read_inode : Ext2Fs D → ℕ → Fallible (ℕ × Inode)
  unfolding inode_offset map_err outcome_then
  read_inode fs addr = elim (inode_offset fs addr) [
    | none ↦ none
    | some offset ↦
        outcome_then (map_err device_read (api.read_bytes fs.block_device offset 128))
          (λ bytes. some (ok (addr, inode_try_from bytes)))
  ]

  unfoldable pub write_inode : ℕ → Inode → MountedFs D → Ran D ℕ
  unfolding inode_offset write_to_device
  write_inode addr inode s = elim (inode_offset s.fs addr) [
    | none ↦ none
    | some offset ↦ write_to_device api device_write offset (inode_into inode) s
  ]
