-- ===== src/Ext2/Files/Writes.antt =====
-- kernel/ext2/src/write.rs, inode.rs: writes of a file's bytes. `none` is a panic. The file's inode in memory keeps what
-- was changed before an error.
use muffin.Base.{
  ℕ, zero, suc, ◌+◌, ◌-◌, ◌/◌, ◌%◌, ◌^◌, ◌||◌, Option, none, some, List, [], ◌∷◌, length, take,
  drop, set, ltb, leb, ◌==◌, if◌then◌else◌, Result, ok, err,
}
use muffin.BlockDevice.Writes.{overwrite}
use muffin.Ext2.Metadata.Allocation.{allocate_block}
use muffin.Ext2.Storage.Blocks.{MountedFs, Ran, write_block}
use muffin.Ext2.Storage.Filesystem.{Error, no_space, DiskApi, checked_u32, block_size}
use muffin.Ext2.Records.InodeRecord.{Inode}
use muffin.Ext2.Metadata.Inodes.{write_inode}
use muffin.Ext2.Storage.Pointers.{Cached, resolve_block_index}
use muffin.Ext2.Files.Reads.{file_len, read_blocks_from_inode}

-- The file system, the inode of the file in memory, and the blocks that the write has allocated.
pub record WriteState (D : Type 0) : Type 0 where
  pub mounted : MountedFs D
  pub inode : Inode
  pub num_new_allocated_blocks : ℕ

abbrev pub Written : Type 0 → Type 0 → Type 0
Written D A = Option (WriteState D × Result A Error)

unfoldable pub written_then :
    {D A B : Type 0} → Written D A → (WriteState D → A → Written D B) → Written D B
written_then none k = none
written_then (some (s, err e)) k = some (s, err e)
written_then (some (s, ok a)) k = k s a

-- A step that changes the file system alone.
unfoldable pub on_mounted : {D A : Type 0} → WriteState D → Ran D A → Written D A
on_mounted s none = none
on_mounted s (some (m, x)) = some (record s { mounted = m }, x)

-- A step that changes the cache alone.
unfoldable pub on_cache : {D A : Type 0} → WriteState D → Cached A → Written D A
on_cache s none = none
on_cache s (some (c, x)) = some (record s { mounted = record s.mounted { indirect_cache = c } }, x)

-- The first direct pointer that is 0.
unfoldable pub free_slot : List ℕ → Option ℕ
free_slot [] = none
free_slot (word ∷ words) =
    let rest = free_slot words in
    if word == 0 then some 0 else (elim rest [ none ↦ none | some i ↦ some (suc i) ])

-- `set_direct_ptr` to a block.
unfoldable pub set_direct_ptr : ℕ → ℕ → Inode → Inode
set_direct_ptr i addr inode = record inode { direct_block_ptr = set inode.direct_block_ptr i addr }

module _ {D E : Type 0} (api : DiskApi D E) where
  -- The new block in the first free direct pointer; with all twelve in use the code is not done and panics.
  unfoldable pub attach : ℕ → ℕ → WriteState D → Written D ℕ
  unfolding free_slot set_direct_ptr write_inode written_then on_mounted
  attach number addr s = elim (free_slot s.inode.direct_block_ptr) [
    | none ↦ none
    | some slot ↦
        let s' = record s { inode = set_direct_ptr slot addr s.inode } in
        written_then (on_mounted s' (write_inode api number s'.inode s'.mounted))
          (λ s'' _. some (s'', ok addr))
  ]

  -- A block for a part of the file that has none.
  unfoldable pub attach_new : ℕ → WriteState D → Written D ℕ
  unfolding allocate_block attach written_then on_mounted
  attach_new number s = written_then (on_mounted s (allocate_block api s.mounted)) (λ s' found.
      elim found [
        | none ↦ some (s', err no_space)
        | some addr ↦
            attach number addr
              (record s' { num_new_allocated_blocks = s'.num_new_allocated_blocks + 1 })
      ])

  -- The address for a block of the file, new if it has none.
  unfoldable pub block_for_write : ℕ → ℕ → WriteState D → Written D ℕ
  unfolding resolve_block_index attach_new written_then on_cache
  block_for_write number index s =
      written_then
        (on_cache s (resolve_block_index api s.mounted.fs s.inode index s.mounted.indirect_cache))
        (λ s' found. elim found [ none ↦ attach_new number s' | some addr ↦ some (s', ok addr) ])

  -- The loop over `n` blocks from an index on, a chunk of the data for each.
  unfoldable pub write_file_blocks : ℕ → ℕ → ℕ → List ℕ → WriteState D → Written D ℕ
  unfolding block_for_write block_size write_block written_then on_mounted
  write_file_blocks number index zero bytes s = some (s, ok 0)
  write_file_blocks number index (suc n) bytes s =
      let size = block_size s.mounted.fs.superblock in
      written_then (block_for_write number index s) (λ s' addr.
        written_then (on_mounted s' (write_block api addr (take size bytes) s'.mounted))
          (λ s'' _. write_file_blocks number (index + 1) n (drop size bytes) s''))

  -- The length of the file, and the blocks counted as sectors.
  unfoldable pub grow : ℕ → ℕ → WriteState D → Written D ℕ
  unfolding file_len checked_u32 write_inode on_mounted
  grow number new_size s =
      if ltb (file_len s.inode) new_size
      then (elim (checked_u32 (s.inode.num_disk_sectors + s.num_new_allocated_blocks)) [
        | none ↦ none
        | some sectors ↦
            let s' = record s {
              inode = record s.inode {
                byte_size_lower = new_size % 2 ^ 32;
                byte_size_upper_or_dir_acl = new_size / 2 ^ 32 % 2 ^ 32;
                num_disk_sectors = sectors;
              };
            } in
            on_mounted s' (write_inode api number s'.inode s'.mounted)
      ])
      else some (s, ok 0)

  -- The read of the blocks from `start_block` to `end_block`, the copy into them, and their writes.
  unfoldable pub write_block_range : ℕ → ℕ → ℕ → ℕ → List ℕ → WriteState D → Written D ℕ
  unfolding read_blocks_from_inode overwrite write_file_blocks written_then on_cache
  write_block_range number start_block end_block relative bytes s =
      if ltb end_block start_block
      then none
      else (let count = end_block - start_block + 1 in
          written_then
            (on_cache s (
              read_blocks_from_inode api s.mounted.fs s.inode start_block count
                s.mounted.indirect_cache))
            (λ s' blocks. elim (overwrite relative (relative + length bytes) bytes blocks) [
              | none ↦ none
              | some blocks' ↦ write_file_blocks number start_block count blocks' s'
            ]))

  -- `write_to_file` for the inode with a number.
  unfoldable pub write_to_file : ℕ → Inode → ℕ → List ℕ → MountedFs D → Written D ℕ
  unfolding block_size write_block_range grow written_then
  write_to_file number inode offset bytes m =
      let size = block_size m.fs.superblock in
      let at = offset % 2 ^ 32 in
      let stop = at + length bytes % 2 ^ 32 in
      let s : WriteState D = record { mounted = m; inode = inode; num_new_allocated_blocks = 0 } in
      if (size == 0) || ((stop == 0) || leb (2 ^ 32) stop)
      then none
      else written_then
          (write_block_range number (at / size) ((stop - 1) / size) (at % size) bytes s)
          (λ s' _.
            written_then (grow number (at + length bytes) s')
              (λ s'' _. some (s'', ok (length bytes))))
