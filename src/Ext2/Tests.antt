-- ===== src/Ext2/Tests.antt =====
-- Reads and writes of a small file system on a memory device.
use muffin.Base.{ℕ, ◌-◌, ◌≡◌, refl, Option, none, some, List, [], ◌∷◌, take, drop, ok, arith, inl}
use Prim.Native.Nat.{min}
use muffin.BlockDevice.Sectors.{MemoryBlockDevice}
use muffin.Ext2.Storage.Blocks.{MountedFs, write_block}
use muffin.Ext2.Records.Bytefield.{◌&◌, AllFit, Fits, AreWords}
use muffin.Ext2.Storage.Cache.{IndirectCache}
use muffin.Ext2.Storage.Coherence.{block_pointer, Agrees, Follows}
use muffin.Ext2.Storage.Coherent.{InDevice, write_block-Agrees}
use muffin.Ext2.Files.FileReads.{Maps, read_from_file_lem}
use muffin.Ext2.Storage.Filesystem.{
  memory_disk, block_size, block_address, read_block, resolve_block_offset, checked_u32,
}
use muffin.Ext2.Storage.Flat.{IsWhole, memory_flat}
use muffin.Ext2.Records.InodeRecord.{inode_fields, inode_values}
use muffin.Ext2.Metadata.Inodes.{inode_offset, table_entry, read_inode, write_inode}
use muffin.Ext2.Metadata.InodeTrips.{read_inode-write_inode}
use muffin.Ext2.Storage.Pointers.{direct_ptr, resolve_block_index}
use muffin.Ext2.Files.Reads.{file_len, inode_typ, read_runs, read_from_file}
use muffin.Ext2.Files.Runs.{file_blocks, AllInDevice, read_runs_lem}
use muffin.Ext2.Storage.Transparent.{resolve_block_index-Follows}
use muffin.Ext2.Samples.{length-bytes, disk-IsWhole, fs, mounted, file, block_size_1024}

resolve_block_index-Follows_example :
    Follows memory_disk fs
      (resolve_block_index memory_disk fs file 13 [])
      (block_pointer memory_disk fs file 13)
unfolding Agrees
resolve_block_index-Follows_example =
    resolve_block_index-Follows memory_disk fs file 13 [] (omega (arith, block_size_1024))
      (omega (arith, block_size_1024)) tt

-- Blocks 2 and 3 lie on the disk.
block_2 : InDevice memory_disk memory_flat fs 2 1024
unfolding InDevice memory_flat
block_2 = (omega (arith, block_size_1024), omega (arith, block_size_1024, length-bytes))

block_3 : InDevice memory_disk memory_flat fs 3 1024
unfolding InDevice memory_flat
block_3 = (omega (arith, block_size_1024), omega (arith, block_size_1024, length-bytes))

write_block-Agrees_example :
    (s' : MountedFs MemoryBlockDevice) × ((write_block memory_disk 2 (1 ∷ 2 ∷ 3 ∷ []) mounted
        ≡ some (s', ok 3))
      × ((read_block memory_disk s'.fs 2 3 ≡ some (ok (1 ∷ 2 ∷ 3 ∷ [])))
          × ((read_block memory_disk s'.fs 3 1024 ≡ read_block memory_disk fs 3 1024)
              × (Agrees memory_disk s'.fs s'.indirect_cache × IsWhole s'.fs.block_device))))
unfolding memory_flat Agrees InDevice block_size
write_block-Agrees_example =
    write_block-Agrees memory_disk memory_flat mounted 2 3 (1 ∷ 2 ∷ 3 ∷ []) disk-IsWhole
      (omega arith) (omega arith) (omega arith, omega (arith, length-bytes)) (λ e. omega (arith, e))
      block_3 tt

abbrev pointers : List (Option ℕ)
pointers = some 2 ∷ some 3 ∷ none ∷ []

pointers-AllInDevice : AllInDevice memory_disk memory_flat fs pointers
unfolding AllInDevice block_size
pointers-AllInDevice = (block_2, (block_3, tt))

read_runs_lem_example :
    read_runs memory_disk 3 fs pointers
    ≡ some (ok (file_blocks memory_disk memory_flat fs pointers))
unfolding memory_flat
read_runs_lem_example =
    read_runs_lem memory_disk memory_flat fs 3 pointers disk-IsWhole (omega arith)
      pointers-AllInDevice

file-Maps : Maps memory_disk memory_flat fs file 0 (some 2 ∷ [])
unfolding Maps block_pointer direct_ptr block_address
file-Maps = (refl, tt)

file_len_10 : file_len file ≡ 10
unfolding file_len inode_typ
file_len_10 = refl

read_from_file_lem_example :
    (c' : IndirectCache) × ((read_from_file memory_disk fs file 3 4 []
        ≡ some (
          c',
          ok (
              take
                (min (file_len file - 3) 4)
                (drop 3 (file_blocks memory_disk memory_flat fs (some 2 ∷ [])))),
        ))
      × Agrees memory_disk fs c')
unfolding memory_flat Agrees AllInDevice block_size
read_from_file_lem_example =
    read_from_file_lem memory_disk memory_flat fs file 3 4 [] (some 2 ∷ []) disk-IsWhole
      (omega arith) (omega arith) (omega (arith, file_len_10)) (omega arith) (omega arith)
      (omega arith) file-Maps (block_2, tt) tt

-- The entries of inodes 2 and 3.
inode_2 : inode_offset memory_disk fs 2 ≡ some 1152
unfolding inode_offset table_entry resolve_block_offset checked_u32 block_address block_size
inode_2 = refl

inode_3 : inode_offset memory_disk fs 3 ≡ some 1280
unfolding inode_offset table_entry resolve_block_offset checked_u32 block_address block_size
inode_3 = refl

file-AllFit : AllFit inode_fields (inode_values file)
unfolding AllFit Fits AreWords inode_values
file-AllFit =
    (omega arith)
    & (omega arith)
    & (omega arith)
    & (omega arith)
    & (omega arith)
    & (omega arith)
    & (omega arith)
    & (omega arith)
    & (omega arith)
    & (omega arith)
    & (omega arith)
    & refl
    & (refl
        & (omega arith)
        & (omega arith)
        & (omega arith)
        & (omega arith)
        & (omega arith)
        & (omega arith)
        & (omega arith)
        & (omega arith)
        & (omega arith)
        & (omega arith)
        & (omega arith)
        & (omega arith)
        & tt)
    & (omega arith)
    & (omega arith)
    & (omega arith)
    & (omega arith)
    & (omega arith)
    & (omega arith)
    & (omega arith)
    & refl
    & tt

read_inode-write_inode_example :
    (s' : MountedFs MemoryBlockDevice) × ((write_inode memory_disk 2 file mounted
        ≡ some (s', ok 128))
      × ((read_inode memory_disk s'.fs 2 ≡ some (ok (2, file)))
          × (read_inode memory_disk s'.fs 3 ≡ read_inode memory_disk fs 3)))
unfolding memory_flat
read_inode-write_inode_example =
    read_inode-write_inode memory_disk memory_flat mounted 2 1152 3 1280 file disk-IsWhole
      file-AllFit inode_2 (omega (arith, length-bytes)) inode_3 (omega (arith, length-bytes))
      (inl (omega arith))
