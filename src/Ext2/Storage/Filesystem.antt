-- ===== src/Ext2/Storage/Filesystem.antt =====
-- kernel/ext2/src/error.rs, address.rs, superblock.rs, lib.rs: the mounted file system, its block cache aside, and
-- reads of whole blocks. An outer `none` is a panic; an address is its number, which is never 0.
use muffin.Base.{
  ℕ, zero, suc, ◌*◌, ◌%◌, ◌^◌, Option, none, some, List, ltb, if◌then◌else◌, Result, ok, err,
}
use muffin.BlockDevice.Sectors.{MemoryBlockDevice, read_at, memory_device}
use muffin.BlockDevice.Writes.{write_at, memory_api}
use muffin.Ext2.Records.SmallRecords.{BlockGroupDescriptor}
use muffin.Ext2.Records.SuperblockRecord.{Superblock}

pub data Error : Type 0 where
  invalid_superblock : Error
  unable_to_read_superblock : Error
  unable_to_write_superblock : Error
  unable_to_read_block_group_descriptor_table : Error
  unable_to_write_block_group_descriptor_table : Error
  not_directory : Error
  not_regular_file : Error
  device_read : Error
  device_write : Error
  invalid_inode_address : ℕ → Error
  invalid_block_index : ℕ → Error
  no_space : Error
  not_supported : Error
  entry_exists : Error

-- What the file system calls of its device, whose state is in `D`: `read_at` gives the bytes that the buffer then holds.
pub record DiskApi (D E : Type 0) : Type 0 where
  pub read_bytes : D → ℕ → ℕ → Option (Result (List ℕ) E)
  pub write_bytes : ℕ → List ℕ → D → Option (D × Result ℕ E)

-- The memory device as a disk.
unfoldable pub memory_disk : DiskApi MemoryBlockDevice (Unit {0})
memory_disk = record {
  read_bytes = λ m offset n. read_at (memory_device m) offset n;
  write_bytes = λ offset bs m. write_at memory_api offset bs m;
}

-- `Ext2Fs` without its cache, the one field that changes behind a shared reference.
pub record Ext2Fs (D : Type 0) : Type 0 where
  pub block_device : D
  pub superblock : Superblock
  pub bgdt : List BlockGroupDescriptor

-- `BlockAddress::new`.
unfoldable pub block_address : ℕ → Option ℕ
block_address zero = none
block_address (suc n) = some (suc n)

-- A result of u32 arithmetic, which panics when it does not fit.
unfoldable pub checked_u32 : ℕ → Option ℕ
checked_u32 n = if ltb n (2 ^ 32) then some n else none

-- `Superblock::block_size`. A shift by 32 or more panics: `mount_with` tests that, so that no mounted file
-- system has such an amount.
unfoldable pub block_size : Superblock → ℕ
block_size s = 1024 * 2 ^ (s.log2_block_size % 32) % 2 ^ 32

-- What a computation that can panic or fail gives, and `?`.
abbrev pub Fallible : Type 0 → Type 0
Fallible A = Option (Result A Error)

unfoldable pub outcome_then : {A B : Type 0} → Fallible A → (A → Fallible B) → Fallible B
outcome_then none k = none
outcome_then (some (err e)) k = some (err e)
outcome_then (some (ok a)) k = k a

-- `map_err(|_| e)`.
unfoldable pub map_err : {A E : Type 0} → Error → Option (Result A E) → Fallible A
map_err e none = none
map_err e (some (err _)) = some (err e)
map_err e (some (ok a)) = some (ok a)

module _ {D E : Type 0} (api : DiskApi D E) where
  unfoldable pub resolve_block_offset : Ext2Fs D → ℕ → Option ℕ
  unfolding checked_u32 block_size
  resolve_block_offset fs addr = checked_u32 (addr * block_size fs.superblock)

  -- `read_block` into a buffer of `n` bytes: the bytes that it then holds.
  unfoldable pub read_block : Ext2Fs D → ℕ → ℕ → Fallible (List ℕ)
  unfolding resolve_block_offset map_err
  read_block fs addr n = elim (resolve_block_offset fs addr) [
    | none ↦ none
    | some offset ↦ map_err device_read (api.read_bytes fs.block_device offset n)
  ]
