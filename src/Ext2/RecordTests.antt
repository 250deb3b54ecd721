-- ===== src/Ext2/RecordTests.antt =====
-- Records on disk: the head of an entry, a bitmap, the entries of a block.
use muffin.Base.{ℕ, ◌≡◌, refl, true, some, List, [], ◌∷◌, ◌++◌, length, replicate, ok, arith}
use muffin.Ext2.Metadata.Allocation.{
  try_reserve_in_group_with_bitmap, first_free_bit, first_clear, after_scan, ran_then, unchanged,
}
use muffin.Ext2.Storage.Blocks.{MountedFs}
use muffin.Ext2.Records.Bytefield.{◌&◌, AllFit, Fits, from_bytes, write_fields, in_order}
use muffin.Ext2.Directory.Directories.{add_in_block, block_entries}
use muffin.Ext2.Directory.Entries.{DirEntry, entry_size, entry_from, serialize, last_byte}
use muffin.Ext2.Directory.EntryTrips.{IsEntry, HasTypeField, entry_from-serialize}
use muffin.Ext2.Records.Fields.{from_bytes-write_fields}
use muffin.Ext2.Storage.Filesystem.{
  DiskApi, block_size, read_block, resolve_block_offset, checked_u32, map_err,
}
use muffin.Ext2.Directory.Insertion.{place, behind, add_in_block_lem}
use muffin.Ext2.Metadata.Bitmaps.{IsFirstFree}
use muffin.Ext2.Metadata.Scanning.{try_reserve_in_group_with_bitmap_lem}
use muffin.Ext2.Directory.Slots.{Holds}
use muffin.Ext2.Records.SmallRecords.{
  DirEntryNoName, entry_head_fields, entry_head_into, entry_head_values,
}
use muffin.Ext2.Samples.{superblock, group}

-- The head of an entry, written over other bytes.
abbrev head : DirEntryNoName
head = record {
  inode = 12;
  total_size = 16;
  name_length_lsb = 1;
  type_indicator_or_name_length_msb = 2;
}

head-AllFit : AllFit entry_head_fields (entry_head_values head)
unfolding AllFit Fits entry_head_values
head-AllFit = (omega arith) & (omega arith) & (omega arith) & (omega arith) & tt

from_bytes-write_fields_example :
    from_bytes entry_head_fields
      (write_fields entry_head_fields (entry_head_values head) (replicate 8 255))
    ≡ entry_head_values head
unfolding in_order
from_bytes-write_fields_example =
    from_bytes-write_fields entry_head_fields (entry_head_values head) (replicate 8 255) 0 refl
      head-AllFit

-- A device that gives a bitmap of two bytes, whose tenth bit is the first clear one.
abbrev bitmap_disk : DiskApi (List ℕ) (Unit {0})
bitmap_disk = record {
  read_bytes = λ bits offset n. some (ok bits);
  write_bytes = λ offset bs bits. some (bits, ok (length bs));
}

abbrev with_bitmap : MountedFs (List ℕ)
with_bitmap = record {
  fs = record { block_device = 255 ∷ 1 ∷ []; superblock = superblock; bgdt = group ∷ [] };
  indirect_cache = [];
}

reserved :
    try_reserve_in_group_with_bitmap bitmap_disk 2 with_bitmap ≡ some (with_bitmap, ok (some 9))
unfolding try_reserve_in_group_with_bitmap read_block resolve_block_offset checked_u32 map_err
    block_size first_free_bit first_clear after_scan ran_then unchanged
reserved = refl

try_reserve_in_group_with_bitmap_lem_example :
    (bitmap : List ℕ) × ((read_block bitmap_disk with_bitmap.fs 2 (block_size superblock)
        ≡ some (ok bitmap))
      × (IsFirstFree bitmap 9
          × ((with_bitmap ≡ with_bitmap)
              × (try_reserve_in_group_with_bitmap bitmap_disk 2 with_bitmap
                  ≡ some (with_bitmap, ok (some 9))))))
try_reserve_in_group_with_bitmap_lem_example =
    try_reserve_in_group_with_bitmap_lem bitmap_disk 2 9 with_bitmap with_bitmap reserved

-- The entry of a file named "a" in inode 12, alone in a block of 32 bytes.
abbrev entry : DirEntry
entry = record {
  inode = 12;
  total_size = 32;
  name_length = 1;
  type_indicator = some 1;
  name_bytes = 97 ∷ [];
}

abbrev entry_bytes : List ℕ
entry_bytes = 12 ∷ 0 ∷ 0 ∷ 0 ∷ 32 ∷ 0 ∷ 1 ∷ 1 ∷ 97 ∷ []

entry-IsEntry : IsEntry true entry
unfolding HasTypeField
entry-IsEntry = record {
  inode_positive = omega arith;
  inode_small = omega arith;
  size_small = omega arith;
  name_small = omega arith;
  name_whole = refl;
  typ = (omega arith, (1, (omega arith, refl)));
}

entry_serialized : serialize true entry ≡ some entry_bytes
unfolding serialize last_byte entry_head_into entry_head_values write_fields
entry_serialized = refl

entry_size_1 : entry_size 1 ≡ some 12
unfolding entry_size
entry_size_1 = refl

abbrev block : List ℕ
block = entry_bytes ++ replicate 23 0

entry_from-serialize_example : entry_from true block ≡ some entry
entry_from-serialize_example =
    entry_from-serialize true entry entry_bytes (replicate 23 0) 12 entry-IsEntry entry_serialized
      entry_size_1 (omega arith)

block-Holds : Holds true block (entry ∷ [])
unfolding Holds
block-Holds = (
  record {
    is_entry = entry-IsEntry;
    bytes = entry_bytes;
    pad = replicate 23 0;
    written = entry_serialized;
    placed = refl;
    needed = 12;
    size = entry_size_1;
    covered = omega arith;
    inside = omega arith;
    aligned = omega arith;
    long = omega arith;
  },
  omega arith,
)

-- A file named "b" in inode 13.
abbrev added : DirEntry
added = record {
  inode = 13;
  total_size = 0;
  name_length = 1;
  type_indicator = some 1;
  name_bytes = 98 ∷ [];
}

added-IsEntry : IsEntry true added
unfolding HasTypeField
added-IsEntry = record {
  inode_positive = omega arith;
  inode_small = omega arith;
  size_small = omega arith;
  name_small = omega arith;
  name_whole = refl;
  typ = (omega arith, (1, (omega arith, refl)));
}

abbrev both : List DirEntry
both = record entry { total_size = 12 } ∷ record added { total_size = 20 } ∷ []

both_placed : place 12 added (entry ∷ []) ≡ some both
unfolding place entry_size behind
both_placed = refl

add_in_block_lem_example :
    (block' : List ℕ) × ((add_in_block 33 true 12 added block 0 ≡ some (some block'))
      × ((length block' ≡ 32) × (Holds true block' both × (block_entries true block' ≡ some both))))
add_in_block_lem_example =
    add_in_block_lem true 12 added block (entry ∷ []) both added-IsEntry (omega arith) entry_size_1
      (omega arith) block-Holds both_placed
