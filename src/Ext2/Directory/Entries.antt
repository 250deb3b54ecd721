-- ===== src/Ext2/Directory/Entries.antt =====
-- kernel/ext2/src/dir.rs: the entries of a directory and their bytes. `none` is a panic, also that of a debug assertion.
use Prim.Native.Nat.{bit_and, bit_or}
use muffin.Base.{
  ℕ, ◌+◌, ◌*◌, ◌/◌, ◌%◌, ◌^◌, Bool, true, false, Option, none, some, List, ◌++◌, length, take, drop,
  ltb, leb, if◌then◌else◌,
}
use muffin.Ext2.Storage.Filesystem.{block_address}
use muffin.Ext2.Records.SmallRecords.{DirEntryNoName, entry_head_try_from, entry_head_into}

pub record DirEntry : Type 0 where
  pub inode : ℕ
  pub total_size : ℕ
  pub name_length : ℕ
  pub type_indicator : Option ℕ
  pub name_bytes : List ℕ

-- `DirEntry::size`: 8 bytes and the name, up to a multiple of 4, in u16 arithmetic.
unfoldable pub entry_size : ℕ → Option ℕ
entry_size name_length =
    if ltb (name_length + 11) (2 ^ 16) then some ((name_length + 11) / 4 * 4) else none

unfoldable pub name_length_of : Bool → DirEntryNoName → ℕ
name_length_of true head = head.name_length_lsb
name_length_of false head =
    bit_or head.name_length_lsb (head.type_indicator_or_name_length_msb * 2 ^ 8)

-- `DirType::from_bits_truncate`.
unfoldable pub type_of : Bool → DirEntryNoName → Option ℕ
type_of true head = some (bit_and head.type_indicator_or_name_length_msb 7)
type_of false head = none

-- The name and the address, once the head is known.
unfoldable pub entry_with_name : Bool → DirEntryNoName → List ℕ → Option DirEntry
unfolding entry_size name_length_of type_of block_address
entry_with_name typed head value =
    let n = name_length_of typed head in
    elim (entry_size n) [
      | none ↦ none
      | some required ↦
          if leb required (length value)
          then (elim (block_address head.inode) [
            | none ↦ none
            | some address ↦ some (record {
              inode = address;
              total_size = head.total_size;
              name_length = n;
              type_indicator = type_of typed head;
              name_bytes = take n (drop 8 value);
            })
          ])
          else none
    ]

-- `DirEntry::from`.
unfoldable pub entry_from : Bool → List ℕ → Option DirEntry
unfolding entry_with_name entry_head_try_from
entry_from typed value =
    if leb 8 (length value)
    then entry_with_name typed (entry_head_try_from (take 8 value)) value
    else none

-- The last byte of the head: the type, or the high byte of the name's length.
unfoldable pub last_byte : Bool → DirEntry → Option ℕ
last_byte true e = e.type_indicator
last_byte false e = some (e.name_length / 2 ^ 8 % 2 ^ 8)

-- `DirEntry::serialize`.
unfoldable pub serialize : Bool → DirEntry → Option (List ℕ)
unfolding last_byte
serialize typed e = elim (last_byte typed e) [
  | none ↦ none
  | some byte ↦ some (
      entry_head_into (record {
        inode = e.inode;
        total_size = e.total_size;
        name_length_lsb = e.name_length % 2 ^ 8;
        type_indicator_or_name_length_msb = byte;
      })
      ++ e.name_bytes)
]
