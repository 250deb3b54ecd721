-- ===== src/Ext2/Directory/EntryTrips.antt =====
-- kernel/ext2/src/dir.rs: an entry that was serialized is read back.
use Prim.Native.Nat.{bit_and}
use mathlib.Core.List.{append_assoc}
use mathlib.Core.Path.{subst}
use muffin.Base.{
  ℕ, zero, suc, ◌+◌, ◌/◌, ◌%◌, ◌^◌, ◌≤◌, ◌<◌, ◌≡◌, ◌∙◌, refl, sym, ap, Bool, true, false, none,
  some, List, ◌++◌, length, take, drop, replicate, length-append, leb, arith,
}
use muffin.Bits.{bit_or_shifted, bit_and_mask}
use muffin.Ext2.Records.Bytefield.{AllFit, Fits}
use muffin.Ext2.Directory.Entries.{
  DirEntry, entry_size, name_length_of, type_of, entry_with_name, entry_from, last_byte, serialize,
}
use muffin.Ext2.Files.FileBytes.{take-append, drop-append}
use muffin.Ext2.Storage.Filesystem.{block_address}
use muffin.Ext2.Metadata.InodeTrips.{length-write_fields}
use muffin.Ext2.Records.RecordTrips.{entry_head_try_from-entry_head_into}
use muffin.Ext2.Records.SmallRecords.{
  DirEntryNoName, entry_head_fields, entry_head_values, entry_head_try_from, entry_head_into,
}

pub length-entry_head_into : (head : DirEntryNoName) → length (entry_head_into head) ≡ 8
unfolding entry_head_into
length-entry_head_into head =
    length-write_fields entry_head_fields (entry_head_values head) (replicate 8 0)

-- The type that an entry has: one of 0 to 7 where entries have types, and none where they do not.
unfoldable pub HasTypeField : Bool → DirEntry → Type 0
HasTypeField true e = (e.name_length < 2 ^ 8) × ((t : ℕ) × ((t < 8) × (e.type_indicator ≡ some t)))
HasTypeField false e = e.type_indicator ≡ none

-- An entry whose fields agree with each other and fit their places on disk.
pub record IsEntry (typed : Bool) (e : DirEntry) : Type 0 where
  pub inode_positive : 0 < e.inode
  pub inode_small : e.inode < 2 ^ 32
  pub size_small : e.total_size < 2 ^ 16
  pub name_small : e.name_length + 11 < 2 ^ 16
  pub name_whole : length e.name_bytes ≡ e.name_length
  pub typ : HasTypeField typed e

-- What `last_byte` gives for such an entry, and what it says when read.
pub last_byte-Back :
    (typed : Bool) (e : DirEntry)
    → IsEntry typed e
    → (byte : ℕ) × ((last_byte typed e ≡ some byte)
        × ((byte < 2 ^ 8)
            × ((head : DirEntryNoName)
                → head.name_length_lsb ≡ e.name_length % 2 ^ 8
                → head.type_indicator_or_name_length_msb ≡ byte
                → (name_length_of typed head ≡ e.name_length)
                  × (type_of typed head ≡ e.type_indicator))))
unfolding last_byte name_length_of type_of HasTypeField
last_byte-Back true e h =
    let (short, (t, (small, here))) = h.typ in
    (
      t,
      (
        here,
        (
          omega (arith, small),
          λ head low byte. (
            omega (arith, low, short),
            ap some (ap (λ x. bit_and x 7) byte ∙ bit_and_mask 3 t small) ∙ sym here,
          ),
        ),
      ),
    )
last_byte-Back false e h = (
  e.name_length / 2 ^ 8 % 2 ^ 8,
  (
    refl,
    (
      omega arith,
      λ head low byte. (
        bit_or_shifted 8 head.name_length_lsb head.type_indicator_or_name_length_msb
              (omega (arith, low))
            ∙ omega (arith, low, byte, h.name_small),
        sym h.typ,
      ),
    ),
  ),
)

head-AllFit :
    (head : DirEntryNoName)
    → head.inode < 2 ^ 32
    → head.total_size < 2 ^ 16
    → head.name_length_lsb < 2 ^ 8
    → head.type_indicator_or_name_length_msb < 2 ^ 8
    → AllFit entry_head_fields (entry_head_values head)
unfolding AllFit Fits entry_head_values
head-AllFit head a b c d = (omega arith, (omega arith, (omega arith, (omega arith, tt))))

entry_from-head :
    (typed : Bool) (e : DirEntry) (head : DirEntryNoName) (rest : List ℕ)
    → AllFit entry_head_fields (entry_head_values head)
    → entry_from typed ((entry_head_into head ++ e.name_bytes) ++ rest)
      ≡ entry_with_name typed head ((entry_head_into head ++ e.name_bytes) ++ rest)
unfolding entry_from
entry_from-head typed e head rest fit =
    let bytes = entry_head_into head in
    let value = (bytes ++ e.name_bytes) ++ rest in
    let eight = length-entry_head_into head in
    let long : leb 8 (length value) ≡ true = ground (
      arith,
      length-append (bytes ++ e.name_bytes) rest,
      length-append bytes e.name_bytes,
      eight,
    ) in
    let front : take 8 value ≡ bytes =
      ap (take 8) (append_assoc bytes e.name_bytes rest)
      ∙ take-append 8 bytes (e.name_bytes ++ rest) eight in
    rw (entry_from, long)
      (ap (λ h. entry_with_name typed h value)
        (ap entry_head_try_from front ∙ entry_head_try_from-entry_head_into head fit))

pub block_address-positive : (n : ℕ) → 0 < n → block_address n ≡ some n
unfolding block_address
block_address-positive zero h = absurd (omega (arith, h))
block_address-positive (suc n) h = refl

entry_with_name_lem :
    (typed : Bool) (e : DirEntry) (head : DirEntryNoName) (value : List ℕ) (required : ℕ)
    → name_length_of typed head ≡ e.name_length
    → type_of typed head ≡ e.type_indicator
    → head.inode ≡ e.inode
    → head.total_size ≡ e.total_size
    → 0 < e.inode
    → entry_size e.name_length ≡ some required
    → required ≤ length value
    → take e.name_length (drop 8 value) ≡ e.name_bytes
    → entry_with_name typed head value ≡ some e
unfolding entry_with_name
entry_with_name_lem typed e head value required n t i size pos fits room name =
    let long : leb required (length value) ≡ true = ground (arith, room) in
    let address : block_address head.inode ≡ some e.inode =
      ap block_address i ∙ block_address-positive e.inode pos in
    rw (entry_with_name, n, fits, long, address, n, t, name, size) refl

-- An entry whose fields agree with each other and fit their places on disk, serialized and followed by any bytes that leave
-- room for its aligned size, is read back as the same entry, with the type of entries stored or not.
pub entry_from-serialize :
    (typed : Bool) (e : DirEntry) (bytes rest : List ℕ) (required : ℕ)
    → IsEntry typed e
    → serialize typed e ≡ some bytes
    → entry_size e.name_length ≡ some required
    → required ≤ length (bytes ++ rest)
    → entry_from typed (bytes ++ rest) ≡ some e
unfolding serialize
entry_from-serialize typed e bytes rest required h done fits room =
    let (byte, (at, (small, back))) = last_byte-Back typed e h in
    let head : DirEntryNoName = record {
      inode = e.inode;
      total_size = e.total_size;
      name_length_lsb = e.name_length % 2 ^ 8;
      type_indicator_or_name_length_msb = byte;
    } in
    let (n, t) = back head refl refl in
    let made : serialize typed e ≡ some (entry_head_into head ++ e.name_bytes) =
      rw (serialize, at) refl in
    let same : entry_head_into head ++ e.name_bytes ≡ bytes = ground (arith, made, done) in
    let eight = length-entry_head_into head in
    let name : take e.name_length (drop 8 ((entry_head_into head ++ e.name_bytes) ++ rest))
        ≡ e.name_bytes =
      ap (λ l. take e.name_length (drop 8 l))
        (append_assoc (entry_head_into head) e.name_bytes rest)
      ∙ ap (take e.name_length)
          (drop-append 8 0 (entry_head_into head) (e.name_bytes ++ rest) eight)
      ∙ take-append e.name_length e.name_bytes rest h.name_whole in
    let size = ap (λ l. length (l ++ rest)) same in
    subst (λ l. entry_from typed (l ++ rest) ≡ some e) same
      (entry_from-head typed e head rest
          (head-AllFit head h.inode_small h.size_small (omega arith) small)
        ∙ entry_with_name_lem typed e head ((entry_head_into head ++ e.name_bytes) ++ rest) required
            n t refl refl h.inode_positive fits (omega (arith, size, room)) name)
