-- ===== src/Ext2/Directory/Merging.antt =====
-- kernel/ext2/src/dir.rs: a new entry merged into the slot of another, and the slots before it kept.
use muffin.Base.{
  ℕ, zero, suc, ◌+◌, ◌-◌, ◌%◌, ◌^◌, ◌≤◌, ◌<◌, ◌≡◌, ◌∙◌, refl, sym, ap, Bool, true, false, not, ◌==◌,
  some, List, [], ◌∷◌, ◌++◌, length, take, drop, arith, length-append,
}
use muffin.BlockDevice.Reading.{length-drop}
use muffin.BlockDevice.Splices.{take-drop, length-splice, take-drop-splice}
use muffin.BlockDevice.Writes.{splice, overwrite}
use muffin.Ext2.Directory.Directories.{merge_entries}
use muffin.Ext2.Directory.Entries.{DirEntry, entry_size, serialize}
use muffin.Ext2.Directory.EntryTrips.{IsEntry, HasTypeField, last_byte-Back, length-entry_head_into}
use muffin.Ext2.Records.Fields.{take-drop-splice_before}
use muffin.Ext2.Directory.Slots.{EntrySlot, needed-positive}
use muffin.Ext2.Records.SmallRecords.{DirEntryNoName, entry_head_into}

resize-HasTypeField :
    (typed : Bool) (e : DirEntry) (t : ℕ)
    → HasTypeField typed e
    → HasTypeField typed (record e { total_size = t })
unfolding HasTypeField
resize-HasTypeField true e t h = h
resize-HasTypeField false e t h = h

pub resize-IsEntry :
    (typed : Bool) (e : DirEntry) (t : ℕ)
    → t < 2 ^ 16
    → IsEntry typed e
    → IsEntry typed (record e { total_size = t })
resize-IsEntry typed e t small h = record {
  inode_positive = h.inode_positive;
  inode_small = h.inode_small;
  size_small = small;
  name_small = h.name_small;
  name_whole = h.name_whole;
  typ = resize-HasTypeField typed e t h.typ;
}

pub serialize-IsEntry :
    (typed : Bool) (e : DirEntry)
    → IsEntry typed e
    → (bytes : List ℕ) × ((serialize typed e ≡ some bytes) × (length bytes ≡ e.name_length + 8))
unfolding serialize
serialize-IsEntry typed e h =
    let (byte, (at, _)) = last_byte-Back typed e h in
    let head : DirEntryNoName = record {
      inode = e.inode;
      total_size = e.total_size;
      name_length_lsb = e.name_length % 2 ^ 8;
      type_indicator_or_name_length_msb = byte;
    } in
    (
      entry_head_into head ++ e.name_bytes,
      (
        rw (serialize, at) refl,
        omega (
          arith,
          length-append (entry_head_into head) e.name_bytes,
          length-entry_head_into head,
          h.name_whole,
        ),
      ),
    )

-- A slot from the bytes that it starts with.
pub make_slot :
    (typed : Bool) (left : List ℕ) (e : DirEntry) (bytes : List ℕ) (needed : ℕ)
    → IsEntry typed e
    → serialize typed e ≡ some bytes
    → take (length bytes) left ≡ bytes
    → entry_size e.name_length ≡ some needed
    → needed ≤ e.total_size
    → e.total_size ≤ length left
    → e.total_size % 4 ≡ 0
    → 8 < length left
    → EntrySlot typed left e
make_slot typed left e bytes needed h written front size covered inside aligned long = record {
  is_entry = h;
  bytes = bytes;
  pad = drop (length bytes) left;
  written = written;
  placed = sym (take-drop (length bytes) left) ∙ ap (λ l. l ++ drop (length bytes) left) front;
  needed = needed;
  size = size;
  covered = covered;
  inside = inside;
  aligned = aligned;
  long = long;
}

pub drop-splice_after :
    (o p : ℕ) (bs ys : List ℕ) → o + length bs ≤ p → drop p (splice o bs ys) ≡ drop p ys
unfolding splice
drop-splice_after o p bs [] h = refl
drop-splice_after zero p [] (y ∷ ys) h = refl
drop-splice_after zero zero (b ∷ bs) (y ∷ ys) h = absurd (omega (arith, h))
drop-splice_after zero (suc p) (b ∷ bs) (y ∷ ys) h =
    drop-splice_after zero p bs ys (omega (arith, h))
drop-splice_after (suc o) zero bs (y ∷ ys) h = absurd (omega (arith, h))
drop-splice_after (suc o) (suc p) bs (y ∷ ys) h = drop-splice_after o p bs ys (omega (arith, h))

overwrite-some :
    (o : ℕ) (bs ys : List ℕ)
    → o + length bs ≤ length ys
    → overwrite o (o + length bs) bs ys ≡ some (splice o bs ys)
unfolding overwrite
overwrite-some o bs ys h = ground arith

-- What the block is after the merge: the bytes of the shrunk entry and of the new one, each at its place.
pub record Merged (typed : Bool) (offset size : ℕ) (old new : DirEntry) (block block' : List ℕ)
    : Type 0 where
  pub same_length : length block' ≡ length block
  pub before : take offset block' ≡ take offset block
  pub after : drop (offset + old.total_size) block' ≡ drop (offset + old.total_size) block
  pub shrunk : EntrySlot typed (drop offset block') (record old { total_size = size })
  pub added :
      EntrySlot typed
        (drop (offset + size) block')
        (record new { total_size = old.total_size - size })

pub merge_entries-Merged :
    (typed : Bool) (offset size required : ℕ) (old new : DirEntry) (block : List ℕ)
    → offset % 4 ≡ 0
    → EntrySlot typed (drop offset block) old
    → entry_size old.name_length ≡ some size
    → entry_size new.name_length ≡ some required
    → required + size ≤ old.total_size
    → 0 < new.name_length
    → IsEntry typed new
    → (block' : List ℕ) × ((merge_entries typed offset size old new block ≡ some block')
        × Merged typed offset size old new block block')
unfolding merge_entries
merge_entries-Merged typed offset size required old new block aligned slot size_of_old size_of_new
      room named h =
    let small : IsEntry typed (record old { total_size = size }) =
      resize-IsEntry typed old size (omega (arith, room, slot.is_entry.size_small)) slot.is_entry in
    let fresh : IsEntry typed (record new { total_size = old.total_size - size }) =
      resize-IsEntry typed new (old.total_size - size) (omega (arith, slot.is_entry.size_small))
        h in
    let (bs, (wrote, len)) = serialize-IsEntry typed (record old { total_size = size }) small in
    let (cs, (wrote', len')) =
      serialize-IsEntry typed (record new { total_size = old.total_size - size }) fresh in
    let (fit, (_, four)) = needed-positive old.name_length size size_of_old in
    let (fit', (_, four')) = needed-positive new.name_length required size_of_new in
    let left = length-drop offset block in
    let end : offset + old.total_size ≤ length block =
      omega (arith, slot.inside, left, slot.long) in
    let one = splice offset bs block in
    let two = splice (offset + size) cs one in
    let l1 = length-splice offset bs block in
    let l2 = length-splice (offset + size) cs one in
    let even : not ((offset + size) % 4 == 0) ≡ false = ground (arith, aligned, four) in
    let first = overwrite-some offset bs block (omega (arith, len, fit, end, room)) in
    let second = overwrite-some (offset + size) cs one (omega (arith, len', fit', end, room, l1)) in
    (
      two,
      (
        rw (merge_entries, wrote, first, even, wrote', second) refl,
        record {
          same_length = l2 ∙ l1;
          before =
              take-drop-splice_before (offset + size) 0 offset cs one (omega arith)
              ∙ take-drop-splice_before offset 0 offset bs block (omega arith);
          after =
              drop-splice_after (offset + size) (offset + old.total_size) cs one
                (omega (arith, len', fit', room))
              ∙ drop-splice_after offset (offset + old.total_size) bs block
                  (omega (arith, len, fit, room));
          shrunk =
              make_slot typed (drop offset two) (record old { total_size = size }) bs size small
                wrote
                (take-drop-splice_before (offset + size) offset (length bs) cs one
                    (omega (arith, len, fit))
                  ∙ take-drop-splice offset bs block (omega (arith, len, fit, end, room)))
                size_of_old (omega arith) (omega (arith, room, end, l1, l2, length-drop offset two))
                four (omega (arith, slot.long, left, l1, l2, length-drop offset two));
          added =
              make_slot typed (drop (offset + size) two)
                (record new { total_size = old.total_size - size }) cs required fresh wrote'
                (take-drop-splice (offset + size) cs one (omega (arith, len', fit', end, room, l1)))
                size_of_new (omega (arith, room))
                (omega (arith, room, end, l1, l2, length-drop (offset + size) two))
                (omega (arith, four, slot.aligned, room))
                (omega
                  (arith, room, end, l1, l2, four', fit', named, length-drop (offset + size) two));
        },
      ),
    )
