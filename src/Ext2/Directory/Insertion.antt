-- ===== src/Ext2/Directory/Insertion.antt =====
-- kernel/ext2/src/dir.rs: the loop that adds an entry to a block, as what it does to the list of entries.
use mathlib.Core.Path.{subst}
use muffin.Base.{
  ℕ, zero, suc, ◌+◌, ◌-◌, ◌%◌, ◌^◌, ◌≤◌, ◌<◌, ◌≡◌, ◌∙◌, refl, sym, ap, Bool, true, false, not, ◌==◌,
  Option, none, some, List, [], ◌∷◌, length, take, drop, ltb, leb, if◌then◌else◌, arith, Bool-cases,
  inl, inr,
}
use muffin.BlockDevice.Reading.{length-drop, drop-drop, take-drop-take}
use muffin.Ext2.Directory.Directories.{try_entry, add_in_block, block_entries}
use muffin.Ext2.Directory.Entries.{DirEntry, entry_size}
use muffin.Ext2.Directory.EntryTrips.{IsEntry}
use muffin.Ext2.Files.FileBytes.{take-append}
use muffin.Ext2.Directory.Merging.{serialize-IsEntry, make_slot, Merged, merge_entries-Merged}
use muffin.Ext2.Directory.Slots.{
  EntrySlot, Holds, entry_from-EntrySlot, needed-positive, block_entries_lem,
}

-- An entry before those that a search changed.
unfoldable pub behind : DirEntry → Option (List DirEntry) → Option (List DirEntry)
behind e none = none
behind e (some es) = some (e ∷ es)

-- The entries with a new one after the first that leaves `required` bytes, which shrinks to its own size.
unfoldable pub place : ℕ → DirEntry → List DirEntry → Option (List DirEntry)
unfolding entry_size behind
place required new [] = none
place required new (e ∷ es) =
    let rest = place required new es in
    elim (entry_size e.name_length) [
      | none ↦ none
      | some size ↦
          if leb (required + size) e.total_size
          then some (
              record e { total_size = size } ∷ record new { total_size = e.total_size - size } ∷ es)
          else behind e rest
    ]

slot_front :
    (typed : Bool) (left : List ℕ) (e : DirEntry) (slot : EntrySlot typed left e)
    → take (length slot.bytes) left ≡ slot.bytes
slot_front typed left e slot =
    ap (take (length slot.bytes)) slot.placed
    ∙ take-append (length slot.bytes) slot.bytes slot.pad refl

slot_bytes_le :
    (typed : Bool) (left : List ℕ) (e : DirEntry) (slot : EntrySlot typed left e)
    → length slot.bytes ≤ e.total_size
slot_bytes_le typed left e slot =
    let (bs, (wrote, len)) = serialize-IsEntry typed e slot.is_entry in
    let same : slot.bytes ≡ bs = ground (arith, slot.written, wrote) in
    let (fit, _) = needed-positive e.name_length slot.needed slot.size in
    omega (arith, ap length same, len, fit, slot.covered)

-- A slot stays when the bytes up to its end do.
keep_slot :
    (typed : Bool) (offset : ℕ) (e : DirEntry) (block block' : List ℕ)
    → length block' ≡ length block
    → take (offset + e.total_size) block' ≡ take (offset + e.total_size) block
    → EntrySlot typed (drop offset block) e
    → EntrySlot typed (drop offset block') e
keep_slot typed offset e block block' same front slot =
    let n = length slot.bytes in
    let short = slot_bytes_le typed (drop offset block) e slot in
    let cut = offset + e.total_size in
    let bytes : take n (drop offset block') ≡ slot.bytes =
      sym (take-drop-take offset n cut block' (omega (arith, short)))
      ∙ ap (λ l. take n (drop offset l)) front
      ∙ take-drop-take offset n cut block (omega (arith, short))
      ∙ slot_front typed (drop offset block) e slot in
    make_slot typed (drop offset block') e slot.bytes slot.needed slot.is_entry slot.written bytes
      slot.size slot.covered
      (omega (arith, slot.inside, same, length-drop offset block, length-drop offset block'))
      slot.aligned
      (omega (arith, slot.long, same, length-drop offset block, length-drop offset block'))

-- What adding gives, for the entries from an offset on.
record Added (typed : Bool) (offset : ℕ) (block block' : List ℕ) (es' : List DirEntry)
    : Type 0 where
  same_length : length block' ≡ length block
  before : take offset block' ≡ take offset block
  holds : Holds typed (drop offset block') es'

-- After a merge, the block holds the two entries and those after them.
Merged-Added :
    (typed : Bool) (offset size : ℕ) (old new : DirEntry) (block block' : List ℕ)
    (es : List DirEntry)
    → size ≤ old.total_size
    → Holds typed (drop old.total_size (drop offset block)) es
    → Merged typed offset size old new block block'
    → Added typed offset block block'
        (record old { total_size = size } ∷ record new { total_size = old.total_size - size } ∷ es)
unfolding Holds
Merged-Added typed offset size old new block block' es le h m =
    let next : drop size (drop offset block') ≡ drop (offset + size) block' =
      drop-drop offset size (offset + size) block' refl in
    let rest : drop (old.total_size - size) (drop (offset + size) block')
        ≡ drop old.total_size (drop offset block) =
      drop-drop (offset + size) (old.total_size - size) (offset + old.total_size) block'
        (omega (arith, le))
      ∙ m.after
      ∙ sym (drop-drop offset old.total_size (offset + old.total_size) block refl) in
    record {
      same_length = m.same_length;
      before = m.before;
      holds = (
        m.shrunk,
        subst
            (λ l.
              EntrySlot typed l (record new { total_size = old.total_size - size })
              × Holds typed (drop (old.total_size - size) l) es)
            (sym next) (m.added, subst (λ l. Holds typed l es) (sym rest) h),
      );
    }

-- An entry passed over is kept.
passed-Added :
    (typed : Bool) (offset : ℕ) (e : DirEntry) (block block' : List ℕ) (es' : List DirEntry)
    → EntrySlot typed (drop offset block) e
    → Added typed (offset + e.total_size) block block' es'
    → Added typed offset block block' (e ∷ es')
unfolding Holds
passed-Added typed offset e block block' es' slot a = record {
  same_length = a.same_length;
  before =
      sym (take-drop-take 0 offset (offset + e.total_size) block' (omega arith))
      ∙ ap (take offset) a.before
      ∙ take-drop-take 0 offset (offset + e.total_size) block (omega arith);
  holds = (
    keep_slot typed offset e block block' a.same_length a.before slot,
    subst (λ l. Holds typed l es')
        (sym (drop-drop offset e.total_size (offset + e.total_size) block' refl)) a.holds,
  );
}

behind-some :
    (e : DirEntry) (o : Option (List DirEntry)) (es' : List DirEntry)
    → behind e o ≡ some es'
    → (es : List DirEntry) × ((o ≡ some es) × (e ∷ es ≡ es'))
unfolding behind
behind-some e none es' h = absurd (ground (arith, h))
behind-some e (some es) es' h = (es, (refl, ground (arith, h)))

module _ (typed : Bool) (required : ℕ) (new : DirEntry) (h : IsEntry typed new)
    (named : 0 < new.name_length) (fits : entry_size new.name_length ≡ some required) where
  add_from :
      (fuel : ℕ) (block : List ℕ) (offset : ℕ) (es es' : List DirEntry)
      → length block - offset < fuel
      → length block + required < 2 ^ 16
      → offset % 4 ≡ 0
      → Holds typed (drop offset block) es
      → place required new es ≡ some es'
      → (block' : List ℕ) × ((add_in_block fuel typed required new block offset
            ≡ some (some block'))
          × Added typed offset block block' es')
  unfolding add_in_block Holds place try_entry
  add_from zero block offset es es' enough limit aligned holds e = absurd (omega (arith, enough))
  add_from (suc fuel) block offset [] es' enough limit aligned holds e = absurd (ground (arith, e))
  add_from (suc fuel) block offset (x ∷ es) es' enough limit aligned (slot, holds) e =
      let left = length-drop offset block in
      let more : ltb offset (length block - 8) ≡ true = ground (arith, slot.long, left) in
      let even : not (offset % 4 == 0) ≡ false = ground (arith, aligned) in
      let first = entry_from-EntrySlot typed (drop offset block) x slot in
      let size = slot.needed in
      let small : leb (2 ^ 16) (required + size) ≡ false =
        ground (arith, limit, slot.covered, slot.inside, left) in
      elim (Bool-cases (leb (required + size) x.total_size)) [
        | inl room ↦
            let (block', (merged, m)) =
              merge_entries-Merged typed offset size required x new block aligned slot slot.size
                fits (ground (arith, room)) named h in
            let same : record x { total_size = size }
                  ∷ record new { total_size = x.total_size - size }
                  ∷ es
                ≡ es' =
              let at : place required new (x ∷ es)
                  ≡ some (
                      record x { total_size = size }
                      ∷ record new { total_size = x.total_size - size }
                      ∷ es) =
                rw (place, slot.size, room) refl in
              ground (arith, at, e) in
            (
              block',
              (
                rw (add_in_block, more, even, first, try_entry, slot.size, small, room, merged)
                    refl,
                subst (Added typed offset block block') same (
                    Merged-Added typed offset size x new block block' es (ground (arith, room))
                      holds m),
              ),
            )
        | inr tight ↦
            let passed : place required new (x ∷ es) ≡ behind x (place required new es) =
              rw (place, slot.size, tight) refl in
            let (later, (found, same)) =
              behind-some x (place required new es) es' (sym passed ∙ e) in
            let (positive, (_, four)) = needed-positive x.name_length size slot.size in
            let onward = drop-drop offset x.total_size (offset + x.total_size) block refl in
            let (block', (done, a)) =
              add_from fuel block (offset + x.total_size) es later
                (omega (arith, enough, positive, slot.covered, slot.long, left)) limit
                (omega (arith, aligned, slot.aligned)) (subst (λ l. Holds typed l es) onward holds)
                found in
            (
              block',
              (
                rw (add_in_block, more, even, first, try_entry, slot.size, small, tight, done) refl,
                subst (Added typed offset block block') same
                    (passed-Added typed offset x block block' later slot a),
              ),
            )
      ]

-- Adding an entry with a name to a well-formed block of a directory, in which some entry leaves room for it: the loop ends and gives a block
-- of the same length that is well formed again and whose entries are the old ones, where the first entry that leaves the room has shrunk to its own size
-- and the new entry follows it with the rest. The block is so short that its length and the new entry's size fit 16 bits together.
pub add_in_block_lem :
    (typed : Bool) (required : ℕ) (new : DirEntry) (block : List ℕ) (es es' : List DirEntry)
    → IsEntry typed new
    → 0 < new.name_length
    → entry_size new.name_length ≡ some required
    → length block + required < 2 ^ 16
    → Holds typed block es
    → place required new es ≡ some es'
    → (block' : List ℕ) × ((add_in_block (suc (length block)) typed required new block 0
          ≡ some (some block'))
        × ((length block' ≡ length block)
            × (Holds typed block' es' × (block_entries typed block' ≡ some es'))))
add_in_block_lem typed required new block es es' h named fits limit holds e =
    let (block', (done, a)) =
      add_from typed required new h named fits (suc (length block)) block 0 es es' (omega arith)
        limit (omega arith) holds e in
    (block', (done, (a.same_length, (a.holds, block_entries_lem typed block' es' a.holds))))
