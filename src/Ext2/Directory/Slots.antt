-- ===== src/Ext2/Directory/Slots.antt =====
-- kernel/ext2/src/dir.rs: when a block of a directory is well formed, and that its entries are then listed.
use mathlib.Core.Path.{subst}
use muffin.Base.{
  ℕ, zero, suc, ◌+◌, ◌-◌, ◌*◌, ◌/◌, ◌%◌, ◌^◌, ◌≤◌, ◌<◌, ◌≡◌, refl, sym, ap, Bool, true, false, some,
  List, [], ◌∷◌, ◌++◌, length, drop, ltb, arith, Bool-cases, inl, inr,
}
use muffin.BlockDevice.Reading.{length-drop, drop-drop}
use muffin.Ext2.Directory.Directories.{list_entries, block_entries}
use muffin.Ext2.Directory.Entries.{DirEntry, entry_size, entry_from, serialize}
use muffin.Ext2.Directory.EntryTrips.{IsEntry, entry_from-serialize}

-- The bytes from an offset on start with an entry, whose size covers its bytes and more than the loops' margin is left.
pub record EntrySlot (typed : Bool) (left : List ℕ) (e : DirEntry) : Type 0 where
  pub is_entry : IsEntry typed e
  pub bytes : List ℕ
  pub pad : List ℕ
  pub written : serialize typed e ≡ some bytes
  pub placed : left ≡ bytes ++ pad
  pub needed : ℕ
  pub size : entry_size e.name_length ≡ some needed
  pub covered : needed ≤ e.total_size
  pub inside : e.total_size ≤ length left
  pub aligned : e.total_size % 4 ≡ 0
  pub long : 8 < length left

-- The bytes are those of the entries, one after the other.
unfoldable pub Holds : Bool → List ℕ → List DirEntry → Type 0
Holds typed left [] = length left ≤ 8
Holds typed left (e ∷ es) = EntrySlot typed left e × Holds typed (drop e.total_size left) es

pub entry_from-EntrySlot :
    (typed : Bool) (left : List ℕ) (e : DirEntry)
    → EntrySlot typed left e
    → entry_from typed left ≡ some e
entry_from-EntrySlot typed left e slot =
    subst (λ l. entry_from typed l ≡ some e) (sym slot.placed)
      (entry_from-serialize typed e slot.bytes slot.pad slot.needed slot.is_entry slot.written
        slot.size (omega (arith, slot.covered, slot.inside, ap length slot.placed)))

-- The size of an entry covers its head and its name, by at most three bytes more, in words of four bytes.
pub needed-positive :
    (n needed : ℕ)
    → entry_size n ≡ some needed
    → (n + 8 ≤ needed) × ((needed ≤ n + 11) × (needed % 4 ≡ 0))
unfolding entry_size
needed-positive n needed e = elim (Bool-cases (ltb (n + 11) (2 ^ 16))) [
  | inl small ↦
      let at : some ((n + 11) / 4 * 4) ≡ some needed = rw (entry_size, small) at e in
      let same : (n + 11) / 4 * 4 ≡ needed = ground (arith, at) in
      (omega (arith, same), (omega (arith, same), omega (arith, same)))
  | inr large ↦ absurd (ground (arith, rw (entry_size, large) at e))
]

list_entries_lem :
    (fuel : ℕ) (typed : Bool) (block : List ℕ) (offset : ℕ) (es : List DirEntry)
    → length block - offset < fuel
    → Holds typed (drop offset block) es
    → list_entries fuel typed block offset ≡ some es
unfolding list_entries Holds
list_entries_lem zero typed block offset es enough h = absurd (omega (arith, enough))
list_entries_lem (suc fuel) typed block offset [] enough h =
    let done : ltb offset (length block - 8) ≡ false =
      ground (arith, h, length-drop offset block) in
    rw (list_entries, done) refl
list_entries_lem (suc fuel) typed block offset (e ∷ es) enough (slot, h) =
    let more : ltb offset (length block - 8) ≡ true =
      ground (arith, slot.long, length-drop offset block) in
    let first = entry_from-EntrySlot typed (drop offset block) e slot in
    let (positive, _) = needed-positive e.name_length slot.needed slot.size in
    let rest =
      list_entries_lem fuel typed block (offset + e.total_size) es
        (omega (arith, enough, positive, slot.covered, slot.long, length-drop offset block))
        (subst (λ l. Holds typed l es)
          (drop-drop offset e.total_size (offset + e.total_size) block refl) h) in
    rw (list_entries, more, first, rest) refl

-- The entries of a well-formed block are all listed, in their order; as many rounds as the block has bytes are enough.
pub block_entries_lem :
    (typed : Bool) (block : List ℕ) (es : List DirEntry)
    → Holds typed block es
    → block_entries typed block ≡ some es
unfolding block_entries
block_entries_lem typed block es h =
    list_entries_lem (suc (length block)) typed block 0 es (omega arith) h
