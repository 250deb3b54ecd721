-- ===== src/Ext2/Metadata/Groups.antt =====
-- kernel/ext2/src/lib.rs: the block groups that `try_new` reads.
use mathlib.Core.Path.{subst}
use native.Mathlib.Nat.{mod-lt, div-add-mod}
use muffin.Base.{
  ℕ, zero, suc, ◌+◌, ◌-◌, ◌*◌, ◌/◌, ◌==◌, if◌then◌else◌, get_elem?, ◌≤◌, ◌<◌, ◌≡◌, ◌∙◌, refl, sym,
  ap, none, some, List, [], ◌∷◌, length, take, drop, leb, arith, Bool-cases, Option-cases, inl, inr,
}
use muffin.BlockDevice.Reading.{take-drop-take, drop-drop}
use muffin.BlockDevice.Sectors.{slice}
use muffin.Ext2.Storage.Filesystem.{block_size}
use muffin.Ext2.Metadata.Mounting.{number_of_block_groups, read_groups}
use muffin.Ext2.Records.SmallRecords.{BlockGroupDescriptor, descriptor_try_from}
use muffin.Ext2.Records.SuperblockRecord.{Superblock}

-- As many groups as hold all blocks, the last perhaps in part.
abbrev pub IsGroupCount : Superblock → ℕ → Type 0
IsGroupCount s n =
    (s.num_blocks ≤ n * s.blocks_per_group)
    × (n * s.blocks_per_group < s.num_blocks + s.blocks_per_group)

div_up_bounds : (a b : ℕ) → 0 < b → (a ≤ (a + (b - 1)) / b * b) × ((a + (b - 1)) / b * b < a + b)
div_up_bounds a b pos =
    let split = div-add-mod (a + (b - 1)) b in
    let small = mod-lt (a + (b - 1)) pos in
    (omega (arith, split, small), omega (arith, split, small))

pub number_of_block_groups-IsGroupCount :
    (s : Superblock) (n : ℕ) → number_of_block_groups s ≡ some n → IsGroupCount s n
unfolding number_of_block_groups
number_of_block_groups-IsGroupCount s n e = elim (Bool-cases (s.blocks_per_group == 0)) [
  | inl none_per ↦ absurd (ground (arith, none_per, e))
  | inr some_per ↦
      let is : (s.num_blocks + (s.blocks_per_group - 1)) / s.blocks_per_group ≡ n =
        ground (arith, some_per, e) in
      subst (IsGroupCount s) is (div_up_bounds s.num_blocks s.blocks_per_group (ground arith))
]

-- Descriptor `j` is what the 32 bytes at its place of a table say.
pub read_groups_from :
    (n i j : ℕ) (table : List ℕ) (groups : List BlockGroupDescriptor)
    → read_groups n i table ≡ some groups
    → j < n
    → get_elem? groups j ≡ some (descriptor_try_from (take 32 (drop ((i + j) * 32) table)))
unfolding read_groups slice
read_groups_from zero i j table groups e less = absurd (omega arith)
read_groups_from (suc n) i j table groups e less =
    let bytes = take 32 (drop (i * 32) table) in
    elim (Bool-cases (leb (i * 32 + 32) (length table))) [
      | inr beyond ↦
          let panics : read_groups (suc n) i table ≡ none = rw (read_groups, slice, beyond) refl in
          absurd (ground (arith, e, panics))
      | inl fits ↦ elim (Option-cases (read_groups n (i + 1) table)) [
        | inl failed ↦
            let panics : read_groups (suc n) i table ≡ none =
              rw (read_groups, slice, fits, failed) refl in
            absurd (ground (arith, e, panics))
        | inr (more, rest) ↦
            let made : read_groups (suc n) i table ≡ some (descriptor_try_from bytes ∷ more) =
              rw (read_groups, slice, fits, rest) refl in
            let same : descriptor_try_from bytes ∷ more ≡ groups = ground (arith, made, e) in
            subst
              (λ gs.
                get_elem? gs j ≡ some (descriptor_try_from (take 32 (drop ((i + j) * 32) table))))
              same (at more j less (λ k below. read_groups_from n (i + 1) k table more rest below))
      ]
    ]
  where
    at :
        (more : List BlockGroupDescriptor) (j : ℕ)
        → j < suc n
        → ((k : ℕ)
            → k < n
            → get_elem? more k
              ≡ some (descriptor_try_from (take 32 (drop ((i + 1 + k) * 32) table))))
        → get_elem? (descriptor_try_from (take 32 (drop (i * 32) table)) ∷ more) j
          ≡ some (descriptor_try_from (take 32 (drop ((i + j) * 32) table)))
    at more zero below rest = let here : i + 0 ≡ i = omega arith in rw here refl
    at more (suc k) below rest =
        let shift : i + suc k ≡ i + 1 + k = omega arith in rw shift (rest k (omega (arith, below)))

-- Where the table of descriptors starts: behind the superblock, in the block after it.
abbrev pub table_start : ℕ → ℕ
table_start size = if size == 1024 then 2048 else size

-- What the device holds of descriptor `j`, of a file system with blocks of `size` bytes.
abbrev pub stored_descriptor : List ℕ → ℕ → ℕ → BlockGroupDescriptor
stored_descriptor contents size j =
    descriptor_try_from (take 32 (drop (table_start size + j * 32) contents))

-- The bytes of descriptor `j` in a table that was read.
pub table_bytes :
    (j start size : ℕ) (contents table : List ℕ)
    → table ≡ take size (drop start contents)
    → j * 32 + 32 ≤ size
    → take 32 (drop ((0 + j) * 32) table) ≡ take 32 (drop (start + j * 32) contents)
table_bytes j start size contents table is fits =
    let here : (0 + j) * 32 ≡ j * 32 = omega arith in
    rw here (
      ap (λ t. take 32 (drop (j * 32) t)) is
      ∙ take-drop-take (j * 32) 32 size (drop start contents) fits
      ∙ ap (take 32) (drop-drop start (j * 32) (start + j * 32) contents refl))

-- The groups of a superblock, as the device holds them: as many as it takes, all within one block, each with the
-- descriptor at its place.
abbrev pub HasGroups : List ℕ → Superblock → List BlockGroupDescriptor → Type 0
HasGroups contents s groups =
    IsGroupCount s (length groups)
    × (length groups * 32 ≤ block_size s)
    × ((j : ℕ)
        → j < length groups
        → get_elem? groups j ≡ some (stored_descriptor contents (block_size s) j))
    × (s.log2_block_size < 32)

-- The groups were all within the table.
pub read_groups_within :
    (n i : ℕ) (table : List ℕ) (groups : List BlockGroupDescriptor)
    → read_groups n i table ≡ some groups
    → i * 32 ≤ length table
    → (length groups ≡ n) × ((i + n) * 32 ≤ length table)
unfolding read_groups slice
read_groups_within zero i table groups e h =
    let same : [] ≡ groups = ground (arith, e) in (ap length (sym same), omega arith)
read_groups_within (suc n) i table groups e h =
    let bytes = take 32 (drop (i * 32) table) in
    elim (Bool-cases (leb (i * 32 + 32) (length table))) [
      | inr beyond ↦
          let panics : read_groups (suc n) i table ≡ none = rw (read_groups, slice, beyond) refl in
          absurd (ground (arith, e, panics))
      | inl fits ↦ elim (Option-cases (read_groups n (i + 1) table)) [
        | inl failed ↦
            let panics : read_groups (suc n) i table ≡ none =
              rw (read_groups, slice, fits, failed) refl in
            absurd (ground (arith, e, panics))
        | inr (more, rest) ↦
            let made : read_groups (suc n) i table ≡ some (descriptor_try_from bytes ∷ more) =
              rw (read_groups, slice, fits, rest) refl in
            let same : descriptor_try_from bytes ∷ more ≡ groups = ground (arith, made, e) in
            let (count, room) =
              read_groups_within n (i + 1) table more rest (ground (arith, fits)) in
            (sym (ap length same) ∙ omega (arith, count), omega (arith, room))
      ]
    ]
