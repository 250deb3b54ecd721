-- ===== src/Ext2/Metadata/Allocation.antt =====
-- kernel/ext2/src/lib.rs: the allocation of blocks and inodes from the bitmaps of the block groups.
use Prim.Native.Nat.{bit_and}
use muffin.Base.{
  ℕ, zero, suc, ◌+◌, ◌*◌, ◌^◌, Option, none, some, List, [], ◌∷◌, length, get_elem?, set, ◌==◌,
  if◌then◌else◌, ok, err,
}
use muffin.BlockDevice.Writes.{overwrite}
use muffin.Ext2.Storage.Blocks.{MountedFs, Ran, write_to_device, write_block}
use muffin.Ext2.Storage.Filesystem.{
  unable_to_read_block_group_descriptor_table, unable_to_write_block_group_descriptor_table,
  unable_to_write_superblock, DiskApi, block_address, checked_u32, block_size, Fallible, map_err,
  read_block,
}
use muffin.Ext2.Records.SmallRecords.{BlockGroupDescriptor, descriptor_into}
use muffin.Ext2.Records.SuperblockRecord.{Superblock, superblock_into}

abbrev pub superblock_offset : ℕ
superblock_offset = 1024

abbrev pub bgd_size : ℕ
bgd_size = 32

-- The first bit from `bit` on that is clear, among `n`.
unfoldable pub first_clear : ℕ → ℕ → ℕ → Option ℕ
first_clear zero bit byte = none
first_clear (suc n) bit byte =
    let rest = first_clear n (bit + 1) byte in
    if bit_and byte (2 ^ bit) == 0 then some bit else rest

-- The loop over the bytes from byte `i` on: `i * 8 + bit_index` of the first clear bit.
unfoldable pub first_free_bit : ℕ → List ℕ → Option ℕ
unfolding first_clear
first_free_bit i [] = none
first_free_bit i (byte ∷ bytes) =
    let rest = first_free_bit (i + 1) bytes in
    elim (first_clear 8 0 byte) [ none ↦ rest | some bit ↦ some (i * 8 + bit) ]

unfoldable pub ran_then : {D A B : Type 0} → Ran D A → (MountedFs D → A → Ran D B) → Ran D B
ran_then none k = none
ran_then (some (s, err e)) k = some (s, err e)
ran_then (some (s, ok a)) k = k s a

-- A computation that leaves the file system alone.
unfoldable pub unchanged : {D A : Type 0} → MountedFs D → Fallible A → Ran D A
unchanged s none = none
unchanged s (some x) = some (s, x)

-- A step that panics or gives a value.
unfoldable pub or_panic : {D A : Type 0} → MountedFs D → Option A → Ran D A
or_panic s none = none
or_panic s (some a) = some (s, ok a)

-- `bgdt_offset`.
unfoldable pub bgdt_offset : Superblock → ℕ
unfolding block_size
bgdt_offset s = if block_size s == 1024 then 2048 else block_size s

-- `n -= 1`, which panics at 0.
unfoldable pub decrement : ℕ → Option ℕ
decrement zero = none
decrement (suc n) = some n

-- `num_unallocated_blocks -= 1` in the descriptor of a group.
unfoldable pub take_from_group :
    ℕ → List BlockGroupDescriptor → Option (BlockGroupDescriptor × List BlockGroupDescriptor)
unfolding decrement
take_from_group i groups = elim (get_elem? groups i) [
  | none ↦ none
  | some d ↦ elim (decrement d.num_unallocated_blocks) [
    | none ↦ none
    | some n ↦ let d' = record d { num_unallocated_blocks = n } in some (d', set groups i d')
  ]
]

-- `num_unallocated_blocks -= 1` in the superblock.
unfoldable pub take_from_superblock : Superblock → Option Superblock
unfolding decrement
take_from_superblock s = elim (decrement s.num_unallocated_blocks) [
  | none ↦ none
  | some n ↦ some (record s { num_unallocated_blocks = n })
]

module _ {D E : Type 0} (api : DiskApi D E) where
  -- What the scan of a bitmap leads to. The bit that was found is set in the local copy only, which is then dropped; the copy is
  -- written back when no bit was clear.
  unfoldable pub after_scan : ℕ → List ℕ → MountedFs D → Option ℕ → Ran D (Option ℕ)
  unfolding write_block ran_then
  after_scan addr bitmap s none =
      ran_then (write_block api addr bitmap s) (λ s' _. some (s', ok none))
  after_scan addr bitmap s (some index) = some (s, ok (some index))

  unfoldable pub try_reserve_in_group_with_bitmap : ℕ → MountedFs D → Ran D (Option ℕ)
  unfolding read_block block_size first_free_bit after_scan ran_then unchanged
  try_reserve_in_group_with_bitmap addr s =
      ran_then (unchanged s (read_block api s.fs addr (block_size s.fs.superblock)))
        (λ s' bitmap. after_scan addr bitmap s' (first_free_bit 0 bitmap))

  -- The bitmap of a group, at the block that a field of its descriptor names; address 0 panics.
  unfoldable pub try_reserve_in_group :
      (BlockGroupDescriptor → ℕ) → ℕ → MountedFs D → Ran D (Option ℕ)
  unfolding block_address try_reserve_in_group_with_bitmap
  try_reserve_in_group field i s = elim (get_elem? s.fs.bgdt i) [
    | none ↦ none
    | some d ↦ elim (block_address (field d)) [
      | none ↦ none
      | some addr ↦ try_reserve_in_group_with_bitmap addr s
    ]
  ]

  -- The descriptor of a group, changed, merged into the table on the device.
  unfoldable pub write_descriptor : ℕ → MountedFs D → Ran D ℕ
  unfolding take_from_group bgdt_offset block_size map_err write_to_device ran_then unchanged
      or_panic overwrite descriptor_into
  write_descriptor i s = ran_then (or_panic s (take_from_group i s.fs.bgdt)) (λ s' (d, groups).
      let changed = record s' { fs = record s'.fs { bgdt = groups } } in
      let offset = bgdt_offset changed.fs.superblock in
      ran_then
        (unchanged changed (
          map_err unable_to_read_block_group_descriptor_table
            (api.read_bytes changed.fs.block_device offset (block_size changed.fs.superblock))))
        (λ s'' table.
          ran_then
            (or_panic s''
              (overwrite (i * bgd_size) (i * bgd_size + bgd_size) (descriptor_into d) table))
            (λ s3 merged.
              write_to_device api unable_to_write_block_group_descriptor_table offset merged s3)))

  -- The superblock, changed, on the device.
  unfoldable pub write_superblock : MountedFs D → Ran D ℕ
  unfolding take_from_superblock write_to_device ran_then or_panic superblock_into
  write_superblock s =
      ran_then (or_panic s (take_from_superblock s.fs.superblock)) (λ s' superblock.
        write_to_device api unable_to_write_superblock superblock_offset
          (superblock_into superblock)
          (record s' { fs = record s'.fs { superblock = superblock } }))

  -- The number of a resource from its group and its index there.
  unfoldable pub global_resource_num : ℕ → ℕ → ℕ → Option ℕ
  unfolding checked_u32
  global_resource_num per_group i index = checked_u32 (i * per_group + index)

  -- The body of the loop once a resource was found.
  unfoldable pub commit : ℕ → ℕ → ℕ → MountedFs D → Ran D (Option ℕ)
  unfolding write_descriptor write_superblock global_resource_num ran_then or_panic
  commit per_group i index s = ran_then (write_descriptor i s) (λ s' _.
      ran_then (write_superblock s') (λ s'' _.
        ran_then (or_panic s'' (global_resource_num per_group i index))
          (λ s3 number. some (s3, ok (some number)))))

  -- The loop over the groups from `i` on, with how many are left.
  unfoldable pub allocate_from :
      (BlockGroupDescriptor → ℕ) → ℕ → ℕ → ℕ → MountedFs D → Ran D (Option ℕ)
  unfolding try_reserve_in_group commit ran_then
  allocate_from field per_group zero i s = some (s, ok none)
  allocate_from field per_group (suc k) i s = ran_then (try_reserve_in_group field i s) (λ s' found.
      elim found [
        | none ↦ allocate_from field per_group k (i + 1) s'
        | some index ↦ commit per_group i index s'
      ])

  unfoldable pub allocate_resource : (BlockGroupDescriptor → ℕ) → ℕ → MountedFs D → Ran D (Option ℕ)
  unfolding allocate_from
  allocate_resource field per_group s = allocate_from field per_group (length s.fs.bgdt) 0 s

  -- The number as an address, where 0 is none.
  unfoldable pub as_address : Ran D (Option ℕ) → Ran D (Option ℕ)
  unfolding block_address ran_then
  as_address r = ran_then r (λ s number. elim number [
    | none ↦ some (s, ok none)
    | some n ↦ some (s, ok (block_address n))
  ])

  unfoldable pub allocate_block : MountedFs D → Ran D (Option ℕ)
  unfolding allocate_resource as_address
  allocate_block s =
      as_address
        (allocate_resource (λ d. d.block_usage_bitmap_block) s.fs.superblock.blocks_per_group s)

  unfoldable pub allocate_inode : MountedFs D → Ran D (Option ℕ)
  unfolding allocate_resource as_address
  allocate_inode s =
      as_address
        (allocate_resource (λ d. d.inode_usage_bitmap_block) s.fs.superblock.inodes_per_group s)
