-- ===== src/Ext2/Metadata/Mounts.antt =====
-- kernel/ext2/src/lib.rs: what a file system that was mounted holds.
use mathlib.Core.Path.{subst}
use muffin.Base.{
  ℕ, ◌+◌, ◌*◌, ◌≤◌, ◌<◌, ◌≡◌, ◌∙◌, refl, sym, ap, Option, none, some, List, [], length, take, drop,
  leb, ok, err, arith, Bool-cases, Option-cases, inl, inr,
}
use muffin.BlockDevice.Reading.{length-take, length-drop}
use muffin.Ext2.Metadata.Allocation.{bgdt_offset}
use muffin.Ext2.Storage.Blocks.{MountedFs}
use muffin.Ext2.Storage.Coherent.{map_err_ok, then_ok}
use muffin.Ext2.Storage.Filesystem.{
  Error, unable_to_read_superblock, unable_to_read_block_group_descriptor_table, DiskApi, Fallible,
  outcome_then, map_err, block_size,
}
use muffin.Ext2.Storage.Flat.{FlatDisk}
use muffin.Ext2.Metadata.Mounting.{
  number_of_block_groups, read_groups, with_groups, mount_with, mount_device,
}
use muffin.Ext2.Metadata.Groups.{
  IsGroupCount, number_of_block_groups-IsGroupCount, read_groups_from, table_bytes, HasGroups,
  read_groups_within,
}
use muffin.Ext2.Records.SmallRecords.{BlockGroupDescriptor, descriptor_try_from}
use muffin.Ext2.Records.SuperblockRecord.{Superblock, superblock_try_from}

then_some :
    {A B : Type 0} (r : Fallible A) (a : A) (k : A → Fallible B) (x : Fallible B)
    → r ≡ some (ok a)
    → outcome_then r k ≡ x
    → k a ≡ x
unfolding outcome_then
then_some none a k x e h = absurd (ground (arith, e))
then_some (some (err y)) a k x e h = absurd (ground (arith, e))
then_some (some (ok b)) a k x e h = let same : b ≡ a = ground (arith, e) in ap k (sym same) ∙ h

with_groups_ok :
    {D : Type 0} (d : D) (superblock : Superblock) (o : Option (List BlockGroupDescriptor))
    (m : MountedFs D)
    → with_groups d superblock o ≡ some (ok m)
    → (groups : List BlockGroupDescriptor) × ((o ≡ some groups)
        × (record {
          fs = record { block_device = d; superblock = superblock; bgdt = groups };
          indirect_cache = [];
        }
            ≡ m))
unfolding with_groups
with_groups_ok d superblock none m e = absurd (ground (arith, e))
with_groups_ok d superblock (some groups) m e = (groups, (refl, ground (arith, e)))

module _ {D E : Type 0} (api : DiskApi D E) (flat : FlatDisk api) where
  -- What a read that succeeds gave.
  read_gives :
      (d : D) (offset n : ℕ) (bytes : List ℕ) (e : Error)
      → flat.IsSound d
      → 0 < n
      → map_err e (api.read_bytes d offset n) ≡ some (ok bytes)
      → (offset + n ≤ length (flat.contents d)) × (bytes ≡ take n (drop offset (flat.contents d)))
  read_gives d offset n bytes e sound pos h =
      let got = map_err_ok e (api.read_bytes d offset n) bytes h in
      let room = flat.read_only_within d offset n bytes sound pos got in
      (room, ground (arith, got, flat.read_within d offset n sound room))

  -- A file system that was mounted has the superblock that was read.
  mount_with_superblock :
      (d : D) (superblock : Superblock) (m : MountedFs D)
      → mount_with api d superblock ≡ some (ok m)
      → superblock ≡ m.fs.superblock
  unfolding mount_with
  mount_with_superblock d superblock m e = elim (Option-cases (number_of_block_groups superblock)) [
    | inl zero_groups ↦
        let panics : mount_with api d superblock ≡ none = rw (mount_with, zero_groups) refl in
        absurd (ground (arith, panics, e))
    | inr (n, count) ↦ elim (Bool-cases (leb 32 superblock.log2_block_size)) [
      | inl over ↦
          let panics : mount_with api d superblock ≡ none = rw (mount_with, count, over) refl in
          absurd (ground (arith, panics, e))
      | inr shifts ↦
          let read =
            map_err unable_to_read_block_group_descriptor_table
              (api.read_bytes d (bgdt_offset superblock) (block_size superblock)) in
          let k : List ℕ → Fallible (MountedFs D) =
            λ table. with_groups d superblock (read_groups n 0 table) in
          let shape : mount_with api d superblock ≡ outcome_then read k =
            rw (mount_with, count, shifts) refl in
          let (table, got) = then_ok read k m (sym shape ∙ e) in
          let rest : with_groups d superblock (read_groups n 0 table) ≡ some (ok m) =
            then_some read table k (some (ok m)) got (sym shape ∙ e) in
          let (groups, (found, same)) =
            with_groups_ok d superblock (read_groups n 0 table) m rest in
          ap (λ x. x.fs.superblock) same
    ]
  ]

  mount_with_ok :
      (d : D) (superblock : Superblock) (m : MountedFs D)
      → flat.IsSound d
      → mount_with api d superblock ≡ some (ok m)
      → 0 < block_size superblock
      → (groups : List BlockGroupDescriptor) × ((record {
        fs = record { block_device = d; superblock = superblock; bgdt = groups };
        indirect_cache = [];
      }
            ≡ m)
          × HasGroups (flat.contents d) superblock groups)
  unfolding mount_with bgdt_offset
  mount_with_ok d superblock m sound e pos =
      elim (Option-cases (number_of_block_groups superblock)) [
        | inl zero_groups ↦
            let panics : mount_with api d superblock ≡ none = rw (mount_with, zero_groups) refl in
            absurd (ground (arith, panics, e))
        | inr (n, count) ↦ elim (Bool-cases (leb 32 superblock.log2_block_size)) [
          | inl over ↦
              let panics : mount_with api d superblock ≡ none = rw (mount_with, count, over) refl in
              absurd (ground (arith, panics, e))
          | inr shifts ↦
              let size = block_size superblock in
              let read =
                map_err unable_to_read_block_group_descriptor_table
                  (api.read_bytes d (bgdt_offset superblock) size) in
              let k : List ℕ → Fallible (MountedFs D) =
                λ table. with_groups d superblock (read_groups n 0 table) in
              let shape : mount_with api d superblock ≡ outcome_then read k =
                rw (mount_with, count, shifts) refl in
              let (table, got) = then_ok read k m (sym shape ∙ e) in
              let rest : with_groups d superblock (read_groups n 0 table) ≡ some (ok m) =
                then_some read table k (some (ok m)) got (sym shape ∙ e) in
              let (groups, (found, same)) =
                with_groups_ok d superblock (read_groups n 0 table) m rest in
              let (many, room) = read_groups_within n 0 table groups found (omega arith) in
              (
                groups,
                (
                  same,
                  let (reach, table_is) =
                        read_gives d (bgdt_offset superblock) size table
                          unable_to_read_block_group_descriptor_table sound pos got in
                      let whole =
                        length-take size (drop (bgdt_offset superblock) (flat.contents d)) (
                          omega (
                            arith,
                            reach,
                            length-drop (bgdt_offset superblock) (flat.contents d),
                          )) in
                      let fits : length groups * 32 ≤ size =
                        omega (arith, many, room, ap length table_is, whole) in
                      (
                        subst (IsGroupCount superblock) (sym many)
                            (number_of_block_groups-IsGroupCount superblock n count),
                        fits,
                        (λ j below.
                            let less : j < n = omega (arith, many, below) in
                            read_groups_from n 0 j table groups found less
                            ∙ ap (λ bytes. some (descriptor_try_from bytes))
                                (table_bytes j (bgdt_offset superblock) size (flat.contents d) table
                                  table_is (omega (arith, below, fits)))),
                        ground (arith, shifts),
                      ),
                ),
              )
        ]
      ]

  -- Of a file system that was mounted from a flat device and whose block size is not 0: it keeps the device, its
  -- superblock is what the bytes from 1024 on say, and its cache is empty. It has the least number of
  -- block groups that hold all blocks, so that the last one may be in part. Group `j` has the descriptor that
  -- the device holds in the 32 bytes at `32 * j` of the table, which starts at 2048 with blocks of 1024 bytes,
  -- and at the second block else. All lie within one block: a volume with more groups is not mounted.
  -- The exponent of the block size is below 32.
  pub mount_device_lem :
      (d : D) (m : MountedFs D)
      → flat.IsSound d
      → mount_device api d ≡ some (ok m)
      → 0 < block_size m.fs.superblock
      → (m.fs.block_device ≡ d)
        × (m.fs.superblock ≡ superblock_try_from (take 1024 (drop 1024 (flat.contents d))))
        × (m.indirect_cache ≡ [])
        × HasGroups (flat.contents d) m.fs.superblock m.fs.bgdt
  unfolding mount_device
  mount_device_lem d m sound e pos =
      let first = map_err unable_to_read_superblock (api.read_bytes d 1024 1024) in
      let (head, got) = then_ok first (λ bytes. mount_with api d (superblock_try_from bytes)) m e in
      let (_, head_is) =
        read_gives d 1024 1024 head unable_to_read_superblock sound (omega arith) got in
      let superblock = superblock_try_from head in
      let rest : mount_with api d superblock ≡ some (ok m) =
        then_some first head (λ bytes. mount_with api d (superblock_try_from bytes)) (some (ok m))
          got e in
      let own = mount_with_superblock d superblock m rest in
      let (groups, (same, holds)) =
        mount_with_ok d superblock m sound rest (subst (λ x. 0 < block_size x) (sym own) pos) in
      (
        sym (ap (λ x. x.fs.block_device) same),
        sym own ∙ ap superblock_try_from head_is,
        sym (ap (λ x. x.indirect_cache) same),
        subst (λ x. HasGroups (flat.contents d) x.fs.superblock x.fs.bgdt) same holds,
      )
