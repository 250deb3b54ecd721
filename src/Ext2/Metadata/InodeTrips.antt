-- ===== src/Ext2/Metadata/InodeTrips.antt =====
-- kernel/ext2/src/lib.rs: an inode that was written is read back, and others are left.
use muffin.Base.{
  ℕ, ◌+◌, ◌≤◌, ◌≡◌, ◌⊎◌, ◌∙◌, refl, sym, ap, some, List, [], ◌∷◌, length, take, drop, replicate, ok,
  arith, inl, inr,
}
use muffin.BlockDevice.Splices.{length-splice, take-drop-splice}
use muffin.BlockDevice.Writes.{splice}
use muffin.Ext2.Storage.Apart.{take-drop-splice_after}
use muffin.Ext2.Storage.Blocks.{MountedFs, write_to_device}
use muffin.Ext2.Records.Bytefield.{Field, Values, AllFit, write_fields, field_write, bytes_of_value}
use muffin.Ext2.Records.Fields.{take-drop-splice_before}
use muffin.Ext2.Storage.Filesystem.{
  device_write, DiskApi, Ext2Fs, map_err, outcome_then, resolve_block_offset,
}
use muffin.Ext2.Storage.Flat.{FlatDisk}
use muffin.Ext2.Records.InodeRecord.{Inode, inode_fields, inode_values, inode_try_from, inode_into}
use muffin.Ext2.Metadata.Inodes.{inode_offset, table_entry, read_inode, write_inode}
use muffin.Ext2.Records.RecordTrips.{inode_try_from-inode_into}

pub length-write_fields :
    (fs : List Field) (vs : Values fs) (raw : List ℕ) → length (write_fields fs vs raw) ≡ length raw
unfolding write_fields Values field_write
length-write_fields [] vs raw = refl
length-write_fields (f ∷ fs) (v, vs) raw =
    length-write_fields fs vs (splice f.offset (bytes_of_value f.typ v) raw)
    ∙ length-splice f.offset (bytes_of_value f.typ v) raw

length-inode_into : (inode : Inode) → length (inode_into inode) ≡ 128
unfolding inode_into
length-inode_into inode = length-write_fields inode_fields (inode_values inode) (replicate 128 0)

-- Two ranges of the length of an inode that do not meet.
abbrev pub AreApart : ℕ → ℕ → Type 0
AreApart a b = (a + 128 ≤ b) ⊎ (b + 128 ≤ a)

module _ {D E : Type 0} (api : DiskApi D E) (flat : FlatDisk api) where
  read_inode_within :
      (fs : Ext2Fs D) (addr offset : ℕ)
      → flat.IsSound fs.block_device
      → inode_offset api fs addr ≡ some offset
      → offset + 128 ≤ length (flat.contents fs.block_device)
      → read_inode api fs addr
        ≡ some (ok (addr, inode_try_from (take 128 (drop offset (flat.contents fs.block_device)))))
  unfolding read_inode map_err outcome_then
  read_inode_within fs addr offset sound at room =
      rw (read_inode, at, flat.read_within fs.block_device offset 128 sound room) refl

  apart_bytes :
      (o p : ℕ) (bs ys : List ℕ)
      → length bs ≡ 128
      → AreApart o p
      → take 128 (drop p (splice o bs ys)) ≡ take 128 (drop p ys)
  apart_bytes o p bs ys size (inl before) =
      take-drop-splice_after o p 128 bs ys (omega (arith, size, before))
  apart_bytes o p bs ys size (inr after) = take-drop-splice_before o p 128 bs ys after

  inode_offset-device :
      (fs : Ext2Fs D) (d : D) (addr : ℕ)
      → inode_offset api (record fs { block_device = d }) addr ≡ inode_offset api fs addr
  unfolding inode_offset table_entry resolve_block_offset
  inode_offset-device fs d addr = refl

  -- A write of 128 bytes, and what is then on the device there and elsewhere.
  write_entry :
      (s : MountedFs D) (offset elsewhere : ℕ) (bs : List ℕ)
      → let all = flat.contents s.fs.block_device in
        flat.IsSound s.fs.block_device
        → length bs ≡ 128
        → offset + 128 ≤ length all
        → AreApart offset elsewhere
        → (d : D) × ((write_to_device api device_write offset bs s
              ≡ some (record s { fs = record s.fs { block_device = d } }, ok 128))
            × (flat.IsSound d
                × ((length (flat.contents d) ≡ length all)
                    × ((take 128 (drop offset (flat.contents d)) ≡ bs)
                        × (take 128 (drop elsewhere (flat.contents d))
                            ≡ take 128 (drop elsewhere all))))))
  unfolding write_to_device
  write_entry s offset elsewhere bs sound size room apart =
      let all = flat.contents s.fs.block_device in
      let (d, (wrote, (sound', e))) =
        flat.write_within s.fs.block_device offset bs sound (omega (arith, size, room)) in
      let back : take 128 (drop offset (flat.contents d)) ≡ bs =
        ap (λ l. take 128 (drop offset l)) e
        ∙ ap (λ n. take n (drop offset (splice offset bs all))) (sym size)
        ∙ take-drop-splice offset bs all (omega (arith, size, room)) in
      (
        d,
        (
          rw (write_to_device, wrote)
              (ap (λ n. some (record s { fs = record s.fs { block_device = d } }, ok n)) size),
          (
            sound',
            (
              ap length e ∙ length-splice offset bs all,
              (
                back,
                ap (λ l. take 128 (drop elsewhere l)) e
                    ∙ apart_bytes offset elsewhere bs all size apart,
              ),
            ),
          ),
        ),
      )

  -- On a flat device, writing an inode whose fields are values of their Rust types, at an address whose entry lies within the device, succeeds, and the inode
  -- then reads as what was written, while an inode whose entry within the device is apart from it reads as before.
  pub read_inode-write_inode :
      (s : MountedFs D) (addr offset other elsewhere : ℕ) (inode : Inode)
      → flat.IsSound s.fs.block_device
      → AllFit inode_fields (inode_values inode)
      → inode_offset api s.fs addr ≡ some offset
      → offset + 128 ≤ length (flat.contents s.fs.block_device)
      → inode_offset api s.fs other ≡ some elsewhere
      → elsewhere + 128 ≤ length (flat.contents s.fs.block_device)
      → AreApart offset elsewhere
      → (s' : MountedFs D) × ((write_inode api addr inode s ≡ some (s', ok 128))
          × ((read_inode api s'.fs addr ≡ some (ok (addr, inode)))
              × (read_inode api s'.fs other ≡ read_inode api s.fs other)))
  unfolding write_inode
  read_inode-write_inode s addr offset other elsewhere inode sound fit at room at' room' apart =
      let (d, (wrote, (sound', (same, (back, left))))) =
        write_entry s offset elsewhere (inode_into inode) sound (length-inode_into inode) room
          apart in
      let fs' : Ext2Fs D = record s.fs { block_device = d } in
      (
        record s { fs = fs' },
        (
          rw (write_inode, at) wrote,
          (
            read_inode_within fs' addr offset sound' (inode_offset-device s.fs d addr ∙ at)
                  (omega (arith, same, room))
                ∙ ap (λ l. some (ok (addr, inode_try_from l))) back
                ∙ ap (λ i. some (ok (addr, i))) (inode_try_from-inode_into inode fit),
            read_inode_within fs' other elsewhere sound' (inode_offset-device s.fs d other ∙ at')
                  (omega (arith, same, room'))
                ∙ ap (λ l. some (ok (other, inode_try_from l))) left
                ∙ sym (read_inode_within s.fs other elsewhere sound at' room'),
          ),
        ),
      )
