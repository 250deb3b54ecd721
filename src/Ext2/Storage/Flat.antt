-- ===== src/Ext2/Storage/Flat.antt =====
-- kernel/ext2, kernel/device/src/block: what the file system relies on in a device, and that the memory device provides it.
use muffin.Base.{
  ◌∙◌, refl, ℕ, ◌+◌, ◌*◌, ◌^◌, ◌≤◌, ◌<◌, ◌≡◌, some, List, length, take, drop, ok, arith,
}
use muffin.BlockDevice.Pieces.{put_bytes}
use muffin.BlockDevice.Reading.{read_at_lem}
use muffin.BlockDevice.Sectors.{MemoryBlockDevice}
use muffin.BlockDevice.Splices.{length-splice}
use muffin.BlockDevice.Within.{read_at_within}
use muffin.BlockDevice.Writes.{splice}
use muffin.BlockDevice.Writing.{write_at_lem}
use muffin.Ext2.Storage.Filesystem.{DiskApi, memory_disk}

-- A device whose sound states are a sequence of bytes.
pub record FlatDisk {D E : Type 0} (api : DiskApi D E) : Type 1 where
  pub IsSound : D → Type 0
  pub contents : D → List ℕ
  pub read_within :
      (d : D) (offset n : ℕ)
      → IsSound d
      → offset + n ≤ length (contents d)
      → api.read_bytes d offset n ≡ some (ok (take n (drop offset (contents d))))
  pub write_within :
      (d : D) (offset : ℕ) (bs : List ℕ)
      → IsSound d
      → offset + length bs ≤ length (contents d)
      → (d' : D) × ((api.write_bytes offset bs d ≡ some (d', ok (length bs)))
          × (IsSound d' × (contents d' ≡ splice offset bs (contents d))))
  -- A read that succeeds lies within the device.
  pub read_only_within :
      (d : D) (offset n : ℕ) (bs : List ℕ)
      → IsSound d
      → 0 < n
      → api.read_bytes d offset n ≡ some (ok bs)
      → offset + n ≤ length (contents d)

-- A memory device of whole sectors, none of them empty, whose size is a `usize`.
abbrev pub IsWhole : MemoryBlockDevice → Type 0
IsWhole m =
    (0 < m.size) × ((length m.bytes < 2 ^ 64) × ((count : ℕ) × (length m.bytes ≡ count * m.size)))

pub memory_write :
    (m : MemoryBlockDevice) (offset : ℕ) (bs : List ℕ)
    → IsWhole m
    → offset + length bs ≤ length m.bytes
    → (d' : MemoryBlockDevice) × ((memory_disk.write_bytes offset bs m ≡ some (d', ok (length bs)))
        × (IsWhole d' × (d'.bytes ≡ splice offset bs m.bytes)))
unfolding memory_disk
memory_write m offset bs (pos, (small, (count, whole))) room =
    let same = length-splice offset bs m.bytes in
    (
      put_bytes m offset bs,
      (
        write_at_lem m count offset bs pos whole room (omega arith),
        ((pos, (omega (arith, same), (count, same ∙ whole))), refl),
      ),
    )

-- The memory device reads and writes the bytes that it holds.
unfoldable pub memory_flat : FlatDisk memory_disk
unfolding memory_disk
memory_flat = record {
  IsSound = IsWhole;
  contents = λ m. m.bytes;
  read_within = λ m offset n (pos, (small, (count, whole))) room.
      read_at_lem m count offset n pos whole room (omega arith);
  write_within = memory_write;
  read_only_within =
      λ m offset n bs (pos, _) some_bytes e. read_at_within m offset n bs pos some_bytes e;
}
