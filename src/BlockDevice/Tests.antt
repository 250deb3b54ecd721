-- ===== src/BlockDevice/Tests.antt =====
-- Reads of a concrete memory device.
use muffin.Base.{◌≡◌, refl, some, [], ◌∷◌, take, drop, ok, arith}
use muffin.BlockDevice.Sectors.{
  MemoryBlockDevice, memory_device, read_at, read_sectors, cut, slice, memory_read_sector,
}
use muffin.BlockDevice.Writes.{
  splice, overwrite, and_then, patch_sector, write_chunks, write_head, write_tail, write_span,
  write_at, memory_write_sector, memory_api,
}
use muffin.BlockDevice.Pieces.{put_bytes}
use muffin.BlockDevice.Writing.{write_at_lem, read_at-write_at}
use muffin.BlockDevice.Reading.{read_at_lem}

-- Four sectors of two bytes.
abbrev disk : MemoryBlockDevice
disk = record { size = 2; bytes = 1 ∷ 2 ∷ 3 ∷ 4 ∷ 5 ∷ 6 ∷ 7 ∷ 8 ∷ [] }

-- Five bytes over three sectors.
read_across : read_at (memory_device disk) 1 5 ≡ some (ok (2 ∷ 3 ∷ 4 ∷ 5 ∷ 6 ∷ []))
unfolding read_at read_sectors memory_device memory_read_sector cut slice
read_across = refl

read_at_lem_example : read_at (memory_device disk) 1 5 ≡ some (ok (take 5 (drop 1 disk.bytes)))
read_at_lem_example = read_at_lem disk 4 1 5 (omega arith) (omega arith) (omega arith) (omega arith)

-- Five bytes over three sectors, and what the device then holds.
write_across :
    write_at memory_api 1 (20 ∷ 30 ∷ 40 ∷ 50 ∷ 60 ∷ []) disk
    ≡ some (record { size = 2; bytes = 1 ∷ 20 ∷ 30 ∷ 40 ∷ 50 ∷ 60 ∷ 7 ∷ 8 ∷ [] }, ok 5)
unfolding write_at memory_api write_span write_head write_tail write_chunks patch_sector
    memory_write_sector memory_read_sector overwrite splice and_then slice
write_across = refl

write_at_lem_example :
    write_at memory_api 1 (20 ∷ 30 ∷ 40 ∷ 50 ∷ 60 ∷ []) disk
    ≡ some (put_bytes disk 1 (20 ∷ 30 ∷ 40 ∷ 50 ∷ 60 ∷ []), ok 5)
write_at_lem_example =
    write_at_lem disk 4 1 (20 ∷ 30 ∷ 40 ∷ 50 ∷ 60 ∷ []) (omega arith) (omega arith) (omega arith)
      (omega arith)

read_at-write_at_example :
    read_at
      (memory_device (record { size = 2; bytes = 1 ∷ 20 ∷ 30 ∷ 40 ∷ 50 ∷ 60 ∷ 7 ∷ 8 ∷ [] }))
      1
      5
    ≡ some (ok (20 ∷ 30 ∷ 40 ∷ 50 ∷ 60 ∷ []))
read_at-write_at_example =
    read_at-write_at disk (record { size = 2; bytes = 1 ∷ 20 ∷ 30 ∷ 40 ∷ 50 ∷ 60 ∷ 7 ∷ 8 ∷ [] }) 4 1
      5 (20 ∷ 30 ∷ 40 ∷ 50 ∷ 60 ∷ []) (omega arith) (omega arith) (omega arith) (omega arith)
      write_across
