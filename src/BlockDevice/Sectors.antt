-- ===== src/BlockDevice/Sectors.antt =====
-- kernel/device/src/block/mod.rs, mem.rs: `read_at` of the trait, over the sectors of a device, and the
-- memory device. An outer `none` is a panic.
use muffin.Base.{
  ℕ, zero, suc, ◌+◌, ◌-◌, ◌*◌, ◌/◌, ◌%◌, ◌^◌, ◌&&◌, Option, none, some, List, [], ◌++◌, length,
  take, drop, leb, ◌==◌, if◌then◌else◌, Result, ok, err,
}

-- What `read_at` uses of the trait `BlockDevice`.
pub record BlockDevice (E : Type 0) : Type 0 where
  pub sector_size : ℕ
  pub sector_count : ℕ
  pub read_sector : ℕ → Option (Result (List ℕ) E)

-- `data[start..start + n]`.
unfoldable pub slice : List ℕ → ℕ → ℕ → Option (List ℕ)
slice raw start n = if leb (start + n) (length raw) then some (take n (drop start raw)) else none

-- The loop over the sectors from `start` on, with how many are left.
unfoldable pub read_sectors : {E : Type 0} → BlockDevice E → ℕ → ℕ → Option (Result (List ℕ) E)
read_sectors d start zero = some (ok [])
read_sectors d start (suc k) =
    let rest = read_sectors d (start + 1) k in
    elim (d.read_sector start) [
      | none ↦ none
      | some (err e) ↦ some (err e)
      | some (ok bytes) ↦ elim rest [
        | none ↦ none
        | some (err e) ↦ some (err e)
        | some (ok more) ↦ some (ok (bytes ++ more))
      ]
    ]

-- The part of the sectors that was asked for.
unfoldable pub cut : {E : Type 0} → Option (Result (List ℕ) E) → ℕ → ℕ → Option (Result (List ℕ) E)
unfolding slice
cut none start n = none
cut (some (err e)) start n = some (err e)
cut (some (ok raw)) start n = elim (slice raw start n) [
  | none ↦ none
  | some bytes ↦ some (ok bytes)
]

-- `read_at` into a buffer of `n` bytes: the bytes that it then holds.
unfoldable pub read_at : {E : Type 0} → BlockDevice E → ℕ → ℕ → Option (Result (List ℕ) E)
unfolding read_sectors cut
read_at d offset n =
    if n == 0
    then some (ok [])
    else (if d.sector_size == 0
        then none
        else (if (offset % d.sector_size == 0) && (n == d.sector_size)
            then d.read_sector (offset / d.sector_size)
            else (if leb (2 ^ 64) (offset + n)
                then none
                else (let first = offset / d.sector_size in
                    let last = (offset + n - 1) / d.sector_size in
                    cut (read_sectors d first (last - first + 1)) (offset % d.sector_size) n))))

pub record MemoryBlockDevice : Type 0 where
  pub size : ℕ
  pub bytes : List ℕ

-- `try_new`; the remainder by a size of zero panics.
unfoldable pub try_new : ℕ → List ℕ → Option (Option MemoryBlockDevice)
try_new size bytes =
    if size == 0
    then none
    else (if length bytes % size == 0
        then some (some (record { size = size; bytes = bytes }))
        else some none)

-- `read_sector` of the memory device.
unfoldable pub memory_read_sector : MemoryBlockDevice → ℕ → Option (Result (List ℕ) (Unit {0}))
unfolding slice
memory_read_sector m index = elim (slice m.bytes (index * m.size) m.size) [
  | none ↦ none
  | some bytes ↦ some (ok bytes)
]

-- The memory device as a block device.
unfoldable pub memory_device : MemoryBlockDevice → BlockDevice (Unit {0})
unfolding memory_read_sector
memory_device m = record {
  sector_size = m.size;
  sector_count = length m.bytes;
  read_sector = λ index. memory_read_sector m index;
}
