-- ===== src/BlockDevice/Writes.antt =====
-- kernel/device/src/block/mod.rs, mem.rs: `write_at` of the trait, over the sectors of a device, and the writes of
-- the memory device. An outer `none` is a panic. A device keeps what was written before an error.
use muffin.Base.{
  ℕ, zero, suc, ◌+◌, ◌-◌, ◌*◌, ◌/◌, ◌%◌, ◌^◌, ◌&&◌, Option, none, some, List, [], ◌∷◌, length, take,
  drop, leb, ◌==◌, if◌then◌else◌, Result, ok, err,
}
use muffin.BlockDevice.Sectors.{MemoryBlockDevice, memory_read_sector}

-- The trait `BlockDevice` as `write_at` uses it, for a device whose state is in `D`.
pub record BlockDeviceApi (D E : Type 0) : Type 0 where
  pub sector_size : D → ℕ
  pub read_sector : ℕ → D → Option (Result (List ℕ) E)
  pub write_sector : ℕ → List ℕ → D → Option (D × Result ℕ E)

-- The bytes with `bs` in the place of those from an index on.
unfoldable pub splice : ℕ → List ℕ → List ℕ → List ℕ
splice o bs [] = []
splice zero [] (y ∷ ys) = y ∷ ys
splice zero (b ∷ bs) (y ∷ ys) = b ∷ splice zero bs ys
splice (suc o) bs (y ∷ ys) = y ∷ splice o bs ys

-- `data[start..stop].copy_from_slice(bs)`, which panics out of range and for another length.
unfoldable pub overwrite : ℕ → ℕ → List ℕ → List ℕ → Option (List ℕ)
unfolding splice
overwrite start stop bs raw =
    if leb start stop && (leb stop (length raw) && (stop - start == length bs))
    then some (splice start bs raw)
    else none

module _ {D E : Type 0} where
  -- `?` on the result of a write.
  unfoldable pub and_then :
      Option (D × Result ℕ E) → (D → Option (D × Result ℕ E)) → Option (D × Result ℕ E)
  and_then none k = none
  and_then (some (d, err e)) k = some (d, err e)
  and_then (some (d, ok n)) k = k d

module _ {D E : Type 0} (api : BlockDeviceApi D E) where
  -- The read of a sector, the copy into a range of it, and its write.
  unfoldable pub patch_sector : ℕ → ℕ → ℕ → List ℕ → D → Option (D × Result ℕ E)
  unfolding overwrite
  patch_sector index start stop bs d = elim (api.read_sector index d) [
    | none ↦ none
    | some (err e) ↦ some (d, err e)
    | some (ok sector) ↦ elim (overwrite start stop bs sector) [
      | none ↦ none
      | some sector' ↦ api.write_sector index sector' d
    ]
  ]

  -- The loop over `chunks_exact`, with how many are left.
  unfoldable pub write_chunks : ℕ → ℕ → List ℕ → D → Option (D × Result ℕ E)
  unfolding and_then
  write_chunks index zero bs d = some (d, ok 0)
  write_chunks index (suc k) bs d =
      and_then (api.write_sector index (take (api.sector_size d) bs) d)
        (λ d'. write_chunks (index + 1) k (drop (api.sector_size d) bs) d')

  -- The first sector, from `start_offset` on.
  unfoldable pub write_head : ℕ → ℕ → List ℕ → D → Option (D × Result ℕ E)
  unfolding patch_sector
  write_head index start_offset bs d =
      if start_offset == 0
      then api.write_sector index bs d
      else patch_sector index start_offset (api.sector_size d) bs d

  -- The last sector, up to `end_offset`.
  unfoldable pub write_tail : ℕ → ℕ → List ℕ → D → Option (D × Result ℕ E)
  unfolding patch_sector
  write_tail index end_offset bs d =
      if end_offset == api.sector_size d
      then api.write_sector index bs d
      else patch_sector index 0 end_offset bs d

  -- `write_at` where it spans several sectors.
  unfoldable pub write_span : ℕ → ℕ → ℕ → ℕ → List ℕ → D → Option (D × Result ℕ E)
  unfolding and_then write_head write_chunks write_tail
  write_span start_sector start_offset end_sector end_offset buf d =
      let size = api.sector_size d in
      let head_len = size - start_offset in
      let tail_start = length buf - end_offset in
      and_then (write_head start_sector start_offset (take head_len buf) d) (λ d'.
        if leb head_len tail_start
        then and_then
            (write_chunks (start_sector + 1) ((tail_start - head_len) / size)
              (take (tail_start - head_len) (drop head_len buf)) d')
            (λ d''.
              and_then (write_tail end_sector end_offset (drop tail_start buf) d'')
                (λ d'''. some (d''', ok (length buf))))
        else none)

  -- `write_at`.
  unfoldable pub write_at : ℕ → List ℕ → D → Option (D × Result ℕ E)
  unfolding and_then patch_sector write_span
  write_at offset [] d = some (d, ok 0)
  write_at offset (b ∷ bs) d =
      let size = api.sector_size d in
      let n = length (b ∷ bs) in
      if size == 0
      then none
      else (if (offset % size == 0) && (n == size)
          then api.write_sector (offset / size) (b ∷ bs) d
          else (if leb (2 ^ 64) (offset + n)
              then none
              else (let start_sector = offset / size in
                  let end_sector = (offset + n - 1) / size in
                  let end_offset = offset + n - end_sector * size in
                  if start_sector == end_sector
                  then and_then (patch_sector start_sector (offset % size) end_offset (b ∷ bs) d)
                      (λ d'. some (d', ok n))
                  else write_span start_sector (offset % size) end_sector end_offset (b ∷ bs) d)))

-- `write_sector` of the memory device.
unfoldable pub memory_write_sector :
    ℕ → List ℕ → MemoryBlockDevice → Option (MemoryBlockDevice × Result ℕ (Unit {0}))
unfolding overwrite
memory_write_sector index bs m =
    elim (overwrite (index * m.size) (index * m.size + m.size) bs m.bytes) [
      | none ↦ none
      | some bytes ↦ some (record m { bytes = bytes }, ok (length bs))
    ]

unfoldable pub memory_api : BlockDeviceApi MemoryBlockDevice (Unit {0})
unfolding memory_read_sector memory_write_sector
memory_api = record {
  sector_size = λ m. m.size;
  read_sector = λ index m. memory_read_sector m index;
  write_sector = λ index bs m. memory_write_sector index bs m;
}
