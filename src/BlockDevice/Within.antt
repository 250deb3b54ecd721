-- ===== src/BlockDevice/Within.antt =====
-- kernel/device/src/block: a read of a memory device that succeeds lies within the device.
use native.Mathlib.Nat.{mod-lt, mod-add-div'}
use muffin.Base.{
  ℕ, zero, suc, ◌+◌, ◌-◌, ◌*◌, ◌/◌, ◌%◌, ◌^◌, ◌≤◌, ◌<◌, ◌≡◌, ◌∙◌, refl, sym, ◌&&◌, Option, none,
  some, List, length, leb, ◌==◌, Result, ok, err, arith, Bool-cases, inl, inr,
}
use muffin.BlockDevice.Reading.{read_at-exact, read_at-across, times-le, times-add}
use muffin.BlockDevice.Sectors.{
  BlockDevice, MemoryBlockDevice, slice, read_sectors, cut, read_at, memory_read_sector,
  memory_device,
}

-- What a read of several sectors that succeeds has read.
read_both :
    {E : Type 0} (d : BlockDevice E) (start k : ℕ) (all : List ℕ)
    → read_sectors d start (suc k) ≡ some (ok all)
    → (bytes : List ℕ) × ((more : List ℕ) × ((d.read_sector start ≡ some (ok bytes))
          × (read_sectors d (start + 1) k ≡ some (ok more))))
unfolding read_sectors
read_both {E = E} d start k all e =
    let go : (r s : Option (Result (List ℕ) E))
        → d.read_sector start ≡ r
        → read_sectors d (start + 1) k ≡ s
        → (bytes : List ℕ) × ((more : List ℕ) × ((d.read_sector start ≡ some (ok bytes))
              × (read_sectors d (start + 1) k ≡ some (ok more)))) =
      elim [
        | none ↦ λ s one rest. absurd (ground (arith, rw (read_sectors, one) at e))
        | some (err x) ↦ λ s one rest. absurd (ground (arith, rw (read_sectors, one) at e))
        | some (ok bytes) ↦ elim [
          | none ↦ λ one rest. absurd (ground (arith, rw (read_sectors, one, rest) at e))
          | some (err x) ↦ λ one rest. absurd (ground (arith, rw (read_sectors, one, rest) at e))
          | some (ok more) ↦ λ one rest. (bytes, (more, (one, rest)))
        ]
      ] in
    go (d.read_sector start) (read_sectors d (start + 1) k) refl refl

module _ (m : MemoryBlockDevice) where
  sector_within :
      (i : ℕ) (bytes : List ℕ)
      → memory_read_sector m i ≡ some (ok bytes)
      → i * m.size + m.size ≤ length m.bytes
  unfolding memory_read_sector slice
  sector_within i bytes e = elim (Bool-cases (leb (i * m.size + m.size) (length m.bytes))) [
    | inl fits ↦ ground arith
    | inr beyond ↦ absurd (ground (arith, rw (memory_read_sector, slice, beyond) at e))
  ]

  sectors_within :
      (start k : ℕ) (bytes : List ℕ)
      → read_sectors (memory_device m) start (suc k) ≡ some (ok bytes)
      → start * m.size + suc k * m.size ≤ length m.bytes
  unfolding memory_device
  sectors_within start zero bytes e =
      let (first, (more, (one, rest))) = read_both (memory_device m) start zero bytes e in
      omega (arith, sector_within start first one)
  sectors_within start (suc k) bytes e =
      let (first, (more, (one, rest))) = read_both (memory_device m) start (suc k) bytes e in
      omega (arith, sectors_within (start + 1) k more rest)

  cut_within :
      (r : Option (Result (List ℕ) (Unit {0}))) (start n : ℕ) (bytes : List ℕ)
      → cut r start n ≡ some (ok bytes)
      → (raw : List ℕ) × (r ≡ some (ok raw))
  unfolding cut
  cut_within none start n bytes e = absurd (ground (arith, e))
  cut_within (some (err x)) start n bytes e = absurd (ground (arith, e))
  cut_within (some (ok raw)) start n bytes e = (raw, refl)

  -- On a memory device, none of whose sectors is empty, a read of at least one byte that succeeds lies within the device.
  pub read_at_within :
      (offset n : ℕ) (bytes : List ℕ)
      → 0 < m.size
      → 0 < n
      → read_at (memory_device m) offset n ≡ some (ok bytes)
      → offset + n ≤ length m.bytes
  unfolding memory_device
  read_at_within offset n bytes pos some_bytes e =
      let first : ℕ = offset / m.size in
      let last : ℕ = (offset + n - 1) / m.size in
      let begin : offset % m.size + first * m.size ≡ offset = mod-add-div' offset m.size in
      let end : (offset + n - 1) % m.size + last * m.size ≡ offset + n - 1 =
        mod-add-div' (offset + n - 1) m.size in
      let inside = mod-lt (offset + n - 1) pos in
      elim (Bool-cases ((offset % m.size == 0) && (n == m.size))) [
        | inl aligned ↦
            let sector : memory_read_sector m first ≡ some (ok bytes) =
              rw (read_at-exact (memory_device m) offset n some_bytes aligned) at e in
            ground (arith, aligned, begin, sector_within first bytes sector)
        | inr across ↦ elim (Bool-cases (leb (2 ^ 64) (offset + n))) [
          | inl huge ↦ absurd (unfold read_at in ground (arith, e, huge, across))
          | inr small ↦
              let cut_ok =
                sym (read_at-across (memory_device m) offset n some_bytes pos (ground arith) across)
                ∙ e in
              let (raw, all) =
                cut_within (read_sectors (memory_device m) first (last - first + 1))
                  (offset % m.size) n bytes cut_ok in
              let count : last - first + 1 ≡ suc (last - first) = omega arith in
              let within = sectors_within first (last - first) raw (rw count at all) in
              let reach = times-le (last + 1) (first + suc (last - first)) m.size (omega arith) in
              omega (arith, within, reach, times-add first (suc (last - first)) m.size, end, inside)
        ]
      ]
