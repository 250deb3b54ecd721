-- ===== src/BlockDevice/Writing.antt =====
-- kernel/device/src/block: a write to a memory device replaces the bytes at its offset.
use native.Mathlib.Nat.{mod-lt, mod-add-div'}
use mathlib.Core.Path.{subst}
use muffin.Base.{
  ℕ, suc, ◌+◌, ◌-◌, ◌*◌, ◌/◌, ◌%◌, ◌^◌, ◌≤◌, ◌<◌, ◌≡◌, ◌∙◌, refl, sym, ap, true, false, ◌&&◌, some,
  List, [], ◌∷◌, length, ◌==◌, if◌then◌else◌, ok, arith, Bool-cases, inl, inr,
}
use muffin.BlockDevice.Sectors.{MemoryBlockDevice, memory_device, read_at}
use muffin.BlockDevice.Reading.{times-lt, times-le, read_at_lem}
use muffin.BlockDevice.Splices.{length-splice, take-drop-splice}
use muffin.BlockDevice.Writes.{
  and_then, patch_sector, write_span, write_at, memory_write_sector, memory_api,
}
use muffin.BlockDevice.Pieces.{
  put_bytes, and_then-some, put_bytes-nil, write_one, patch_one, write_span_lem,
}

write_at-exact :
    (m : MemoryBlockDevice) (offset b : ℕ) (bs : List ℕ)
    → 0 < m.size
    → ((offset % m.size == 0) && (length (b ∷ bs) == m.size)) ≡ true
    → write_at memory_api offset (b ∷ bs) m ≡ memory_write_sector (offset / m.size) (b ∷ bs) m
unfolding write_at memory_api
write_at-exact m offset b bs pos aligned = ground (arith, pos, aligned)

write_at-across :
    (m : MemoryBlockDevice) (offset b : ℕ) (bs : List ℕ)
    → 0 < m.size
    → offset + length (b ∷ bs) < 2 ^ 64
    → ((offset % m.size == 0) && (length (b ∷ bs) == m.size)) ≡ false
    → let n = length (b ∷ bs) in
      let first = offset / m.size in
      let last = (offset + n - 1) / m.size in
      let stop = offset + n - last * m.size in
      write_at memory_api offset (b ∷ bs) m ≡ (
        if first == last
        then and_then
            (patch_sector memory_api first (offset % m.size) stop (b ∷ bs) m)
            (λ d. some (d, ok n))
        else write_span memory_api first (offset % m.size) last stop (b ∷ bs) m)
unfolding write_at memory_api
write_at-across m offset b bs pos small across = ground (arith, pos, small, across)

-- Where the bytes of a write stand: `first` and `last` are its sectors, `stop` its end in the last one.
abbrev InSectors : MemoryBlockDevice → ℕ → ℕ → ℕ → ℕ → Type 0
InSectors m offset n first last =
    (offset % m.size + first * m.size ≡ offset)
    × (offset % m.size < m.size)
    × (last * m.size < offset + n)
    × (offset + n ≤ last * m.size + m.size)
    × (first ≤ last)
    × (last * m.size + m.size ≤ length m.bytes)

in_sectors :
    (m : MemoryBlockDevice) (count offset n : ℕ)
    → 0 < m.size
    → length m.bytes ≡ count * m.size
    → offset + suc n ≤ length m.bytes
    → InSectors m offset (suc n) (offset / m.size) ((offset + suc n - 1) / m.size)
in_sectors m count offset n h whole room =
    let first : ℕ = offset / m.size in
    let last : ℕ = (offset + suc n - 1) / m.size in
    let begin : offset % m.size + first * m.size ≡ offset = mod-add-div' offset m.size in
    let end : (offset + suc n - 1) % m.size + last * m.size ≡ offset + suc n - 1 =
      mod-add-div' (offset + suc n - 1) m.size in
    let ends = mod-lt (offset + suc n - 1) h in
    let within : last < count = times-lt last count m.size (omega (arith, whole, end, room)) in
    let after : first < last + 1 =
      times-lt first (last + 1) m.size (omega (arith, begin, end, ends)) in
    let fits : (last + 1) * m.size ≤ count * m.size =
      times-le (last + 1) count m.size (omega (arith, within)) in
    (
      begin,
      mod-lt offset h,
      omega (arith, end),
      omega (arith, end, ends),
      omega (arith, after),
      omega (arith, fits, whole),
    )

write_at-single :
    (m : MemoryBlockDevice) (offset first stop : ℕ) (buf : List ℕ)
    → offset % m.size + first * m.size ≡ offset
    → stop ≡ offset + length buf - first * m.size
    → stop ≤ m.size
    → first * m.size + m.size ≤ length m.bytes
    → and_then
        (patch_sector memory_api first (offset % m.size) stop buf m)
        (λ d. some (d, ok (length buf)))
      ≡ some (put_bytes m offset buf, ok (length buf))
write_at-single m offset first stop buf begin ends below room =
    and_then-some (patch_sector memory_api first (offset % m.size) stop buf m)
      (put_bytes m offset buf) m.size (λ d. some (d, ok (length buf)))
      (patch_one m first (offset % m.size) stop offset buf (omega (arith, begin, ends)) below
        (omega (arith, begin)) room)

exact_write :
    (m : MemoryBlockDevice) (i offset : ℕ) (buf : List ℕ)
    → offset ≡ i * m.size
    → length buf ≡ m.size
    → offset + length buf ≤ length m.bytes
    → memory_write_sector i buf m ≡ some (put_bytes m offset buf, ok (length buf))
exact_write m i offset buf at size room =
    write_one m i buf size (omega (arith, at, size, room))
    ∙ ap (λ o. some (put_bytes m o buf, ok m.size)) (sym at)
    ∙ ap (λ n. some (put_bytes m offset buf, ok n)) (sym size)

-- `write_at` on a memory device of whole sectors, none empty, for a write within the device whose end
-- fits 64 bits, implements the write to a
-- flat array: it ends with the device whose bytes at the offset are those of the buffer and whose other
-- bytes are as before, and returns the length of the buffer, however it lies across the sectors.
pub write_at_lem :
    (m : MemoryBlockDevice) (count offset : ℕ) (buf : List ℕ)
    → 0 < m.size
    → length m.bytes ≡ count * m.size
    → offset + length buf ≤ length m.bytes
    → offset + length buf < 2 ^ 64
    → write_at memory_api offset buf m ≡ some (put_bytes m offset buf, ok (length buf))
write_at_lem m count offset [] h whole room small =
    unfold write_at in ap (λ d. some (d, ok 0)) (sym (put_bytes-nil m offset [] refl))
write_at_lem m count offset (b ∷ bs) h whole room small =
    let n : ℕ = length (b ∷ bs) in
    let first : ℕ = offset / m.size in
    let last : ℕ = (offset + n - 1) / m.size in
    let stop : ℕ = offset + n - last * m.size in
    let (begin, inside, above, below, order, fits) =
      in_sectors m count offset (length bs) h whole room in
    elim (Bool-cases ((offset % m.size == 0) && (length (b ∷ bs) == m.size))) [
      | inl aligned ↦
          write_at-exact m offset b bs h aligned
          ∙ exact_write m first offset (b ∷ bs) (ground (arith, aligned, begin))
              (ground (arith, aligned)) room
      | inr across ↦
          write_at-across m offset b bs h small across ∙ (elim (Bool-cases (first == last)) [
            | inl one ↦
                let same : first ≡ last = ground (arith, one) in
                let at : first * m.size ≡ last * m.size = ap (λ k. k * m.size) same in
                rw one (
                  write_at-single m offset first stop (b ∷ bs) begin (omega (arith, at))
                    (omega (arith, below)) (omega (arith, at, fits)))
            | inr several ↦
                let apart : first < last = ground (arith, several, order) in
                let j : ℕ = last - first - 1 in
                let next : last ≡ first + 1 + j = omega (arith, apart) in
                let span : last * m.size ≡ first * m.size + m.size + j * m.size =
                  ap (λ k. k * m.size) next ∙ omega arith in
                rw several (
                  write_span_lem m first (offset % m.size) j last stop offset (b ∷ bs) h inside
                    (omega (arith, below)) next (omega (arith, begin))
                    (omega (arith, span, begin, above)) fits)
          ])
    ]

-- On a memory device of whole sectors, none empty, after a write within the device whose end fits 64 bits
-- and that succeeded, a read of as many bytes at its offset returns what was written.
pub read_at-write_at :
    (m m' : MemoryBlockDevice) (count offset n : ℕ) (buf : List ℕ)
    → 0 < m.size
    → length m.bytes ≡ count * m.size
    → offset + length buf ≤ length m.bytes
    → offset + length buf < 2 ^ 64
    → write_at memory_api offset buf m ≡ some (m', ok n)
    → read_at (memory_device m') offset (length buf) ≡ some (ok buf)
read_at-write_at m m' count offset n buf h whole room small e =
    let done = write_at_lem m count offset buf h whole room small in
    let here : put_bytes m offset buf ≡ m' = ground (arith, done, e) in
    let size = length-splice offset buf m.bytes in
    subst (λ d. read_at (memory_device d) offset (length buf) ≡ some (ok buf)) here
      (read_at_lem (put_bytes m offset buf) count offset (length buf) h (size ∙ whole)
          (omega (arith, size, room)) small
        ∙ ap (λ l. some (ok l)) (take-drop-splice offset buf m.bytes room))
