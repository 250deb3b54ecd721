-- ===== src/BlockDevice/Pieces.antt =====
-- kernel/device/src/block: the pieces of a write to a memory device, each the replacement of its bytes.
use native.Mathlib.Nat.{mul-div_cancel}
use muffin.Base.{
  ℕ, zero, suc, ◌+◌, ◌-◌, ◌*◌, ◌/◌, ◌≤◌, ◌<◌, ◌≡◌, ◌∙◌, refl, sym, ap, true, Option, some, List, [],
  ◌∷◌, ◌++◌, length, take, drop, leb, ◌==◌, Result, ok, arith, Bool-cases, inl, inr,
}
use muffin.BlockDevice.Sectors.{MemoryBlockDevice}
use muffin.BlockDevice.Reading.{length-take, length-drop, times-suc, take_then, read_one}
use muffin.BlockDevice.Splices.{splice-nil, take-drop, length-splice, splice-splice, splice-part}
use muffin.BlockDevice.Writes.{
  splice, overwrite, and_then, patch_sector, write_chunks, write_head, write_tail, write_span,
  memory_write_sector, memory_api,
}

-- The device after a write of `bs` at byte `o`.
abbrev pub put_bytes : MemoryBlockDevice → ℕ → List ℕ → MemoryBlockDevice
put_bytes m o bs = record m { bytes = splice o bs m.bytes }

pub and_then-some :
    {D E : Type 0} (r : Option (D × Result ℕ E)) (d : D) (n : ℕ) (k : D → Option (D × Result ℕ E))
    → r ≡ some (d, ok n)
    → and_then r k ≡ k d
unfolding and_then
and_then-some r d n k e = rw e refl

put_bytes-put_bytes :
    (m : MemoryBlockDevice) (a c : ℕ) (xs ys : List ℕ)
    → c ≡ a + length xs
    → put_bytes (put_bytes m a xs) c ys ≡ put_bytes m a (xs ++ ys)
put_bytes-put_bytes m a c xs ys e =
    ap (λ l. record m { bytes = l }) (splice-splice a c xs ys m.bytes e)

pub put_bytes-nil :
    (m : MemoryBlockDevice) (o : ℕ) (bs : List ℕ) → length bs ≡ 0 → put_bytes m o bs ≡ m
put_bytes-nil m o [] e = ap (λ l. record m { bytes = l }) (splice-nil o m.bytes)
put_bytes-nil m o (b ∷ bs) e = absurd (omega (arith, e))

overwrite-some :
    (start stop : ℕ) (bs raw : List ℕ)
    → stop ≡ start + length bs
    → stop ≤ length raw
    → overwrite start stop bs raw ≡ some (splice start bs raw)
unfolding overwrite
overwrite-some start stop bs raw e h = ground arith

pub write_one :
    (m : MemoryBlockDevice) (i : ℕ) (bs : List ℕ)
    → length bs ≡ m.size
    → i * m.size + m.size ≤ length m.bytes
    → memory_write_sector i bs m ≡ some (put_bytes m (i * m.size) bs, ok m.size)
unfolding memory_write_sector
write_one m i bs size room =
    rw
      (
        memory_write_sector,
        overwrite-some (i * m.size) (i * m.size + m.size) bs m.bytes (omega (arith, size)) room,
      )
      (ap (λ n. some (put_bytes m (i * m.size) bs, ok n)) size)

pub patch_one :
    (m : MemoryBlockDevice) (i start stop c : ℕ) (bs : List ℕ)
    → stop ≡ start + length bs
    → stop ≤ m.size
    → c ≡ i * m.size + start
    → i * m.size + m.size ≤ length m.bytes
    → patch_sector memory_api i start stop bs m ≡ some (put_bytes m c bs, ok m.size)
unfolding patch_sector memory_api
patch_one m i start stop c bs e inside at room =
    let sector : List ℕ = take m.size (drop (i * m.size) m.bytes) in
    let size : length sector ≡ m.size =
      length-take m.size (drop (i * m.size) m.bytes)
        (omega (arith, length-drop (i * m.size) m.bytes, room)) in
    let whole : splice (i * m.size) (splice start bs sector) m.bytes ≡ splice c bs m.bytes =
      splice-part (i * m.size) start c m.size bs m.bytes at (omega (arith, e, inside)) in
    rw
      (
        patch_sector,
        read_one m i room,
        overwrite-some start stop bs sector e (omega (arith, size, inside)),
      )
      (write_one m i (splice start bs sector) (length-splice start bs sector ∙ size) room
        ∙ ap (λ l. some (record m { bytes = l }, ok m.size)) whole)

write_chunks_lem :
    (m : MemoryBlockDevice) (i k : ℕ) (bs : List ℕ)
    → length bs ≡ k * m.size
    → i * m.size + k * m.size ≤ length m.bytes
    → write_chunks memory_api i k bs m ≡ some (put_bytes m (i * m.size) bs, ok 0)
unfolding write_chunks memory_api
write_chunks_lem m i zero bs size room =
    ap (λ d. some (d, ok 0)) (sym (put_bytes-nil m (i * m.size) bs (omega (arith, size))))
write_chunks_lem m i (suc k) bs size room =
    let total : suc k * m.size ≡ m.size + k * m.size = times-suc k m.size in
    let next : (i + 1) * m.size ≡ i * m.size + m.size = omega arith in
    let first = take m.size bs in
    let rest = drop m.size bs in
    let first_size : length first ≡ m.size = length-take m.size bs (omega (arith, size, total)) in
    let rest_size : length rest ≡ k * m.size = omega (arith, length-drop m.size bs, size, total) in
    let joined : first ++ rest ≡ bs = take-drop m.size bs in
    and_then-some (memory_write_sector i first m) (put_bytes m (i * m.size) first) m.size
      (λ d. write_chunks memory_api (i + 1) k rest d)
      (write_one m i first first_size (omega (arith, total, room)))
    ∙ write_chunks_lem (put_bytes m (i * m.size) first) (i + 1) k rest rest_size
        (omega (arith, next, total, room, length-splice (i * m.size) first m.bytes))
    ∙ ap (λ d. some (d, ok 0))
        (put_bytes-put_bytes m (i * m.size) ((i + 1) * m.size) first rest
            (omega (arith, next, first_size))
          ∙ ap (put_bytes m (i * m.size)) joined)

write_head_lem :
    (m : MemoryBlockDevice) (i r c : ℕ) (bs : List ℕ)
    → r + length bs ≡ m.size
    → c ≡ i * m.size + r
    → i * m.size + m.size ≤ length m.bytes
    → write_head memory_api i r bs m ≡ some (put_bytes m c bs, ok m.size)
unfolding write_head memory_api
write_head_lem m i r c bs size at room = elim (Bool-cases (r == 0)) [
  | inl aligned ↦
      let same : c ≡ i * m.size = ground (arith, aligned, at) in
      rw (write_head, aligned, same) (write_one m i bs (ground (arith, aligned, size)) room)
  | inr inside ↦
      rw (write_head, inside)
        (patch_one m i r m.size c bs (omega (arith, size)) (omega arith) at room)
]

write_tail_lem :
    (m : MemoryBlockDevice) (i stop : ℕ) (bs : List ℕ)
    → length bs ≡ stop
    → stop ≤ m.size
    → i * m.size + m.size ≤ length m.bytes
    → write_tail memory_api i stop bs m ≡ some (put_bytes m (i * m.size) bs, ok m.size)
unfolding write_tail memory_api
write_tail_lem m i stop bs size below room = elim (Bool-cases (stop == m.size)) [
  | inl whole ↦ rw (write_tail, whole) (write_one m i bs (ground (arith, whole, size)) room)
  | inr part ↦
      rw (write_tail, part)
        (patch_one m i 0 stop (i * m.size) bs (omega (arith, size)) below (omega arith) room)
]

-- The three parts of a buffer, written one after the other.
put_bytes-parts :
    (m : MemoryBlockDevice) (c a b h t : ℕ) (buf : List ℕ)
    → h ≤ t
    → t ≤ length buf
    → a ≡ c + h
    → b ≡ c + t
    → put_bytes
        (put_bytes (put_bytes m c (take h buf)) a (take (t - h) (drop h buf)))
        b
        (drop t buf)
      ≡ put_bytes m c buf
put_bytes-parts m c a b h t buf le below at_a at_b =
    let first : List ℕ = take h buf in
    let middle : List ℕ = take (t - h) (drop h buf) in
    let joined : first ++ middle ≡ take t buf = take_then h (t - h) t buf (omega (arith, le)) in
    let first_size = length-take h buf (omega (arith, le, below)) in
    let front_size = length-take t buf below in
    ap (λ d. put_bytes d b (drop t buf))
      (put_bytes-put_bytes m c a first middle (omega (arith, at_a, first_size))
        ∙ ap (put_bytes m c) joined)
    ∙ put_bytes-put_bytes m c b (take t buf) (drop t buf) (omega (arith, at_b, front_size))
    ∙ ap (put_bytes m c) (take-drop t buf)

pub write_span_lem :
    (m : MemoryBlockDevice) (i r j e stop c : ℕ) (buf : List ℕ)
    → 0 < m.size
    → r < m.size
    → stop ≤ m.size
    → e ≡ i + 1 + j
    → c ≡ i * m.size + r
    → r + length buf ≡ m.size + j * m.size + stop
    → e * m.size + m.size ≤ length m.bytes
    → write_span memory_api i r e stop buf m ≡ some (put_bytes m c buf, ok (length buf))
unfolding write_span memory_api and_then
write_span_lem m i r j e stop c buf pos inside below ends at size room =
    let h : ℕ = m.size - r in
    let t : ℕ = length buf - stop in
    let middle : t - h ≡ j * m.size = omega (arith, size, inside, below) in
    let count : (t - h) / m.size ≡ j = ap (λ n. n / m.size) middle ∙ mul-div_cancel j pos in
    let last : e * m.size ≡ i * m.size + m.size + j * m.size =
      ap (λ n. n * m.size) ends ∙ omega arith in
    let next : (i + 1) * m.size ≡ i * m.size + m.size = omega arith in
    let first_size = length-take h buf (omega (arith, size, inside, below)) in
    let middle_size =
      length-take (t - h) (drop h buf) (omega (arith, length-drop h buf, size, inside, below)) in
    let m1 = put_bytes m c (take h buf) in
    let m2 = put_bytes m1 ((i + 1) * m.size) (take (t - h) (drop h buf)) in
    let first =
      write_head_lem m i r c (take h buf) (omega (arith, first_size, inside)) at
        (omega (arith, last, room)) in
    let chunks =
      write_chunks_lem m1 (i + 1) j (take (t - h) (drop h buf)) (middle_size ∙ middle)
        (omega (arith, next, last, room, length-splice c (take h buf) m.bytes)) in
    let final =
      write_tail_lem m2 e stop (drop t buf) (omega (arith, length-drop t buf, size)) below (
        omega (
          arith,
          room,
          length-splice c (take h buf) m.bytes,
          length-splice ((i + 1) * m.size) (take (t - h) (drop h buf)) m1.bytes,
        )) in
    let fits : leb h t ≡ true = ground (arith, middle, size, inside, below) in
    let parts =
      put_bytes-parts m c ((i + 1) * m.size) (e * m.size) h t buf
        (omega (arith, size, inside, below)) (omega (arith, size, below))
        (omega (arith, next, at, inside)) (omega (arith, last, at, size, inside, below)) in
    rw (write_span, fits, first, count, chunks, final) (ap (λ d. some (d, ok (length buf))) parts)
