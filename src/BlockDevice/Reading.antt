-- ===== src/BlockDevice/Reading.antt =====
-- kernel/device/src/block: a read of a memory device returns the bytes at its offset.
use native.Mathlib.Nat.{mod-lt, mod-add-div'}
use muffin.Base.{
  ℕ, zero, suc, ◌+◌, ◌-◌, ◌*◌, ◌/◌, ◌%◌, ◌^◌, ◌≤◌, ◌<◌, ◌≡◌, ◌∙◌, refl, ap, true, false, ◌&&◌, some,
  List, [], ◌∷◌, ◌++◌, length, take, drop, ltb, ◌==◌, ok, arith, Bool-cases, inl, inr,
}
use muffin.BlockDevice.Sectors.{
  BlockDevice, slice, read_sectors, cut, read_at, MemoryBlockDevice, memory_read_sector,
  memory_device,
}

-- A list of bytes from `c = a + b` on.
pub drop-drop : (a b c : ℕ) (xs : List ℕ) → c ≡ a + b → drop b (drop a xs) ≡ drop c xs
drop-drop zero b c xs h = let e : c ≡ b = omega arith in rw e refl
drop-drop (suc a) b zero xs h = absurd (omega arith)
drop-drop (suc a) zero (suc c) [] h = refl
drop-drop (suc a) (suc b) (suc c) [] h = refl
drop-drop (suc a) b (suc c) (x ∷ xs) h = drop-drop a b c xs (omega arith)

pub take_then : (a b c : ℕ) (xs : List ℕ) → c ≡ a + b → take a xs ++ take b (drop a xs) ≡ take c xs
take_then zero b c xs h = let e : c ≡ b = omega arith in rw e refl
take_then (suc a) b zero xs h = absurd (omega arith)
take_then (suc a) zero (suc c) [] h = refl
take_then (suc a) (suc b) (suc c) [] h = refl
take_then (suc a) b (suc c) (x ∷ xs) h = ap (λ l. x ∷ l) (take_then a b c xs (omega arith))

take_of_take : (n m : ℕ) (xs : List ℕ) → n ≤ m → take n (take m xs) ≡ take n xs
take_of_take zero m xs h = refl
take_of_take (suc n) zero xs h = absurd (omega arith)
take_of_take (suc n) (suc m) [] h = refl
take_of_take (suc n) (suc m) (x ∷ xs) h = ap (λ l. x ∷ l) (take_of_take n m xs (omega arith))

pub take-drop-take :
    (r n m : ℕ) (xs : List ℕ) → r + n ≤ m → take n (drop r (take m xs)) ≡ take n (drop r xs)
take-drop-take zero n m xs h = take_of_take n m xs (omega arith)
take-drop-take (suc r) n zero xs h = absurd (omega arith)
take-drop-take (suc r) n (suc m) [] h = refl
take-drop-take (suc r) n (suc m) (x ∷ xs) h = take-drop-take r n m xs (omega arith)

pub length-take : (n : ℕ) (xs : List ℕ) → n ≤ length xs → length (take n xs) ≡ n
length-take zero xs h = refl
length-take (suc n) [] h = omega arith
length-take (suc n) (x ∷ xs) h = ap suc (length-take n xs (omega arith))

pub length-drop : (n : ℕ) (xs : List ℕ) → length (drop n xs) ≡ length xs - n
length-drop zero xs = omega arith
length-drop (suc n) [] = omega arith
length-drop (suc n) (x ∷ xs) = omega (arith, length-drop n xs)

pub times-suc : (k n : ℕ) → suc k * n ≡ n + k * n
times-suc k n = omega arith

-- A product that is below another with the same factor.
pub times-lt : (a b n : ℕ) → a * n < b * n → a < b
times-lt a b n h = elim (Bool-cases (ltb a b)) [
  | inl below ↦ ground arith
  | inr above ↦
      let reaches : b ≤ a = ground arith in
      let more : b * n ≤ a * n = grind arith in absurd (omega arith)
]

pub times-add : (a b n : ℕ) → a * n + b * n ≡ (a + b) * n
times-add a b n = omega arith

pub times-le : (a b n : ℕ) → a ≤ b → a * n ≤ b * n
times-le a b n h = grind arith

read_sectors-suc :
    {E : Type 0} (d : BlockDevice E) (start k : ℕ) (bytes more : List ℕ)
    → d.read_sector start ≡ some (ok bytes)
    → read_sectors d (start + 1) k ≡ some (ok more)
    → read_sectors d start (suc k) ≡ some (ok (bytes ++ more))
unfolding read_sectors
read_sectors-suc d start k bytes more h r = ground (arith, h, r)

module _ {E : Type 0} (d : BlockDevice E) where
  pub read_at-exact :
      (offset n : ℕ)
      → 0 < n
      → ((offset % d.sector_size == 0) && (n == d.sector_size)) ≡ true
      → read_at d offset n ≡ d.read_sector (offset / d.sector_size)
  unfolding read_at
  read_at-exact offset n h aligned = ground (arith, aligned)

  pub read_at-across :
      (offset n : ℕ)
      → 0 < n
      → 0 < d.sector_size
      → offset + n < 2 ^ 64
      → ((offset % d.sector_size == 0) && (n == d.sector_size)) ≡ false
      → let first = offset / d.sector_size in
        let last = (offset + n - 1) / d.sector_size in
        read_at d offset n
        ≡ cut (read_sectors d first (last - first + 1)) (offset % d.sector_size) n
  unfolding read_at
  read_at-across offset n h pos_size small across = ground (arith, across)

module _ (m : MemoryBlockDevice) where
  pub read_one :
      (i : ℕ)
      → i * m.size + m.size ≤ length m.bytes
      → memory_read_sector m i ≡ some (ok (take m.size (drop (i * m.size) m.bytes)))
  unfolding memory_read_sector slice
  read_one i h = ground arith

  read_all :
      (start k : ℕ)
      → start * m.size + k * m.size ≤ length m.bytes
      → read_sectors (memory_device m) start k
        ≡ some (ok (take (k * m.size) (drop (start * m.size) m.bytes)))
  unfolding read_sectors memory_device
  read_all start zero h = let e : 0 * m.size ≡ 0 = omega arith in rw e refl
  read_all start (suc k) h =
      let next : (start + 1) * m.size ≡ start * m.size + m.size = omega arith in
      let total : suc k * m.size ≡ m.size + k * m.size = omega arith in
      read_sectors-suc (memory_device m) start k (take m.size (drop (start * m.size) m.bytes))
        (take (k * m.size) (drop ((start + 1) * m.size) m.bytes))
        (read_one start (omega (arith, total)))
        (read_all (start + 1) k (omega (arith, next, total)))
      ∙ ap (λ l. some (ok l))
          (rw (next, ← drop-drop (start * m.size) m.size (start * m.size + m.size) m.bytes refl)
            (take_then m.size (k * m.size) (suc k * m.size) (drop (start * m.size) m.bytes) total))

  exact_sector :
      (i offset n : ℕ)
      → offset ≡ i * m.size
      → n ≡ m.size
      → i * m.size + m.size ≤ length m.bytes
      → memory_read_sector m i ≡ some (ok (take n (drop offset m.bytes)))
  exact_sector i offset n at size h = rw (at, size) (read_one i h)

  cut_all :
      (start k r n c : ℕ)
      → start * m.size + k * m.size ≤ length m.bytes
      → r + n ≤ k * m.size
      → c ≡ start * m.size + r
      → cut (read_sectors (memory_device m) start k) r n ≡ some (ok (take n (drop c m.bytes)))
  unfolding cut slice
  cut_all start k r n c h q e =
      let all : List ℕ = take (k * m.size) (drop (start * m.size) m.bytes) in
      let size : length all ≡ k * m.size =
        length-take (k * m.size) (drop (start * m.size) m.bytes)
          (omega (arith, length-drop (start * m.size) m.bytes)) in
      let part : take n (drop r all) ≡ take n (drop c m.bytes) =
        take-drop-take r n (k * m.size) (drop (start * m.size) m.bytes) q
        ∙ ap (λ l. take n l) (drop-drop (start * m.size) r c m.bytes e) in
      rw (read_all start k h) (ground (arith, size, part))

  -- On a memory device of whole sectors, none empty, a read within the device whose end fits 64 bits returns exactly the bytes at its offset,
  -- however it lies across the sectors; it neither panics nor fails.
  pub read_at_lem :
      (count offset n : ℕ)
      → 0 < m.size
      → length m.bytes ≡ count * m.size
      → offset + n ≤ length m.bytes
      → offset + n < 2 ^ 64
      → read_at (memory_device m) offset n ≡ some (ok (take n (drop offset m.bytes)))
  unfolding memory_device
  read_at_lem count offset zero h whole room small = unfold read_at in refl
  read_at_lem count offset (suc n) h whole room small =
      let first : ℕ = offset / m.size in
      let last : ℕ = (offset + suc n - 1) / m.size in
      let begin : offset % m.size + first * m.size ≡ offset = mod-add-div' offset m.size in
      let end : (offset + suc n - 1) % m.size + last * m.size ≡ offset + suc n - 1 =
        mod-add-div' (offset + suc n - 1) m.size in
      let within : last < count = times-lt last count m.size (omega (arith, whole, end)) in
      let after : first < last + 1 =
        times-lt first (last + 1) m.size
          (omega (arith, begin, end, mod-lt (offset + suc n - 1) h)) in
      let span : first * m.size + (last - first + 1) * m.size ≡ (last + 1) * m.size =
        times-add first (last - first + 1) m.size
        ∙ ap (λ t. t * m.size) {x = first + (last - first + 1)} {y = last + 1}
            (omega (arith, after)) in
      let fits : (last + 1) * m.size ≤ count * m.size =
        times-le (last + 1) count m.size (omega (arith, within)) in
      let general =
        cut_all first (last - first + 1) (offset % m.size) (suc n) offset
          (omega (arith, span, fits, whole))
          (omega (arith, span, begin, end, mod-lt (offset + suc n - 1) h)) (omega (arith, begin)) in
      let exact = exact_sector first offset (suc n) in
      elim (Bool-cases ((offset % m.size == 0) && (suc n == m.size))) [
        | inl aligned ↦
            read_at-exact (memory_device m) offset (suc n) (omega arith) aligned
            ∙ exact (ground (arith, begin)) (ground arith) (ground (arith, begin, whole))
        | inr across ↦
            read_at-across (memory_device m) offset (suc n) (omega arith) h small across ∙ general
      ]
