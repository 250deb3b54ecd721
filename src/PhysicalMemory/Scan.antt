-- ===== src/PhysicalMemory/Scan.antt =====
-- kernel/physical_memory/src/lib.rs: the loop over aligned positions finds the first run of free
-- frames, or there is none.
use muffin.Base.{
  ℕ, zero, suc, ◌+◌, ◌-◌, ◌*◌, ◌^◌, ◌≤◌, ◌<◌, ◌≡◌, refl, ap, Bool, true, false, ◌&&◌, Option, none,
  some, List, [], ◌∷◌, length, get_elem?, take, drop, all, ltb, leb, arith, Bool-cases, inl, inr,
}
use muffin.PhysicalMemory.Region.{FrameState, is_free}
use muffin.PhysicalMemory.Manager.{all_free, scan}
use muffin.PhysicalMemory.Spots.{holds_free}
use muffin.PhysicalMemory.Marks.{get_elem?-drop}

-- A run of `count` free frames of `xs` at `i`.
abbrev pub is_run : List FrameState → ℕ → ℕ → Bool
is_run xs count i = leb (i + count) (length xs) && all_free xs i count

all-take-free :
    (xs : List FrameState) (count j : ℕ)
    → all is_free (take count xs) ≡ true
    → count ≤ length xs
    → j < count
    → holds_free (get_elem? xs j) ≡ true
all-take-free xs zero j h c l = elim l [ ]
all-take-free [] (suc count) j h c l = absurd (omega arith)
all-take-free (x ∷ xs) (suc count) zero h c l = ground arith
all-take-free (x ∷ xs) (suc count) (suc j) h c l =
    all-take-free xs count j (ground arith) (omega arith) (omega arith)

length-drop : (n : ℕ) (xs : List FrameState) → length (drop n xs) ≡ length xs - n
length-drop zero xs = omega arith
length-drop (suc n) [] = omega arith
length-drop (suc n) (x ∷ xs) = omega (arith, length-drop n xs)

-- Every frame of a run is free.
pub is_run-free :
    (xs : List FrameState) (count i j : ℕ)
    → is_run xs count i ≡ true
    → i ≤ j
    → j < i + count
    → holds_free (get_elem? xs j) ≡ true
unfolding all_free
is_run-free xs count i j h lo hi =
    let split : i + (j - i) ≡ j = omega arith in
    ground (
      arith,
      all-take-free (drop i xs) count (j - i),
      length-drop i xs,
      get_elem?-drop i xs (j - i),
      ap (get_elem? xs) split,
    )

-- `o` is the first run among the positions `start`, `start + k`, `start + 2 * k`, ….
pub data FirstRun (k count : ℕ) (xs : List FrameState) (start : ℕ) (o : Option ℕ) : Type 0 where
  none_found :
      o ≡ none → ((q : ℕ) → is_run xs count (start + q * k) ≡ false) → FirstRun k count xs start o
  run_found :
      (q : ℕ)
      → o ≡ some (start + q * k)
      → is_run xs count (start + q * k) ≡ true
      → ((p : ℕ) → (ltb p q && is_run xs count (start + p * k)) ≡ false)
      → FirstRun k count xs start o

next_position : (start k q : ℕ) → start + suc q * k ≡ start + k + q * k
next_position start k q = omega arith

run_later :
    (k count : ℕ) (xs : List FrameState) (start : ℕ) (o : Option ℕ)
    → is_run xs count start ≡ false
    → FirstRun k count xs (start + k) o
    → FirstRun k count xs start o
run_later k count xs start o busy (none_found e rest) =
    none_found e
      (elim [ zero ↦ ground (arith, busy) | suc q ↦ rw (next_position start k q) (rest q) ])
run_later k count xs start o busy (run_found q e here first) =
    run_found (suc q) (rw (next_position start k q) e) (rw (next_position start k q) here) (elim [
      | zero ↦ ground (arith, busy)
      | suc p ↦ rw (next_position start k p) (ground (arith, first p))
    ])

-- With fuel for every position in the list, and sums that fit a word, the loop ends by its test.
pub scan-FirstRun :
    (f k count : ℕ) (xs : List FrameState) (start : ℕ)
    → 0 < k
    → 0 < count
    → 0 < f
    → length xs < start + f
    → start ≤ length xs + k
    → length xs + k + count < 2 ^ 64
    → (o : Option ℕ) × (scan f k count xs start ≡ some o) × FirstRun k count xs start o
unfolding scan
scan-FirstRun zero k count xs start h c some_left fuel le small = absurd (omega arith)
scan-FirstRun (suc f) k count xs start h c some_left fuel le small =
    elim (Bool-cases (leb (start + count) (length xs))) [
      | inr past ↦ (none, ground (arith, past), none_found refl (λ q. ground arith))
      | inl room ↦ elim (Bool-cases (all_free xs start count)) [
        | inl hit ↦ (
          some start,
          ground (arith, room, hit),
          run_found 0 (ground (arith, room, hit)) (ground (arith, room, hit)) (λ p. ground arith),
        )
        | inr miss ↦
            let (o, is, first) =
              scan-FirstRun f k count xs (start + k) h c (ground arith) (omega arith) (ground arith)
                small in
            (
              o,
              ground (arith, room, miss, is),
              run_later k count xs start o (ground (arith, room, miss)) first,
            )
      ]
    ]
