-- ===== src/PhysicalMemory/Spots.antt =====
-- kernel/physical_memory/src/lib.rs seen frame by frame: the state at each place, and what the scans for
-- a first free frame find.
use muffin.Base.{
  ℕ, zero, suc, ◌+◌, ◌≡◌, refl, Bool, true, false, ◌&&◌, ◌||◌, Option, none, some, List, [], ◌∷◌,
  get_elem?, ltb, ◌==◌, arith, Bool-cases, inl, inr,
}
use muffin.PhysicalMemory.Region.{FrameState, is_free, MemoryRegion}
use muffin.PhysicalMemory.Manager.{
  RegionFrameIndex, free_position, find_first_free_from, find_first_free,
}

abbrev pub state_at : List MemoryRegion → ℕ → ℕ → Option FrameState
state_at [] r i = none
state_at (x ∷ xs) zero i = get_elem? x.frames i
state_at (x ∷ xs) (suc r) i = state_at xs r i

abbrev pub holds_free : Option FrameState → Bool
holds_free none = false
holds_free (some s) = is_free s

abbrev pub free_at : List MemoryRegion → ℕ → ℕ → Bool
free_at rs r i = holds_free (state_at rs r i)

-- The order in which the scans go through the frames.
abbrev pub before : ℕ → ℕ → ℕ → ℕ → Bool
before e j d i = ltb e d || (e == d && ltb j i)

-- `o` is the position of the first free frame of `xs`, counted from `s`.
pub data Position (s : ℕ) (xs : List FrameState) (o : Option ℕ) : Type 0 where
  absent : o ≡ none → ((j : ℕ) → holds_free (get_elem? xs j) ≡ false) → Position s xs o
  at :
      (d : ℕ)
      → o ≡ some (s + d)
      → holds_free (get_elem? xs d) ≡ true
      → ((j : ℕ) → (ltb j d && holds_free (get_elem? xs j)) ≡ false)
      → Position s xs o

Position-next :
    (s : ℕ) (x : FrameState) (xs : List FrameState) (o : Option ℕ)
    → is_free x ≡ false
    → Position (s + 1) xs o
    → Position s (x ∷ xs) o
Position-next s x xs o busy (absent e none_free) =
    absent e (elim [ zero ↦ busy | suc j ↦ none_free j ])
Position-next s x xs o busy (at d e here first) =
    at (suc d) (ground (arith, e)) here
      (elim [ zero ↦ ground arith | suc j ↦ ground (arith, first j) ])

pub free_position-Position : (s : ℕ) (xs : List FrameState) → Position s xs (free_position s xs)
unfolding free_position
free_position-Position s [] = absent refl (λ j. refl)
free_position-Position s (x ∷ xs) = elim (Bool-cases (is_free x)) [
  | inl free ↦ at 0 (ground arith) free (λ j. ground arith)
  | inr busy ↦ rw busy (Position-next s x xs _ busy (free_position-Position (s + 1) xs))
]

abbrev pub spot : ℕ → ℕ → RegionFrameIndex
spot r i = record { region_idx = r; frame_idx = i }

-- `o` is the place of the first free frame of the regions `rs`, the first of which has number `r`.
pub data First (r : ℕ) (rs : List MemoryRegion) (o : Option RegionFrameIndex) : Type 0 where
  full : o ≡ none → ((d i : ℕ) → free_at rs d i ≡ false) → First r rs o
  found :
      (d i : ℕ)
      → o ≡ some (spot (r + d) i)
      → free_at rs d i ≡ true
      → ((e j : ℕ) → (before e j d i && free_at rs e j) ≡ false)
      → First r rs o

First-next :
    (r : ℕ) (x : MemoryRegion) (xs : List MemoryRegion) (o : Option RegionFrameIndex)
    → ((j : ℕ) → holds_free (get_elem? x.frames j) ≡ false)
    → First (r + 1) xs o
    → First r (x ∷ xs) o
First-next r x xs o busy (full e none_free) = full e (elim [ zero ↦ busy | suc d ↦ none_free d ])
First-next r x xs o busy (found d i e here first) =
    found (suc d) i (ground (arith, e)) here
      (elim [ zero ↦ λ j. ground (arith, busy j) | suc c ↦ λ j. ground (arith, first c j) ])

First-at :
    (r : ℕ) (x : MemoryRegion) (xs : List MemoryRegion) (o : Option ℕ)
    → Position 0 x.frames o
    → First (r + 1) xs (find_first_free_from (r + 1) xs)
    → free_position 0 x.frames ≡ o
    → First r (x ∷ xs) (find_first_free_from r (x ∷ xs))
unfolding find_first_free_from
First-at r x xs o (absent e busy) later is =
    rw (is, e, find_first_free_from) (First-next r x xs _ busy later)
First-at r x xs o (at d e here first) later is =
    found 0 d (ground (arith, is, e)) here
      (elim [ zero ↦ λ j. ground (arith, first j) | suc c ↦ λ j. ground arith ])

pub find_first_free_from-First :
    (r : ℕ) (rs : List MemoryRegion) → First r rs (find_first_free_from r rs)
unfolding find_first_free_from
find_first_free_from-First r [] = full refl (λ d i. refl)
find_first_free_from-First r (x ∷ xs) =
    First-at r x xs _ (free_position-Position 0 x.frames) (find_first_free_from-First (r + 1) xs)
      refl

-- The cursor of a manager: the first free frame of all regions, if there is one.
abbrev pub IsFirst : List MemoryRegion → Option RegionFrameIndex → Type 0
IsFirst rs o = First 0 rs o

pub find_first_free-IsFirst : (rs : List MemoryRegion) → IsFirst rs (find_first_free rs)
unfolding find_first_free
find_first_free-IsFirst rs = find_first_free_from-First 0 rs
