-- ===== src/PhysicalMemory/Manager.antt =====
-- kernel/physical_memory/src/lib.rs: the manager, its cursor `first_free`, allocation and release.
use muffin.Base.{
  ℕ, zero, suc, ◌+◌, ◌-◌, ◌*◌, ◌/◌, ◌%◌, ◌^◌, Bool, Option, none, some, List, [], ◌∷◌, length,
  get_elem?, take, drop, all, ltb, leb, ◌==◌, if◌then◌else◌,
}
use muffin.PhysicalMemory.Region.{
  FrameState, allocated, is_free, small_size, MemoryRegion, len, frame_index,
}

pub record RegionFrameIndex : Type 0 where
  pub region_idx : ℕ
  pub frame_idx : ℕ

pub record PhysicalMemoryManager : Type 0 where
  pub regions : List MemoryRegion
  pub first_free : Option RegionFrameIndex

-- `frames.iter().position(|&s| s == Free)`, counted from `i`.
unfoldable pub free_position : ℕ → List FrameState → Option ℕ
free_position i [] = none
free_position i (x ∷ xs) = if is_free x then some i else free_position (i + 1) xs

-- The enumeration of `find_first_free_internal`, from region `r` on.
unfoldable pub find_first_free_from : ℕ → List MemoryRegion → Option RegionFrameIndex
find_first_free_from r [] = none
find_first_free_from r (x ∷ xs) =
    let rest = find_first_free_from (r + 1) xs in
    elim (free_position 0 x.frames) [
      | some i ↦ some (record { region_idx = r; frame_idx = i })
      | none ↦ rest
    ]

-- `find_first_free_internal`.
unfoldable pub find_first_free : List MemoryRegion → Option RegionFrameIndex
find_first_free rs = find_first_free_from 0 rs

unfoldable pub new_manager : List MemoryRegion → PhysicalMemoryManager
unfolding find_first_free
new_manager rs = record { regions = rs; first_free = find_first_free rs }

-- The enumeration of `find_frame_location`, from region `r` on.
unfoldable pub find_location_from : ℕ → List MemoryRegion → ℕ → Option RegionFrameIndex
find_location_from r [] addr = none
find_location_from r (x ∷ xs) addr =
    let rest = find_location_from (r + 1) xs addr in
    elim (frame_index x addr) [
      | some i ↦ some (record { region_idx = r; frame_idx = i })
      | none ↦ rest
    ]

unfoldable pub find_frame_location : List MemoryRegion → ℕ → Option RegionFrameIndex
find_frame_location rs addr = find_location_from 0 rs addr

-- The scan of the current region from `start`, if there is such a region and frame.
unfoldable pub free_in_region : List MemoryRegion → ℕ → ℕ → Option ℕ
free_in_region rs r start = elim (get_elem? rs r) [
  | none ↦ none
  | some x ↦ if ltb start (len x) then free_position start (drop start x.frames) else none
]

unfoldable pub update_first_free : PhysicalMemoryManager → ℕ → ℕ → PhysicalMemoryManager
unfolding free_in_region
update_first_free m r start = elim (free_in_region m.regions r start) [
  | some i ↦ record m { first_free = some (record { region_idx = r; frame_idx = i }) }
  | none ↦ record m { first_free = find_first_free_from (r + 1) (drop (r + 1) m.regions) }
]

-- The first index from `start` on whose frame lies on a page of `k` small frames.
unfoldable pub align_up : ℕ → MemoryRegion → ℕ → ℕ
align_up k x start =
    let mis = (x.base_addr + start * small_size) % (k * small_size) in
    if mis == 0 then start else start + (k * small_size - mis) / small_size

-- `frames[start..start + count].iter().all(|&s| s == Free)`.
unfoldable pub all_free : List FrameState → ℕ → ℕ → Bool
all_free xs start count = all is_free (take count (drop start xs))

-- The `while` over aligned positions: `none` when a sum does not fit `usize`, and when the fuel runs out.
-- A sum that overflowed before, in `current_start`, does so in the test too.
unfoldable pub scan : ℕ → ℕ → ℕ → List FrameState → ℕ → Option (Option ℕ)
scan zero k count xs start = none
scan (suc f) k count xs start =
    let rest = scan f k count xs (start + k) in
    if leb (2 ^ 64) (start + count)
    then none
    else (if leb (start + count) (length xs)
        then (if all_free xs start count then some (some start) else rest)
        else some none)

-- One round of the `for` over regions: the frame found in this region, or `none` for a panic.
unfoldable pub search_region : ℕ → ℕ → MemoryRegion → ℕ → Option (Option ℕ)
search_region k count x start =
    if leb (len x) start
    then some none
    else scan (suc (len x)) k count x.frames (align_up k x start)

-- The `for` over regions from `r` on, of which `xs` are left; `none` for a panic.
unfoldable pub search_from :
    ℕ → ℕ → RegionFrameIndex → ℕ → List MemoryRegion → Option (Option RegionFrameIndex)
search_from k count ff r [] = some none
search_from k count ff r (x ∷ xs) =
    let rest = search_from k count ff (r + 1) xs in
    elim (search_region k count x (if r == ff.region_idx then ff.frame_idx else 0)) [
      | none ↦ none
      | some (some i) ↦ some (some (record { region_idx = r; frame_idx = i }))
      | some none ↦ rest
    ]

-- `frames[start..start + count].fill(Allocated)`.
unfoldable pub fill : List FrameState → ℕ → ℕ → List FrameState
fill [] start count = []
fill (x ∷ xs) (suc start) count = x ∷ fill xs start count
fill (x ∷ xs) zero zero = x ∷ xs
fill (x ∷ xs) zero (suc count) = allocated ∷ fill xs zero count
