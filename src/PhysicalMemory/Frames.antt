-- ===== src/PhysicalMemory/Frames.antt =====
-- kernel/physical_memory/src/lib.rs: `allocate_frames_impl`, and the frame allocator trait with its
-- implementations for the three page sizes.
use muffin.Base.{
  ℕ, zero, suc, ◌+◌, ◌-◌, ◌*◌, ◌%◌, ◌^◌, ◌<◌, ◌≡◌, Bool, true, false, ◌&&◌, ◌||◌, Option, none,
  some, List, [], ◌∷◌, get_elem?, set, drop, ltb, leb, ◌==◌, if◌then◌else◌,
}
use muffin.PhysicalMemory.Region.{free, is_allocated, small_size, MemoryRegion, frame_address}
use muffin.PhysicalMemory.Manager.{
  RegionFrameIndex, PhysicalMemoryManager, find_frame_location, update_first_free, search_from,
  fill,
}

-- `PhysFrameRangeInclusive`, by the start addresses of its first and its last frame.
pub record FrameRange : Type 0 where
  pub first : ℕ
  pub last : ℕ

-- `PhysFrame::from_start_address` and `PhysFrame::containing_address` of the x86_64 crate, by page
-- size and address.
pub record FrameApi : Type 0 where
  pub from_start_address : ℕ → ℕ → Option ℕ
  pub containing_address : ℕ → ℕ → ℕ

-- What the crate documents: an aligned physical address is that of a frame, which contains it.
pub record IsFrameApi (api : FrameApi) : Type 0 where
  pub aligned_ok :
      (size addr : ℕ)
      → addr < 2 ^ 52
      → addr % size ≡ 0
      → api.from_start_address size addr ≡ some addr
  pub containing_start : (size addr : ℕ) → addr % size ≡ 0 → api.containing_address size addr ≡ addr

-- A result, or `none` for a panic.
abbrev pub Run : Type 0 → Type 0
Run A = Option A

-- The marks and the cursor after frames `i` to `i + count - 1` of region `r` were found.
unfoldable pub mark :
    PhysicalMemoryManager
    → RegionFrameIndex
    → RegionFrameIndex
    → MemoryRegion
    → ℕ
    → PhysicalMemoryManager
mark m ff loc x count =
    let m' = record m {
      regions =
          set m.regions loc.region_idx (record x { frames = fill x.frames loc.frame_idx count });
    } in
    if loc.region_idx == ff.region_idx && leb loc.frame_idx ff.frame_idx
    then update_first_free m' loc.region_idx (loc.frame_idx + count)
    else m'

-- The frames at the two addresses, as a range.
unfoldable pub range_of : FrameApi → ℕ → ℕ → ℕ → Run FrameRange
range_of api size a b = elim (api.from_start_address size a) [
  | none ↦ none
  | some f ↦ elim (api.from_start_address size b) [
    | none ↦ none
    | some g ↦ some (record { first = f; last = g })
  ]
]

-- The body of `if all_free`, at position `loc` of region `x`: `n - 1` underflows at 0.
unfoldable pub claim :
    FrameApi
    → ℕ
    → ℕ
    → PhysicalMemoryManager
    → RegionFrameIndex
    → RegionFrameIndex
    → MemoryRegion
    → Run (Option FrameRange × PhysicalMemoryManager)
unfolding mark range_of
claim api k n m ff loc x = if n == 0 then none else elim (frame_address x loc.frame_idx) [
  | none ↦ none
  | some a ↦ elim (frame_address x (loc.frame_idx + (n - 1) * k)) [
    | none ↦ none
    | some b ↦ elim (range_of api (k * small_size) a b) [
      | none ↦ none
      | some range ↦ some (some range, mark m ff loc x (n * k))
    ]
  ]
]

-- `allocate_frames_impl` for pages of `k` small frames.
unfoldable pub allocate_frames :
    FrameApi → ℕ → ℕ → PhysicalMemoryManager → Run (Option FrameRange × PhysicalMemoryManager)
unfolding claim
allocate_frames api k n m = if leb (2 ^ 64) (n * k) then none else elim m.first_free [
  | none ↦ some (none, m)
  | some ff ↦ elim (search_from k (n * k) ff ff.region_idx (drop ff.region_idx m.regions)) [
    | none ↦ none
    | some none ↦ some (none, m)
    | some (some loc) ↦ elim (get_elem? m.regions loc.region_idx) [
      | none ↦ none
      | some x ↦ claim api k n m ff loc x
    ]
  ]
]

-- `allocate_frame`, the trait's default.
unfoldable pub allocate_frame :
    FrameApi → ℕ → PhysicalMemoryManager → Run (Option ℕ × PhysicalMemoryManager)
unfolding allocate_frames
allocate_frame api k m = elim (allocate_frames api k 1 m) [
  | none ↦ none
  | some (none, m') ↦ some (none, m')
  | some (some range, m') ↦ some (some range.first, m')
]

-- Whether `loc` comes before the cursor.
unfoldable pub is_before : RegionFrameIndex → Option RegionFrameIndex → Bool
is_before loc none = true
is_before loc (some ff) =
    ltb loc.region_idx ff.region_idx
    || (loc.region_idx == ff.region_idx && ltb loc.frame_idx ff.frame_idx)

-- The marks and the cursor after the allocated frame `loc` of region `x` is freed.
unfoldable pub unmark :
    PhysicalMemoryManager → RegionFrameIndex → MemoryRegion → PhysicalMemoryManager
unfolding is_before
unmark m loc x = record {
  regions = set m.regions loc.region_idx (record x { frames = set x.frames loc.frame_idx free });
  first_free = if is_before loc m.first_free then some loc else m.first_free;
}

-- The frame state at a location that was found.
unfoldable pub release_at :
    PhysicalMemoryManager → RegionFrameIndex → ℕ → Option ℕ × PhysicalMemoryManager
unfolding unmark
release_at m loc addr = elim (get_elem? m.regions loc.region_idx) [
  | none ↦ (none, m)
  | some x ↦ elim (get_elem? x.frames loc.frame_idx) [
    | none ↦ (none, m)
    | some s ↦ if is_allocated s then (some addr, unmark m loc x) else (none, m)
  ]
]

-- `deallocate_frame` of a 4 KiB frame, by its start address. A location that is found is in range.
unfoldable pub deallocate_small : PhysicalMemoryManager → ℕ → Option ℕ × PhysicalMemoryManager
unfolding release_at
deallocate_small m addr = elim (find_frame_location m.regions addr) [
  | none ↦ (none, m)
  | some loc ↦ release_at m loc addr
]

-- `for i in 0..count { self.deallocate_frame(..)?; }`, with the rounds left and the next `i`.
unfoldable pub deallocate_parts :
    (PhysicalMemoryManager → ℕ → Option ℕ × PhysicalMemoryManager)
    → FrameApi
    → ℕ
    → ℕ
    → ℕ
    → ℕ
    → PhysicalMemoryManager
    → Bool × PhysicalMemoryManager
deallocate_parts release api size zero i start m = (true, m)
deallocate_parts release api size (suc left) i start m =
    let (o, m') = release m (api.containing_address size (start + i * size)) in
    let rest = deallocate_parts release api size left (i + 1) start m' in
    elim o [ none ↦ (false, m') | some f ↦ rest ]

-- `deallocate_frame` of a 2 MiB frame.
unfoldable pub deallocate_2mib :
    FrameApi → PhysicalMemoryManager → ℕ → Option ℕ × PhysicalMemoryManager
unfolding deallocate_parts deallocate_small
deallocate_2mib api m addr =
    let (done, m') = deallocate_parts deallocate_small api small_size 512 0 addr m in
    (if done then some addr else none, m')

-- `deallocate_frame` of a 1 GiB frame.
unfoldable pub deallocate_1gib :
    FrameApi → PhysicalMemoryManager → ℕ → Option ℕ × PhysicalMemoryManager
unfolding deallocate_parts deallocate_2mib
deallocate_1gib api m addr =
    let (done, m') = deallocate_parts (deallocate_2mib api) api (512 * small_size) 512 0 addr m in
    (if done then some addr else none, m')

abbrev pub extend : Option FrameRange → ℕ → FrameRange
extend none frame = record { first = frame; last = frame }
extend (some r) frame = record { first = r.first; last = frame }

-- `deallocate_frames`, the trait's default, over the frames of the range.
unfoldable pub deallocate_frames :
    (PhysicalMemoryManager → ℕ → Option ℕ × PhysicalMemoryManager)
    → List ℕ
    → Option FrameRange
    → PhysicalMemoryManager
    → Option FrameRange × PhysicalMemoryManager
deallocate_frames release [] res m = (res, m)
deallocate_frames release (frame ∷ frames) res m =
    let (o, m') = release m frame in
    let rest = λ (f : ℕ). deallocate_frames release frames (some (extend res f)) m' in
    elim o [ none ↦ (none, m') | some f ↦ rest f ]
