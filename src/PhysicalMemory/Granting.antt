-- ===== src/PhysicalMemory/Granting.antt =====
-- kernel/physical_memory/src/lib.rs: `allocate_frames` grants a free aligned range or none is left.
use muffin.Base.{
  ℕ, ◌+◌, ◌-◌, ◌*◌, ◌^◌, ◌≤◌, ◌<◌, ◌≡◌, refl, ap, sym, ◌∙◌, true, false, none, some, List,
  get_elem?, drop, arith, Bool-cases, Option-cases, inl, inr,
}
use muffin.PhysicalMemory.Region.{MemoryRegion, len, small_size, frame_address}
use muffin.PhysicalMemory.Manager.{RegionFrameIndex, PhysicalMemoryManager, search_from}
use muffin.PhysicalMemory.Frames.{FrameRange, FrameApi, IsFrameApi, mark, claim, allocate_frames}
use muffin.PhysicalMemory.Spots.{free_at, before}
use muffin.PhysicalMemory.Marks.{state_at-some, get_elem?-drop}
use muffin.PhysicalMemory.Alignment.{IsAligned, IsAligned-add}
use muffin.PhysicalMemory.Scan.{is_run, is_run-free}
use muffin.PhysicalMemory.Cursor.{none_left, first_facts, state_at-mark, mark-IsFirst}
use muffin.PhysicalMemory.Release.{IsValid}
use muffin.PhysicalMemory.Allocation.{
  IsPlaced, ArePlaced, IsPlaced-at, search_region-some, search_region-none, start_in,
  search_from_total, search_from-some, search_from-none, AreFit, AreFit-placed, AreFit-drop, Grants,
  Allocates, exhausted, granted,
}

pages_split : (n k : ℕ) → 0 < n → (n - 1) * k + k ≡ n * k
pages_split n k h = let e : n ≡ (n - 1) + 1 = omega arith in omega (arith, ap (λ t. t * k) e)

-- The range that is claimed at `loc`.
module _ {api : FrameApi} (k n : ℕ) (m : PhysicalMemoryManager) (ff loc : RegionFrameIndex)
    (x : MemoryRegion) (laws : IsFrameApi api) (pos_k : 0 < k) (pos_n : 0 < n) (placed : IsPlaced x)
    (aligned : IsAligned k x loc.frame_idx)
    (run : is_run x.frames (n * k) loc.frame_idx ≡ true) where
  abbrev range : FrameRange
  range = record {
    first = x.base_addr + loc.frame_idx * small_size;
    last = x.base_addr + (loc.frame_idx + (n - 1) * k) * small_size;
  }

  range_fits : loc.frame_idx + n * k ≤ len x
  range_fits = ground arith

  first_ok : api.from_start_address (k * small_size) range.first ≡ some range.first
  first_ok =
      laws.aligned_ok (k * small_size) range.first
        (omega (arith, placed.1, range_fits, pages_split n k pos_n)) aligned

  last_ok : api.from_start_address (k * small_size) range.last ≡ some range.last
  last_ok =
      laws.aligned_ok (k * small_size) range.last
        (omega (arith, placed.1, range_fits, pages_split n k pos_n))
        (IsAligned-add k loc.frame_idx (n - 1) x aligned)

  claim_lem : claim api k n m ff loc x ≡ some (some range, mark m ff loc x (n * k))
  unfolding claim frame_address
  claim_lem = ground (arith, first_ok, last_ok, range_fits, pages_split n k pos_n)

  claim-Grants :
      get_elem? m.regions loc.region_idx ≡ some x
      → m.first_free ≡ some ff
      → IsValid m
      → before loc.region_idx loc.frame_idx ff.region_idx ff.frame_idx ≡ false
      → Grants k n m range (mark m ff loc x (n * k))
  claim-Grants here cursor v later = record {
    loc = loc;
    region = x;
    is_region = here;
    aligned = aligned;
    fits = range_fits;
    first_is = refl;
    last_is = omega arith;
    were_free = λ j. ground (
      arith,
      is_run-free x.frames (n * k) loc.frame_idx j run,
      state_at-some m.regions loc.region_idx j here,
    );
    states = state_at-mark m ff loc x (n * k) here range_fits;
    valid = mark-IsFirst m ff loc x (n * k) here range_fits cursor v later;
  }

get_elem?-drop-some :
    (n d : ℕ) (rs : List MemoryRegion) {x : MemoryRegion}
    → get_elem? (drop n rs) d ≡ some x
    → get_elem? rs (n + d) ≡ some x
get_elem?-drop-some n d rs e = ground (arith, get_elem?-drop n rs d)

fit_after :
    (k n : ℕ) (ff : RegionFrameIndex) (m : PhysicalMemoryManager)
    → ArePlaced m.regions
    → 0 < n
    → n * k ≤ 2 ^ 62
    → AreFit k (n * k) (drop ff.region_idx m.regions)
fit_after k n ff m placed pos_n small =
    AreFit-drop k (n * k) ff.region_idx m.regions
      (AreFit-placed k n m.regions (omega (arith, pages_split n k pos_n)) small placed)

-- The search found `loc`.
search_granted :
    {api : FrameApi} (k n : ℕ) (m : PhysicalMemoryManager) (ff loc : RegionFrameIndex)
    → IsFrameApi api
    → 0 < k
    → 0 < n
    → ArePlaced m.regions
    → IsValid m
    → n * k ≤ 2 ^ 62
    → m.first_free ≡ some ff
    → search_from k (n * k) ff ff.region_idx (drop ff.region_idx m.regions) ≡ some (some loc)
    → (range : FrameRange) × (m' : PhysicalMemoryManager) × (allocate_frames api k n m
        ≡ some (some range, m'))
      × Grants k n m range m'
unfolding allocate_frames
search_granted {api} k n m ff loc laws pos_k pos_n placed v small cursor hit =
    let (d, x, at, is_x, fits, found) =
      search_from-some k (n * k) ff ff.region_idx (drop ff.region_idx m.regions) loc pos_k
        (omega (arith, pages_split n k pos_n)) (fit_after k n ff m placed pos_n small) hit in
    let there : get_elem? m.regions (ff.region_idx + d) ≡ some x =
      get_elem?-drop-some ff.region_idx d m.regions is_x in
    let here : get_elem? m.regions loc.region_idx ≡ some x = rw at there in
    let p : IsPlaced x = IsPlaced-at m.regions loc.region_idx placed here in
    let (al, ge, run) =
      search_region-some k (n * k) x (start_in ff (ff.region_idx + d)) loc.frame_idx pos_k
        (omega (arith, pages_split n k pos_n)) fits p found in
    let later : before loc.region_idx loc.frame_idx ff.region_idx ff.frame_idx ≡ false =
      ground arith in
    (
      range {api = api} k n m ff loc x laws pos_k pos_n p al run,
      mark m ff loc x (n * k),
      ground (
        arith,
        cursor,
        hit,
        here,
        claim_lem {api = api} k n m ff loc x laws pos_k pos_n p al run,
      ),
      claim-Grants {api = api} k n m ff loc x laws pos_k pos_n p al run here cursor v later,
    )

-- For at least one page, in a request of at most `2 ^ 62` small frames, on regions at page
-- boundaries and an exact cursor, allocation does not panic: it changes nothing and returns `None`, or it
-- grants an aligned run of frames that were free, marks exactly those and keeps the cursor exact.
pub allocate_frames-Allocates :
    {api : FrameApi} (k n : ℕ) (m : PhysicalMemoryManager)
    → IsFrameApi api
    → 0 < k
    → 0 < n
    → n * k ≤ 2 ^ 62
    → ArePlaced m.regions
    → IsValid m
    → Allocates k n m (allocate_frames api k n m)
unfolding allocate_frames
allocate_frames-Allocates {api} k n m laws pos_k pos_n small placed v =
    elim (Option-cases m.first_free) [
      | inl none_free ↦ exhausted (ground (arith, none_free))
      | inr (ff, cursor) ↦
          let rest = drop ff.region_idx m.regions in
          let (o, run) =
            search_from_total k (n * k) ff ff.region_idx rest pos_k
              (omega (arith, pages_split n k pos_n)) (fit_after k n ff m placed pos_n small) in
          elim (Option-cases o) [
            | inl miss ↦ exhausted (ground (arith, cursor, run ∙ ap some miss))
            | inr (loc, hit) ↦
                let (r, m', is, g) =
                  search_granted k n m ff loc laws pos_k pos_n placed v small cursor
                    (run ∙ ap some hit) in
                granted r m' is g
          ]
    ]

no_free-no_run :
    (rs : List MemoryRegion) (r i count : ℕ) {x : MemoryRegion}
    → get_elem? rs r ≡ some x
    → 0 < count
    → free_at rs r i ≡ false
    → is_run x.frames count i ≡ false
no_free-no_run rs r i count {x = x} here pos busy = elim (Bool-cases (is_run x.frames count i)) [
  | inr no_run ↦ no_run
  | inl run ↦ ground (
    arith,
    is_run-free x.frames count i i run (omega arith) (omega arith),
    state_at-some rs r i here,
  )
]

missed_run :
    (k n : ℕ) (m : PhysicalMemoryManager) (ff : RegionFrameIndex) (r i : ℕ) {x : MemoryRegion}
    → 0 < k
    → 0 < n
    → n * k ≤ 2 ^ 62
    → ArePlaced m.regions
    → IsValid m
    → m.first_free ≡ some ff
    → search_from k (n * k) ff ff.region_idx (drop ff.region_idx m.regions) ≡ some none
    → get_elem? m.regions r ≡ some x
    → IsAligned k x i
    → is_run x.frames (n * k) i ≡ false
missed_run k n m ff r i {x = x} pos_k pos_n small placed v cursor miss here al =
    let pos : 0 < n * k = omega (arith, pages_split n k pos_n) in
    let (_, none_before) = first_facts m.regions ff cursor v in
    elim (Bool-cases (before r i ff.region_idx ff.frame_idx)) [
      | inl sooner ↦ no_free-no_run m.regions r i (n * k) here pos (ground (arith, none_before r i))
      | inr later ↦
          let split : ff.region_idx + (r - ff.region_idx) ≡ r = ground arith in
          let here' : get_elem? (drop ff.region_idx m.regions) (r - ff.region_idx) ≡ some x =
            ground (
              arith,
              get_elem?-drop ff.region_idx m.regions (r - ff.region_idx),
              ap (get_elem? m.regions) split,
            ) in
          let (fits, missed) =
            search_from-none k (n * k) ff ff.region_idx (drop ff.region_idx m.regions)
              (r - ff.region_idx) pos_k pos (fit_after k n ff m placed pos_n small) miss here' in
          search_region-none k (n * k) x (start_in ff (ff.region_idx + (r - ff.region_idx))) i pos_k
            pos fits (IsPlaced-at m.regions r placed here) missed (ground arith) al
    ]

-- For at least one page, in a request of at most `2 ^ 62` small frames, on regions at page
-- boundaries and an exact cursor, allocation returns `None` only if no region has an aligned run of free frames that is long enough.
pub allocate_frames_exhausted :
    {api : FrameApi} (k n : ℕ) (m m' : PhysicalMemoryManager) (r i : ℕ) {x : MemoryRegion}
    → IsFrameApi api
    → 0 < k
    → 0 < n
    → n * k ≤ 2 ^ 62
    → ArePlaced m.regions
    → IsValid m
    → allocate_frames api k n m ≡ some (none, m')
    → get_elem? m.regions r ≡ some x
    → IsAligned k x i
    → is_run x.frames (n * k) i ≡ false
allocate_frames_exhausted {api} k n m m' r i laws pos_k pos_n small placed v out here al =
    let pos : 0 < n * k = omega (arith, pages_split n k pos_n) in
    elim (Option-cases m.first_free) [
      | inl none_free ↦
          no_free-no_run m.regions r i (n * k) here pos (none_left m.regions none_free v r i)
      | inr (ff, cursor) ↦
          let rest = drop ff.region_idx m.regions in
          let (o, run) =
            search_from_total k (n * k) ff ff.region_idx rest pos_k pos
              (fit_after k n ff m placed pos_n small) in
          elim (Option-cases o) [
            | inl miss ↦
                missed_run k n m ff r i pos_k pos_n small placed v cursor (run ∙ ap some miss) here
                  al
            | inr (loc, hit) ↦
                let (range, m'', is, g) =
                  search_granted k n m ff loc laws pos_k pos_n placed v small cursor
                    (run ∙ ap some hit) in
                cc (sym is ∙ out)
          ]
    ]
