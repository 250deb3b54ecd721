-- ===== src/PhysicalMemory/Allocation.antt =====
-- kernel/physical_memory/src/lib.rs: what `allocate_frames` returns and marks.
use muffin.Base.{
  ℕ, zero, suc, ◌+◌, ◌-◌, ◌*◌, ◌%◌, ◌^◌, ◌≤◌, ◌<◌, ◌≡◌, refl, sym, ap, ◌∙◌, true, false, not, ◌&&◌,
  Option, none, some, List, [], ◌∷◌, get_elem?, drop, ltb, leb, ◌==◌, if◌then◌else◌, arith,
  Bool-cases, Option-cases, inl, inr,
}
use muffin.PhysicalMemory.Region.{allocated, MemoryRegion, len, small_size}
use muffin.PhysicalMemory.Manager.{
  RegionFrameIndex, PhysicalMemoryManager, align_up, search_region, search_from,
}
use muffin.PhysicalMemory.Frames.{FrameRange, Run}
use muffin.PhysicalMemory.Spots.{state_at, free_at}
use muffin.PhysicalMemory.Alignment.{IsAligned, align_up-IsAligned, aligned_visited, IsAligned-add}
use muffin.PhysicalMemory.Scan.{is_run, FirstRun, none_found, run_found, scan-FirstRun}
use muffin.PhysicalMemory.Release.{IsValid}

-- A region starts on a frame and ends within the physical address space.
abbrev pub IsPlaced : MemoryRegion → Type 0
IsPlaced x = (x.base_addr % small_size ≡ 0) × (x.base_addr + len x * small_size ≤ 2 ^ 52)

abbrev pub ArePlaced : List MemoryRegion → Type 0
ArePlaced [] = Unit {0}
ArePlaced (x ∷ xs) = IsPlaced x × ArePlaced xs

pub IsPlaced-at :
    (rs : List MemoryRegion) (r : ℕ) {x : MemoryRegion}
    → ArePlaced rs
    → get_elem? rs r ≡ some x
    → IsPlaced x
IsPlaced-at [] r p e = cc
IsPlaced-at (y ∷ ys) zero {x = x} p e = let same : y ≡ x = ground arith in rw (← same) p.0
IsPlaced-at (y ∷ ys) (suc r) p e = IsPlaced-at ys r p.1 e

-- The sums of the scan of a region fit a word.
abbrev pub Fits : ℕ → ℕ → MemoryRegion → Type 0
Fits k count x = len x + k + count < 2 ^ 64

align_up-le : (k : ℕ) (x : MemoryRegion) (start : ℕ) → align_up k x start ≤ start + k
unfolding align_up
align_up-le k x start = ground arith

-- The scan of a region from its aligned start.
scan_region :
    (k count : ℕ) (x : MemoryRegion) (start : ℕ)
    → 0 < k
    → 0 < count
    → Fits k count x
    → leb (len x) start ≡ false
    → (o : Option ℕ) × (search_region k count x start ≡ some o)
      × FirstRun k count x.frames (align_up k x start) o
unfolding search_region
scan_region k count x start h c fits room =
    let (o, is, first) =
      scan-FirstRun (suc (len x)) k count x.frames (align_up k x start) h c (omega arith)
        (omega arith) (ground (arith, align_up-le k x start)) fits in
    (o, ground (arith, room, is), first)

search_region_total :
    (k count : ℕ) (x : MemoryRegion) (start : ℕ)
    → 0 < k
    → 0 < count
    → Fits k count x
    → (o : Option ℕ) × (search_region k count x start ≡ some o)
unfolding search_region
search_region_total k count x start h c fits = elim (Bool-cases (leb (len x) start)) [
  | inl past ↦ (none, ground (arith, past))
  | inr room ↦ let (o, is, first) = scan_region k count x start h c fits room in (o, is)
]

pub search_region-some :
    (k count : ℕ) (x : MemoryRegion) (start i : ℕ)
    → 0 < k
    → 0 < count
    → Fits k count x
    → IsPlaced x
    → search_region k count x start ≡ some (some i)
    → IsAligned k x i × (start ≤ i) × (is_run x.frames count i ≡ true)
unfolding search_region
search_region-some k count x start i h c fits p e = elim (Bool-cases (leb (len x) start)) [
  | inl past ↦ ground (arith, past, e)
  | inr room ↦
      let a = align_up-IsAligned k start x h p.0 in
      let (o, to, first_run) = scan_region k count x start h c fits room in
      elim first_run [
        | none_found is rest ↦ ground (arith, is, to, e)
        | run_found q is run first ↦
            let at : i ≡ align_up k x start + q * k = ground (arith, is, to, e) in
            rw at (IsAligned-add k (align_up k x start) q x a.0, omega (arith, a.1), run)
      ]
]

pub search_region-none :
    (k count : ℕ) (x : MemoryRegion) (start i : ℕ)
    → 0 < k
    → 0 < count
    → Fits k count x
    → IsPlaced x
    → search_region k count x start ≡ some none
    → start ≤ i
    → IsAligned k x i
    → is_run x.frames count i ≡ false
search_region-none k count x start i h c fits p e le al = elim (Bool-cases (leb (len x) start)) [
  | inl past ↦ ground arith
  | inr room ↦
      let (o, to, first_run) = scan_region k count x start h c fits room in
      elim first_run [
        | none_found is rest ↦
            let (q, at) = aligned_visited k start i x h p.0 le al in rw at (rest q)
        | run_found q is run first ↦ ground (arith, is, to, e)
      ]
]

-- The frame at which the search of region `r` starts.
abbrev pub start_in : RegionFrameIndex → ℕ → ℕ
start_in ff r = if r == ff.region_idx then ff.frame_idx else 0

-- A search past a region where nothing was found.
search_later :
    (k count : ℕ) (ff : RegionFrameIndex) (r : ℕ) (x : MemoryRegion) (xs : List MemoryRegion)
    → search_region k count x (start_in ff r) ≡ some none
    → search_from k count ff r (x ∷ xs) ≡ search_from k count ff (r + 1) xs
unfolding search_from
search_later k count ff r x xs miss = rw (search_from, miss) refl

search_here :
    (k count : ℕ) (ff : RegionFrameIndex) (r i : ℕ) (x : MemoryRegion) (xs : List MemoryRegion)
    → search_region k count x (start_in ff r) ≡ some (some i)
    → search_from k count ff r (x ∷ xs) ≡ some (some (record { region_idx = r; frame_idx = i }))
unfolding search_from
search_here k count ff r i x xs hit = rw (search_from, hit) refl

-- Every region's scan has sums that fit a word, at a count that does and on regions in memory.
abbrev pub AreFit : ℕ → ℕ → List MemoryRegion → Type 0
AreFit k count [] = Unit {0}
AreFit k count (x ∷ xs) = Fits k count x × AreFit k count xs

pub AreFit-placed :
    (k n : ℕ) (rs : List MemoryRegion)
    → k ≤ n * k
    → n * k ≤ 2 ^ 62
    → ArePlaced rs
    → AreFit k (n * k) rs
AreFit-placed k n [] least small p = tt
AreFit-placed k n (x ∷ xs) least small p =
    (omega (arith, p.0.1), AreFit-placed k n xs least small p.1)

pub AreFit-drop :
    (k count d : ℕ) (rs : List MemoryRegion) → AreFit k count rs → AreFit k count (drop d rs)
AreFit-drop k count zero rs f = f
AreFit-drop k count (suc d) [] f = f
AreFit-drop k count (suc d) (x ∷ xs) f = AreFit-drop k count d xs f.1

-- The search does not panic.
pub search_from_total :
    (k count : ℕ) (ff : RegionFrameIndex) (r : ℕ) (rs : List MemoryRegion)
    → 0 < k
    → 0 < count
    → AreFit k count rs
    → (o : Option RegionFrameIndex) × (search_from k count ff r rs ≡ some o)
unfolding search_from
search_from_total k count ff r [] h c f = (none, refl)
search_from_total k count ff r (x ∷ xs) h c f =
    let (o, is) = search_region_total k count x (start_in ff r) h c f.0 in
    elim (Option-cases o) [
      | inl miss ↦
          let (o', rest) = search_from_total k count ff (r + 1) xs h c f.1 in
          (o', search_later k count ff r x xs (is ∙ ap some miss) ∙ rest)
      | inr (i, hit) ↦ (
        some (record { region_idx = r; frame_idx = i }),
        search_here k count ff r i x xs (is ∙ ap some hit),
      )
    ]

pub search_from-some :
    (k count : ℕ) (ff : RegionFrameIndex) (r : ℕ) (rs : List MemoryRegion) (loc : RegionFrameIndex)
    → 0 < k
    → 0 < count
    → AreFit k count rs
    → search_from k count ff r rs ≡ some (some loc)
    → (d : ℕ) × (x : MemoryRegion) × (loc.region_idx ≡ r + d)
      × (get_elem? rs d ≡ some x)
      × Fits k count x
      × (search_region k count x (start_in ff (r + d)) ≡ some (some loc.frame_idx))
unfolding search_from
search_from-some k count ff r [] loc h c f e = cc
search_from-some k count ff r (x ∷ xs) loc h c f e =
    let (o, is) = search_region_total k count x (start_in ff r) h c f.0 in
    elim (Option-cases o) [
      | inr (i, hit) ↦
          let here : r + 0 ≡ r = omega arith in
          let found = is ∙ ap some hit in
          let same = sym (search_here k count ff r i x xs found) ∙ e in
          (0, x, ground (arith, same), refl, f.0, rw here (ground (arith, same, found)))
      | inl miss ↦
          let later = search_later k count ff r x xs (is ∙ ap some miss) in
          let (d, y, at, is_y, fits, hit) =
            search_from-some k count ff (r + 1) xs loc h c f.1 (sym later ∙ e) in
          let shift : r + suc d ≡ r + 1 + d = omega arith in
          (suc d, y, rw shift at, is_y, fits, rw shift hit)
    ]

-- A search that found nothing found nothing in the first region.
missed_first :
    (k count : ℕ) (ff : RegionFrameIndex) (r : ℕ) (y : MemoryRegion) (ys : List MemoryRegion)
    → 0 < k
    → 0 < count
    → Fits k count y
    → search_from k count ff r (y ∷ ys) ≡ some none
    → search_region k count y (start_in ff r) ≡ some none
missed_first k count ff r y ys h c fits e =
    let (o, is) = search_region_total k count y (start_in ff r) h c fits in
    elim (Option-cases o) [
      | inr (i, hit) ↦
          let same = sym (search_here k count ff r i y ys (is ∙ ap some hit)) ∙ e in
          ground (arith, same)
      | inl miss ↦ is ∙ ap some miss
    ]

pub search_from-none :
    (k count : ℕ) (ff : RegionFrameIndex) (r : ℕ) (rs : List MemoryRegion) (d : ℕ)
    {x : MemoryRegion}
    → 0 < k
    → 0 < count
    → AreFit k count rs
    → search_from k count ff r rs ≡ some none
    → get_elem? rs d ≡ some x
    → Fits k count x × (search_region k count x (start_in ff (r + d)) ≡ some none)
search_from-none k count ff r [] d h c f e at = cc
search_from-none k count ff r (y ∷ ys) zero {x = x} h c f e at =
    let miss = missed_first k count ff r y ys h c f.0 e in
    let same : y ≡ x = ground arith in
    let here : r + 0 ≡ r = omega arith in rw (← same) (f.0, rw here miss)
search_from-none k count ff r (y ∷ ys) (suc d) h c f e at =
    let miss = missed_first k count ff r y ys h c f.0 e in
    let shift : r + suc d ≡ r + 1 + d = omega arith in
    rw shift (
      search_from-none k count ff (r + 1) ys d h c f.1
        (sym (search_later k count ff r y ys miss) ∙ e) at)

-- What a successful allocation did: the range is of free frames of one region, aligned, and exactly
-- these became allocated.
pub record Grants (k n : ℕ) (m : PhysicalMemoryManager) (range : FrameRange)
    (m' : PhysicalMemoryManager) : Type 0 where
  pub loc : RegionFrameIndex
  pub region : MemoryRegion
  pub is_region : get_elem? m.regions loc.region_idx ≡ some region
  pub aligned : IsAligned k region loc.frame_idx
  pub fits : loc.frame_idx + n * k ≤ len region
  pub first_is : range.first ≡ region.base_addr + loc.frame_idx * small_size
  pub last_is : range.last ≡ range.first + (n - 1) * (k * small_size)
  pub were_free :
      (j : ℕ)
      → ((leb loc.frame_idx j && ltb j (loc.frame_idx + n * k))
          && not (free_at m.regions loc.region_idx j))
        ≡ false
  pub states :
      (e j : ℕ)
      → state_at m'.regions e j ≡ (
          if loc.region_idx == e && (leb loc.frame_idx j && ltb j (loc.frame_idx + n * k))
          then some allocated
          else state_at m.regions e j)
  pub valid : IsValid m'

-- A call of `allocate_frames`: no panic; nothing changed, or a grant.
pub data Allocates (k n : ℕ) (m : PhysicalMemoryManager)
    (out : Run (Option FrameRange × PhysicalMemoryManager)) : Type 0 where
  exhausted : out ≡ some (none, m) → Allocates k n m out
  granted :
      (range : FrameRange) (m' : PhysicalMemoryManager)
      → out ≡ some (some range, m')
      → Grants k n m range m'
      → Allocates k n m out
