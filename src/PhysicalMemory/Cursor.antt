-- ===== src/PhysicalMemory/Cursor.antt =====
-- kernel/physical_memory/src/lib.rs: `first_free` is the place of the first free frame, after each
-- operation.
use muffin.Base.{
  ℕ, ◌+◌, ◌-◌, ◌≤◌, ◌≡◌, ap, true, false, ◌&&◌, Option, none, some, List, get_elem?, set, drop, ltb,
  leb, ◌==◌, if◌then◌else◌, arith, Bool-cases, Option-cases, inl, inr,
}
use muffin.PhysicalMemory.Region.{allocated, MemoryRegion, len}
use muffin.PhysicalMemory.Manager.{
  RegionFrameIndex, PhysicalMemoryManager, find_first_free_from, free_position, new_manager,
  free_in_region, update_first_free, fill,
}
use muffin.PhysicalMemory.Frames.{mark}
use muffin.PhysicalMemory.Spots.{
  state_at, free_at, before, Position, absent, at, free_position-Position, First, full, found,
  find_first_free_from-First, IsFirst, find_first_free-IsFirst,
}
use muffin.PhysicalMemory.Marks.{
  state_at-some, state_at-none, state_at-drop, get_elem?-drop, get_elem?-ge, get_elem?-fill,
  state_at-set,
}

-- The scan of regions from `n` on finds the first free frame, if there is none below.
First-shift :
    (n : ℕ) (rs : List MemoryRegion) (o : Option RegionFrameIndex)
    → ((e j : ℕ) → (ltb e n && free_at rs e j) ≡ false)
    → First n (drop n rs) o
    → IsFirst rs o
First-shift n rs o low (full e none_free) = full e λ d i. elim (Bool-cases (ltb d n)) [
  | inl below ↦ ground (arith, low d i)
  | inr above ↦
      let split : n + (d - n) ≡ d = ground arith in
      ground
        (arith, none_free (d - n) i, state_at-drop n rs (d - n) i, ap (λ k. state_at rs k i) split)
]
First-shift n rs o low (found d i e here first) =
    found (n + d) i (ground (arith, e)) (ground (arith, here, state_at-drop n rs d i)) λ c j.
      elim (Bool-cases (ltb c n)) [
        | inl below ↦ ground (arith, low c j)
        | inr above ↦
            let split : n + (c - n) ≡ c = ground arith in
            ground (
              arith,
              first (c - n) j,
              state_at-drop n rs (c - n) j,
              ap (λ k. state_at rs k j) split,
            )
      ]

-- `o` is the first free frame of region `r` from `start` on.
data InRegion (rs : List MemoryRegion) (r start : ℕ) (o : Option ℕ) : Type 0 where
  missing : o ≡ none → ((j : ℕ) → (leb start j && free_at rs r j) ≡ false) → InRegion rs r start o
  hit :
      (i : ℕ)
      → o ≡ some i
      → start ≤ i
      → free_at rs r i ≡ true
      → ((j : ℕ) → ((leb start j && ltb j i) && free_at rs r j) ≡ false)
      → InRegion rs r start o

Position-in :
    (rs : List MemoryRegion) (r start : ℕ) (x : MemoryRegion) (o : Option ℕ)
    → get_elem? rs r ≡ some x
    → Position start (drop start x.frames) o
    → InRegion rs r start o
Position-in rs r start x o e (absent none_found busy) = missing none_found λ j.
    elim (Bool-cases (leb start j)) [
      | inr low ↦ rw low
      | inl high ↦
          let split : start + (j - start) ≡ j = ground arith in
          ground (
            arith,
            busy (j - start),
            get_elem?-drop start x.frames (j - start),
            ap (get_elem? x.frames) split,
            state_at-some rs r j e,
          )
    ]
Position-in rs r start x o e (at d is here first) =
    hit (start + d) is (omega arith)
      (ground (arith, here, get_elem?-drop start x.frames d, state_at-some rs r (start + d) e))
      λ j. elim (Bool-cases (leb start j)) [
        | inr low ↦ rw low
        | inl high ↦
            let split : start + (j - start) ≡ j = ground arith in
            ground (
              arith,
              first (j - start),
              get_elem?-drop start x.frames (j - start),
              ap (get_elem? x.frames) split,
              state_at-some rs r j e,
            )
      ]

free_in_region-InRegion :
    (rs : List MemoryRegion) (r start : ℕ) → InRegion rs r start (free_in_region rs r start)
unfolding free_in_region
free_in_region-InRegion rs r start = elim (Option-cases (get_elem? rs r)) [
  | inl gone ↦ missing (rw (gone, free_in_region)) (λ j. ground (arith, state_at-none rs r j gone))
  | inr (x, e) ↦ elim (Bool-cases (ltb start (len x))) [
    | inl room ↦
        let is : free_in_region rs r start ≡ free_position start (drop start x.frames) =
          ground (arith, e, room) in
        rw is (Position-in rs r start x _ e (free_position-Position start (drop start x.frames)))
    | inr past ↦
        missing (ground (arith, e, past))
          (λ j. ground (arith, state_at-some rs r j e, get_elem?-ge x.frames j))
  ]
]

-- `update_first_free` finds the first free frame, if none is free before where it starts.
pub update_first_free-IsFirst :
    (m : PhysicalMemoryManager) (r start : ℕ)
    → ((e j : ℕ) → (before e j r start && free_at m.regions e j) ≡ false)
    → IsFirst m.regions (update_first_free m r start).first_free
unfolding update_first_free
update_first_free-IsFirst m r start low = elim (free_in_region-InRegion m.regions r start) [
  | missing is busy ↦
      let later : (update_first_free m r start).first_free
          ≡ find_first_free_from (r + 1) (drop (r + 1) m.regions) =
        ground (arith, is) in
      rw later (
        First-shift (r + 1) m.regions _ (λ e j. ground (arith, low e j, busy j))
          (find_first_free_from-First (r + 1) (drop (r + 1) m.regions)))
  | hit i is ge here first ↦
      found r i (ground (arith, is)) here (λ e j. ground (arith, low e j, first j))
]

-- The cursor of a new manager is at the first free frame of all regions, and absent if none is free.
new_manager-IsFirst : (rs : List MemoryRegion) → IsFirst rs (new_manager rs).first_free
unfolding new_manager
new_manager-IsFirst rs = find_first_free-IsFirst rs

update_first_free-regions :
    (m : PhysicalMemoryManager) (r start : ℕ) → (update_first_free m r start).regions ≡ m.regions
unfolding update_first_free
update_first_free-regions m r start = ground arith

-- What no cursor says.
pub none_left :
    (rs : List MemoryRegion) {o : Option RegionFrameIndex}
    → o ≡ none
    → IsFirst rs o
    → (e j : ℕ) → free_at rs e j ≡ false
none_left rs is (full _ none_free) e j = none_free e j
none_left rs is (found d i here_is here first) e j = cc

-- What a cursor at `ff` says.
pub first_facts :
    (rs : List MemoryRegion) (ff : RegionFrameIndex) {o : Option RegionFrameIndex}
    → o ≡ some ff
    → IsFirst rs o
    → (free_at rs ff.region_idx ff.frame_idx ≡ true)
      × ((e j : ℕ) → (before e j ff.region_idx ff.frame_idx && free_at rs e j) ≡ false)
first_facts rs ff is (full e none_free) = cc
first_facts rs ff is (found d i e here first) =
    let r_is : ff.region_idx ≡ d = ground arith in
    let i_is : ff.frame_idx ≡ i = ground arith in rw (r_is, i_is) (here, first)

module _ (m : PhysicalMemoryManager) (ff loc : RegionFrameIndex) (x : MemoryRegion) (count : ℕ)
    (here : get_elem? m.regions loc.region_idx ≡ some x)
    (fits : loc.frame_idx + count ≤ len x) where
  abbrev marked_regions : List MemoryRegion
  marked_regions =
      set m.regions loc.region_idx (record x { frames = fill x.frames loc.frame_idx count })

  state_at-marked :
      (e j : ℕ)
      → state_at marked_regions e j ≡ (
          if loc.region_idx == e && (leb loc.frame_idx j && ltb j (loc.frame_idx + count))
          then some allocated
          else state_at m.regions e j)
  state_at-marked e j = ground (
    arith,
    state_at-set m.regions loc.region_idx e j
        (record x { frames = fill x.frames loc.frame_idx count }) here,
    get_elem?-fill x.frames loc.frame_idx count j fits,
    state_at-some m.regions loc.region_idx j here,
  )

  regions-mark : (mark m ff loc x count).regions ≡ marked_regions
  unfolding mark
  regions-mark = ground (
    arith,
    update_first_free-regions (record m { regions = marked_regions }) loc.region_idx
        (loc.frame_idx + count),
  )

  -- Exactly the frames of the range become allocated.
  pub state_at-mark :
      (e j : ℕ)
      → state_at (mark m ff loc x count).regions e j ≡ (
          if loc.region_idx == e && (leb loc.frame_idx j && ltb j (loc.frame_idx + count))
          then some allocated
          else state_at m.regions e j)
  state_at-mark e j = rw regions-mark (state_at-marked e j)

  -- The cursor follows, if the range starts at the cursor or later.
  pub mark-IsFirst :
      m.first_free ≡ some ff
      → IsFirst m.regions m.first_free
      → before loc.region_idx loc.frame_idx ff.region_idx ff.frame_idx ≡ false
      → IsFirst (mark m ff loc x count).regions (mark m ff loc x count).first_free
  unfolding mark
  mark-IsFirst cursor first later =
      let (free_here, none_before) = first_facts m.regions ff cursor first in
      let m' : PhysicalMemoryManager = record m { regions = marked_regions } in
      elim (Bool-cases (loc.region_idx == ff.region_idx && leb loc.frame_idx ff.frame_idx)) [
        | inl moved ↦
            rw (moved, mark)
              (rw (update_first_free-regions m' loc.region_idx (loc.frame_idx + count)) (
                update_first_free-IsFirst m' loc.region_idx (loc.frame_idx + count)
                  (λ e j. ground (arith, state_at-marked e j, none_before e j))))
        | inr stays ↦
            rw (stays, mark)
              (found ff.region_idx ff.frame_idx (ground (arith, cursor))
                (ground (arith, state_at-marked ff.region_idx ff.frame_idx))
                (λ e j. ground (arith, state_at-marked e j, none_before e j)))
      ]
