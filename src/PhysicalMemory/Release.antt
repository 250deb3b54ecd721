-- ===== src/PhysicalMemory/Release.antt =====
-- kernel/physical_memory/src/lib.rs: releasing frames.
use muffin.Base.{
  ℕ, zero, suc, ◌+◌, ◌*◌, ◌≡◌, refl, ap, ◌∙◌, true, false, ◌&&◌, Option, none, some, List, [], ◌∷◌,
  get_elem?, set, length-set, get_elem?-set_self, ◌==◌, if◌then◌else◌, arith, Bool-cases,
  Option-cases, inl, inr,
}
use muffin.PhysicalMemory.Region.{
  FrameState, allocated, free, is_allocated, MemoryRegion, frame_index, small_size,
}
use muffin.PhysicalMemory.Manager.{
  RegionFrameIndex, PhysicalMemoryManager, find_location_from, find_frame_location,
}
use muffin.PhysicalMemory.Covering.{
  Outside, Covers, frame_index_bounds, find_frame_location-Located, location-Outside,
  location-Covers,
}
use muffin.PhysicalMemory.Frames.{
  unmark, is_before, deallocate_small, deallocate_parts, FrameApi, deallocate_2mib, deallocate_1gib,
}
use muffin.PhysicalMemory.Spots.{state_at, full, found, IsFirst}
use muffin.PhysicalMemory.Marks.{
  state_at-some, get_elem?-some-lt, get_elem?-lt, get_elem?-set, state_at-set,
}
use muffin.PhysicalMemory.Cursor.{first_facts}

module _ (m : PhysicalMemoryManager) (loc : RegionFrameIndex) (x : MemoryRegion) {s : FrameState}
    (here : get_elem? m.regions loc.region_idx ≡ some x)
    (frame : get_elem? x.frames loc.frame_idx ≡ some s) where
  -- Exactly that frame becomes free.
  pub state_at-unmark :
      (e j : ℕ)
      → state_at (unmark m loc x).regions e j
        ≡ (if loc.region_idx == e && loc.frame_idx == j then some free else state_at m.regions e j)
  unfolding unmark
  state_at-unmark e j = ground (
    arith,
    state_at-set m.regions loc.region_idx e j
        (record x { frames = set x.frames loc.frame_idx free }) here,
    get_elem?-set x.frames loc.frame_idx j free (get_elem?-some-lt x.frames loc.frame_idx frame),
    state_at-some m.regions loc.region_idx j here,
  )

  pub unmark-IsFirst :
      (o : Option RegionFrameIndex)
      → m.first_free ≡ o
      → IsFirst m.regions o
      → IsFirst (unmark m loc x).regions (unmark m loc x).first_free
  unfolding unmark
  unmark-IsFirst none is (full e none_free) =
      found loc.region_idx loc.frame_idx (ground (arith, is))
        (ground (arith, state_at-unmark loc.region_idx loc.frame_idx))
        (λ e j. ground (arith, state_at-unmark e j, none_free e j))
  unmark-IsFirst none is (found d i e here' first) = cc
  unmark-IsFirst (some ff) is first =
      let (free_here, none_before) = first_facts m.regions ff refl first in
      elim (Bool-cases (is_before loc (some ff))) [
        | inl sooner ↦
            found loc.region_idx loc.frame_idx (ground (arith, is, sooner))
              (ground (arith, state_at-unmark loc.region_idx loc.frame_idx))
              (λ e j. ground (arith, state_at-unmark e j, none_before e j))
        | inr later ↦
            found ff.region_idx ff.frame_idx (ground (arith, is, later))
              (ground (arith, state_at-unmark ff.region_idx ff.frame_idx))
              (λ e j. ground (arith, state_at-unmark e j, none_before e j))
      ]

-- What `deallocate_frame` did: nothing to a frame that is in no region or not allocated; otherwise
-- the frame, and no other, became free.
pub data Releases (m : PhysicalMemoryManager) (addr : ℕ) (out : Option ℕ × PhysicalMemoryManager)
    : Type 0 where
  unknown :
      ((e : ℕ) (x : MemoryRegion) → get_elem? m.regions e ≡ some x → Outside x addr)
      → out ≡ (none, m)
      → Releases m addr out
  refused :
      (loc : RegionFrameIndex)
      → Covers m.regions addr loc
      → (s : FrameState) → state_at m.regions loc.region_idx loc.frame_idx ≡ some s
      → is_allocated s ≡ false
      → out ≡ (none, m)
      → Releases m addr out
  released :
      (loc : RegionFrameIndex)
      → Covers m.regions addr loc
      → state_at m.regions loc.region_idx loc.frame_idx ≡ some allocated
      → out.0 ≡ some addr
      → ((e j : ℕ)
          → state_at out.1.regions e j ≡ (
              if loc.region_idx == e && loc.frame_idx == j
              then some free
              else state_at m.regions e j))
      → Releases m addr out

is_allocated→eq : (s : FrameState) → is_allocated s ≡ true → s ≡ allocated
is_allocated→eq s h = ground arith

deallocate_small-found :
    (m : PhysicalMemoryManager) (addr : ℕ) (loc : RegionFrameIndex) (x : MemoryRegion)
    (s : FrameState)
    → find_frame_location m.regions addr ≡ some loc
    → get_elem? m.regions loc.region_idx ≡ some x
    → get_elem? x.frames loc.frame_idx ≡ some s
    → deallocate_small m addr ≡ (if is_allocated s then (some addr, unmark m loc x) else (none, m))
unfolding deallocate_small
deallocate_small-found m addr loc x s e here frame = ground (arith, e, here, frame)

-- Releasing a 4 KiB frame frees exactly the allocated frame whose 4 KiB hold its address, that of the first
-- region if several hold it, and is refused, with nothing changed, for an address that lies in no region
-- and for a frame that is not allocated.
pub deallocate_small-Releases :
    (m : PhysicalMemoryManager) (addr : ℕ) → Releases m addr (deallocate_small m addr)
unfolding deallocate_small
deallocate_small-Releases m addr = elim (Option-cases (find_frame_location m.regions addr)) [
  | inl gone ↦
      unknown
        (λ e x at. location-Outside m.regions 0 addr e x (unfold find_frame_location in gone) at)
        (ground (arith, gone))
  | inr (loc, e) ↦
      let c = find_frame_location-Located m.regions addr loc e in
      let covered = location-Covers m.regions addr loc e c in
      let (s, frame) =
        get_elem?-lt c.region.frames loc.frame_idx
          (frame_index_bounds c.region addr loc.frame_idx c.is_frame).0 in
      let is = deallocate_small-found m addr loc c.region s e c.is_region frame in
      let state = state_at-some m.regions loc.region_idx loc.frame_idx c.is_region ∙ frame in
      elim (Bool-cases (is_allocated s)) [
        | inl held ↦
            released loc covered (ground (arith, state, is_allocated→eq s held))
              (ground (arith, is, held))
              (λ e' j.
                ground (arith, is, held, state_at-unmark m loc c.region c.is_region frame e' j))
        | inr other ↦ refused loc covered s state other (ground (arith, is, other))
      ]
]

-- The manager's invariant.
abbrev pub IsValid : PhysicalMemoryManager → Type 0
IsValid m = IsFirst m.regions m.first_free

-- The cursor stays at the first free frame.
pub deallocate_small-IsValid :
    (m : PhysicalMemoryManager) (addr : ℕ) → IsValid m → IsValid (deallocate_small m addr).1
unfolding deallocate_small
deallocate_small-IsValid m addr v = elim (Option-cases (find_frame_location m.regions addr)) [
  | inl gone ↦ rw (gone, deallocate_small) v
  | inr (loc, e) ↦
      let c = find_frame_location-Located m.regions addr loc e in
      let (s, frame) =
        get_elem?-lt c.region.frames loc.frame_idx
          (frame_index_bounds c.region addr loc.frame_idx c.is_frame).0 in
      let is = deallocate_small-found m addr loc c.region s e c.is_region frame in
      elim (Bool-cases (is_allocated s)) [
        | inl held ↦
            let to : deallocate_small m addr ≡ (some addr, unmark m loc c.region) =
              ground (arith, is, held) in
            rw to (unmark-IsFirst m loc c.region c.is_region frame m.first_free refl v)
        | inr other ↦
            let to : deallocate_small m addr ≡ (none, m) = ground (arith, is, other) in rw to v
      ]
]

-- An invariant that releasing one part keeps is kept by the loop over the parts.
deallocate_parts_keeps :
    (P : PhysicalMemoryManager → Type 0)
    (release : PhysicalMemoryManager → ℕ → Option ℕ × PhysicalMemoryManager) (api : FrameApi)
    (size : ℕ)
    → ((m : PhysicalMemoryManager) (addr : ℕ) → P m → P (release m addr).1)
    → (left i start : ℕ) (m : PhysicalMemoryManager) → P m
    → P (deallocate_parts release api size left i start m).1
unfolding deallocate_parts
deallocate_parts_keeps P release api size keep zero i start m h = h
deallocate_parts_keeps P release api size keep (suc left) i start m h =
    let h' = keep m (api.containing_address size (start + i * size)) h in
    elim (Option-cases (release m (api.containing_address size (start + i * size))).0) [
      | inl failed ↦ rw (failed, deallocate_parts) h'
      | inr (f, done) ↦
          rw (done, deallocate_parts)
            (deallocate_parts_keeps P release api size keep left (i + 1) start _ h')
    ]

deallocate_2mib-IsValid :
    (api : FrameApi) (m : PhysicalMemoryManager) (addr : ℕ)
    → IsValid m
    → IsValid (deallocate_2mib api m addr).1
unfolding deallocate_2mib
deallocate_2mib-IsValid api m addr v =
    deallocate_parts_keeps IsValid deallocate_small api small_size deallocate_small-IsValid 512 0
      addr m v

deallocate_1gib-IsValid :
    (api : FrameApi) (m : PhysicalMemoryManager) (addr : ℕ)
    → IsValid m
    → IsValid (deallocate_1gib api m addr).1
unfolding deallocate_1gib
deallocate_1gib-IsValid api m addr v =
    deallocate_parts_keeps IsValid (deallocate_2mib api) api (512 * small_size)
      (deallocate_2mib-IsValid api) 512 0 addr m v

-- Releasing a frame of any of the three sizes, and so a failure half-way too, keeps the cursor exact
-- if it was.
deallocate-IsValid :
    (api : FrameApi) (m : PhysicalMemoryManager) (addr : ℕ)
    → IsValid m
    → IsValid (deallocate_small m addr).1
      × IsValid (deallocate_2mib api m addr).1
      × IsValid (deallocate_1gib api m addr).1
deallocate-IsValid api m addr v = (
  deallocate_small-IsValid m addr v,
  deallocate_2mib-IsValid api m addr v,
  deallocate_1gib-IsValid api m addr v,
)

location_set :
    (rs : List MemoryRegion) (r k addr : ℕ) (x y : MemoryRegion)
    → get_elem? rs k ≡ some x
    → frame_index y addr ≡ frame_index x addr
    → find_location_from r (set rs k y) addr ≡ find_location_from r rs addr
unfolding find_location_from
location_set [] r k addr x y e same = refl
location_set (z ∷ zs) r zero addr x y e same = ground (arith, e, same)
location_set (z ∷ zs) r (suc k) addr x y e same =
    ground (arith, location_set zs (r + 1) k addr x y e same)

after_unmark :
    (m : PhysicalMemoryManager) (addr : ℕ) (loc : RegionFrameIndex) (x : MemoryRegion)
    (s : FrameState)
    → find_frame_location m.regions addr ≡ some loc
    → get_elem? m.regions loc.region_idx ≡ some x
    → get_elem? x.frames loc.frame_idx ≡ some s
    → deallocate_small (unmark m loc x) addr ≡ (none, unmark m loc x)
unfolding unmark find_frame_location frame_index
after_unmark m addr loc x s e here frame =
    let y : MemoryRegion = record x { frames = set x.frames loc.frame_idx free } in
    let room = get_elem?-some-lt x.frames loc.frame_idx frame in
    ground (
      arith,
      deallocate_small-found (unmark m loc x) addr loc y free
          (location_set m.regions 0 loc.region_idx addr x y here
              (ground (arith, length-set x.frames loc.frame_idx free))
            ∙ e)
          (get_elem?-set_self m.regions loc.region_idx y
            (get_elem?-some-lt m.regions loc.region_idx here))
          (get_elem?-set_self x.frames loc.frame_idx free room),
    )

-- A frame that was released cannot be released again.
release_twice :
    (m : PhysicalMemoryManager) (addr f : ℕ)
    → (deallocate_small m addr).0 ≡ some f
    → deallocate_small (deallocate_small m addr).1 addr ≡ (none, (deallocate_small m addr).1)
unfolding deallocate_small
release_twice m addr f done = elim (Option-cases (find_frame_location m.regions addr)) [
  | inl gone ↦ ground (arith, gone)
  | inr (loc, e) ↦
      let c = find_frame_location-Located m.regions addr loc e in
      let (s, frame) =
        get_elem?-lt c.region.frames loc.frame_idx
          (frame_index_bounds c.region addr loc.frame_idx c.is_frame).0 in
      let is = deallocate_small-found m addr loc c.region s e c.is_region frame in
      elim (Bool-cases (is_allocated s)) [
        | inl held ↦
            let to : deallocate_small m addr ≡ (some addr, unmark m loc c.region) =
              ground (arith, is, held) in
            rw to (after_unmark m addr loc c.region s e c.is_region frame)
        | inr other ↦
            let to : deallocate_small m addr ≡ (none, m) = ground (arith, is, other) in
            cc (ap (λ p. p.0) to)
      ]
]
