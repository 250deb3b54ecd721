-- ===== src/PhysicalMemory/Covering.antt =====
-- kernel/physical_memory/src/lib.rs: the frame that `find_frame_location` finds for an address.
use muffin.Base.{
  ℕ, zero, suc, ◌+◌, ◌*◌, ◌≤◌, ◌<◌, ◌≡◌, refl, none, some, List, [], ◌∷◌, get_elem?, ltb, ◌⊎◌,
  arith, Bool-cases, Option-cases, inl, inr,
}
use mathlib.Core.Path.{subst}
use muffin.PhysicalMemory.Region.{MemoryRegion, len, frame_index, small_size}
use muffin.PhysicalMemory.Manager.{RegionFrameIndex, find_location_from, find_frame_location}

-- What the lookup of an address gave.
pub record Located (rs : List MemoryRegion) (addr : ℕ) (loc : RegionFrameIndex) : Type 0 where
  pub region : MemoryRegion
  pub is_region : get_elem? rs loc.region_idx ≡ some region
  pub is_frame : frame_index region addr ≡ some loc.frame_idx

-- The address lies before the region or behind it.
abbrev pub Outside : MemoryRegion → ℕ → Type 0
Outside x addr = (addr < x.base_addr) ⊎ (x.base_addr + len x * small_size ≤ addr)

-- The address lies in the 4 KiB of the frame at `loc`, and in no region before that of `loc`.
pub record Covers (rs : List MemoryRegion) (addr : ℕ) (loc : RegionFrameIndex) : Type 0 where
  pub region : MemoryRegion
  pub is_region : get_elem? rs loc.region_idx ≡ some region
  pub is_frame : loc.frame_idx < len region
  pub starts_before : region.base_addr + loc.frame_idx * small_size ≤ addr
  pub ends_after : addr < region.base_addr + (loc.frame_idx + 1) * small_size
  pub is_first :
      (e : ℕ) (x : MemoryRegion) → e < loc.region_idx → get_elem? rs e ≡ some x → Outside x addr

-- An address is in frame `i` of a region exactly if it is in its 4 KiB.
pub frame_index_bounds :
    (x : MemoryRegion) (addr i : ℕ)
    → frame_index x addr ≡ some i
    → (i < len x)
      × (x.base_addr + i * small_size ≤ addr)
      × (addr < x.base_addr + (i + 1) * small_size)
unfolding frame_index
frame_index_bounds x addr i e = ground arith

location_covers :
    (rs : List MemoryRegion) (r addr : ℕ) (loc : RegionFrameIndex)
    → find_location_from r rs addr ≡ some loc
    → (d : ℕ) × (x : MemoryRegion) × (loc.region_idx ≡ r + d)
      × (get_elem? rs d ≡ some x)
      × (frame_index x addr ≡ some loc.frame_idx)
unfolding find_location_from
location_covers [] r addr loc e = cc
location_covers (x ∷ xs) r addr loc e = elim (Option-cases (frame_index x addr)) [
  | inl outside ↦
      let (d, y, at, is_y, i) = location_covers xs (r + 1) addr loc (ground (arith, outside)) in
      (suc d, y, omega arith, is_y, i)
  | inr (i, inside) ↦ (0, x, ground arith, refl, ground arith)
]

pub find_frame_location-Located :
    (rs : List MemoryRegion) (addr : ℕ) (loc : RegionFrameIndex)
    → find_frame_location rs addr ≡ some loc
    → Located rs addr loc
unfolding find_frame_location
find_frame_location-Located rs addr loc e =
    let (d, x, at, is_x, i) = location_covers rs 0 addr loc e in
    let same : loc.region_idx ≡ d = omega arith in
    record { region = x; is_region = rw same is_x; is_frame = i }

frame_index-Outside : (x : MemoryRegion) (addr : ℕ) → frame_index x addr ≡ none → Outside x addr
unfolding frame_index
frame_index-Outside x addr e = elim (Bool-cases (ltb addr x.base_addr)) [
  | inl low ↦ inl (ground (arith, low))
  | inr high ↦ inr (ground (arith, high, e))
]

-- A lookup without result found the address in no region.
pub location-Outside :
    (rs : List MemoryRegion) (r addr d : ℕ) (x : MemoryRegion)
    → find_location_from r rs addr ≡ none
    → get_elem? rs d ≡ some x
    → Outside x addr
unfolding find_location_from
location-Outside [] r addr d x e at = absurd (ground (arith, at))
location-Outside (y ∷ ys) r addr d x e at = elim (Option-cases (frame_index y addr)) [
  | inr (i, inside) ↦ absurd (ground (arith, inside, e))
  | inl outside ↦
      past d at (frame_index-Outside y addr outside)
        (λ k is. location-Outside ys (r + 1) addr k x (ground (arith, outside, e)) is)
]
  where
    past :
        (d : ℕ)
        → get_elem? (y ∷ ys) d ≡ some x
        → Outside y addr
        → ((k : ℕ) → get_elem? ys k ≡ some x → Outside x addr)
        → Outside x addr
    past zero at here rest =
        let same : y ≡ x = ground (arith, at) in subst (λ z. Outside z addr) same here
    past (suc k) at here rest = rest k at

-- A lookup with a result found the address in no region before.
location_first :
    (rs : List MemoryRegion) (r addr d : ℕ) (x : MemoryRegion) (loc : RegionFrameIndex)
    → find_location_from r rs addr ≡ some loc
    → r + d < loc.region_idx
    → get_elem? rs d ≡ some x
    → Outside x addr
unfolding find_location_from
location_first [] r addr d x loc e less at = absurd (ground (arith, at))
location_first (y ∷ ys) r addr d x loc e less at = elim (Option-cases (frame_index y addr)) [
  | inr (i, inside) ↦ absurd (ground (arith, inside, e, less))
  | inl outside ↦
      past d less at (frame_index-Outside y addr outside) (λ k before is.
        location_first ys (r + 1) addr k x loc (ground (arith, outside, e)) before is)
]
  where
    past :
        (d : ℕ)
        → r + d < loc.region_idx
        → get_elem? (y ∷ ys) d ≡ some x
        → Outside y addr
        → ((k : ℕ) → r + 1 + k < loc.region_idx → get_elem? ys k ≡ some x → Outside x addr)
        → Outside x addr
    past zero less at here rest =
        let same : y ≡ x = ground (arith, at) in subst (λ z. Outside z addr) same here
    past (suc k) less at here rest = rest k (omega (arith, less)) at

pub location-Covers :
    (rs : List MemoryRegion) (addr : ℕ) (loc : RegionFrameIndex)
    → find_frame_location rs addr ≡ some loc
    → Located rs addr loc
    → Covers rs addr loc
unfolding find_frame_location
location-Covers rs addr loc e c =
    let (inside, from, to) = frame_index_bounds c.region addr loc.frame_idx c.is_frame in
    record {
      region = c.region;
      is_region = c.is_region;
      is_frame = inside;
      starts_before = from;
      ends_after = to;
      is_first = λ d x less at. location_first rs 0 addr d x loc e (omega (arith, less)) at;
    }
