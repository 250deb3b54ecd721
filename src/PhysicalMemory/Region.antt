-- ===== src/PhysicalMemory/Region.antt =====
-- kernel/physical_memory/src/region.rs, and `FrameState` of lib.rs.
use muffin.Base.{
  ℕ, ◌+◌, ◌-◌, ◌*◌, ◌/◌, Bool, true, false, Option, none, some, List, length, replicate, ltb,
  if◌then◌else◌,
}

pub data FrameState : Type 0 where
  unusable allocated free : FrameState

-- `FrameState::is_usable`.
unfoldable pub is_usable : FrameState → Bool
is_usable unusable = false
is_usable _ = true

-- The derived equality with `Free` and `Allocated`.
abbrev pub is_free : FrameState → Bool
is_free free = true
is_free _ = false

abbrev pub is_allocated : FrameState → Bool
is_allocated allocated = true
is_allocated _ = false

-- `Size4KiB::SIZE`.
abbrev pub small_size : ℕ
small_size = 4096

pub record MemoryRegion : Type 0 where
  pub base_addr : ℕ
  pub frames : List FrameState

-- `MemoryRegion::new`.
unfoldable pub new_region : ℕ → ℕ → FrameState → MemoryRegion
new_region base n state = record { base_addr = base; frames = replicate n state }

-- `MemoryRegion::len`.
abbrev pub len : MemoryRegion → ℕ
len r = length r.frames

unfoldable pub frame_index : MemoryRegion → ℕ → Option ℕ
frame_index r addr =
    if ltb addr r.base_addr
    then none
    else (let i = (addr - r.base_addr) / small_size in if ltb i (len r) then some i else none)

unfoldable pub frame_address : MemoryRegion → ℕ → Option ℕ
frame_address r i = if ltb i (len r) then some (r.base_addr + i * small_size) else none
