-- ===== src/PhysicalMemory/Tests.antt =====
-- Runs of the frame allocator, and its theorems at a concrete manager.
use muffin.Base.{
  ◌-◌, ◌*◌, ◌%◌, ◌^◌, ◌≡◌, refl, false, ◌&&◌, none, some, [], ◌∷◌, ltb, ◌==◌, if◌then◌else◌, arith,
}
use muffin.PhysicalMemory.Region.{FrameState, allocated, free, MemoryRegion}
use muffin.PhysicalMemory.Manager.{RegionFrameIndex, PhysicalMemoryManager, new_manager}
use muffin.PhysicalMemory.Frames.{FrameApi, IsFrameApi, allocate_frames, deallocate_small}
use muffin.PhysicalMemory.Spots.{find_first_free-IsFirst, spot}
use muffin.PhysicalMemory.Release.{IsValid, Releases, deallocate_small-Releases}
use muffin.PhysicalMemory.Scan.{is_run}
use muffin.PhysicalMemory.Allocation.{Allocates}
use muffin.PhysicalMemory.Granting.{allocate_frames-Allocates, allocate_frames_exhausted}

-- The checks that the x86_64 crate documents.
abbrev checked : FrameApi
checked = record {
  from_start_address =
      λ size addr. if ltb addr (2 ^ 52) && (addr % size == 0) then some addr else none;
  containing_address = λ size addr. addr - addr % size;
}

checked-IsFrameApi : IsFrameApi checked
checked-IsFrameApi = record {
  aligned_ok = λ size addr h e. ground arith;
  containing_start = λ size addr e. omega arith;
}

-- Two regions, the first with a hole, the second starting off a page of two frames.
abbrev low : MemoryRegion
low = record { base_addr = 0x1000; frames = allocated ∷ free ∷ allocated ∷ free ∷ [] }

abbrev high : MemoryRegion
high = record { base_addr = 0x9000; frames = free ∷ free ∷ free ∷ [] }

abbrev memory : PhysicalMemoryManager
memory = record { regions = low ∷ high ∷ []; first_free = some (spot 0 1) }

memory-IsValid : IsValid memory
unfolding muffin.PhysicalMemory.Manager.find_first_free
    muffin.PhysicalMemory.Manager.find_first_free_from muffin.PhysicalMemory.Manager.free_position
memory-IsValid = find_first_free-IsFirst memory.regions

abbrev granted_memory : PhysicalMemoryManager
granted_memory = record memory {
  regions = low ∷ record high { frames = free ∷ allocated ∷ allocated ∷ [] } ∷ [];
}

-- A page of two frames starts on an even frame number, which is index 1 of the second region.
page_of_two :
    allocate_frames checked 2 1 memory
    ≡ some (some (record { first = 0xa000; last = 0xa000 }), granted_memory)
unfolding allocate_frames muffin.PhysicalMemory.Manager.search_from
    muffin.PhysicalMemory.Manager.search_region muffin.PhysicalMemory.Manager.scan
    muffin.PhysicalMemory.Manager.align_up muffin.PhysicalMemory.Manager.all_free
    muffin.PhysicalMemory.Manager.fill muffin.PhysicalMemory.Region.frame_address
page_of_two = refl

too_long : allocate_frames checked 1 4 memory ≡ some (none, memory)
unfolding allocate_frames muffin.PhysicalMemory.Manager.search_from
    muffin.PhysicalMemory.Manager.search_region muffin.PhysicalMemory.Manager.scan
    muffin.PhysicalMemory.Manager.align_up muffin.PhysicalMemory.Manager.all_free
too_long = refl

freed : (deallocate_small memory 0x3000).0 ≡ some 0x3000
unfolding deallocate_small muffin.PhysicalMemory.Manager.find_frame_location
    muffin.PhysicalMemory.Manager.find_location_from muffin.PhysicalMemory.Region.frame_index
freed = refl

allocate_frames-Allocates_example : Allocates 2 1 memory (allocate_frames checked 2 1 memory)
allocate_frames-Allocates_example =
    allocate_frames-Allocates {api = checked} 2 1 memory checked-IsFrameApi (omega arith)
      (omega arith) (omega arith) (omega arith) memory-IsValid

allocate_frames_exhausted_example : is_run low.frames (4 * 1) 0 ≡ false
allocate_frames_exhausted_example =
    allocate_frames_exhausted {api = checked} 1 4 memory memory 0 0 checked-IsFrameApi (omega arith)
      (omega arith) (omega arith) (omega arith) memory-IsValid too_long refl refl

deallocate_small-Releases_example : Releases memory 0x3000 (deallocate_small memory 0x3000)
deallocate_small-Releases_example = deallocate_small-Releases memory 0x3000
