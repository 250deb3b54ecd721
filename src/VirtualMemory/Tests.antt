-- ===== src/VirtualMemory/Tests.antt =====
-- Runs of the virtual memory manager, and its theorems at a concrete one.
use muffin.Base.{◌+◌, ◌^◌, ◌≡◌, refl, true, none, some, [], ◌∷◌, ltb, if◌then◌else◌, arith}
use muffin.VirtualMemory.Segments.{Segment, new_segment}
use muffin.VirtualMemory.Manager.{AddrApi, IsAddrApi, VirtualMemoryManager, reserve, release}
use muffin.VirtualMemory.Order.{IsAscending, StartsAbove}
use muffin.VirtualMemory.Overlaps.{HasRoom}
use muffin.VirtualMemory.Reserving.{IsReady, Reserves, reserve-Reserves, release-reserve}

-- Addition that panics at the end of the lower half.
abbrev low_half : AddrApi
low_half = record { add = λ a b. if ltb (a + b) (2 ^ 47) then some (a + b) else none }

low_half-IsAddrApi : IsAddrApi low_half
low_half-IsAddrApi = record { add_low = λ a b h. ground arith }

-- 0x100 addresses, of which two segments are taken, with a gap of 0x10 between them.
abbrev two_taken : VirtualMemoryManager
two_taken = record {
  mem_start = 0x1000;
  mem_size = 0x100;
  segments = new_segment 0x1000 0x20 ∷ new_segment 0x1030 0x10 ∷ [];
}

two_taken-IsReady : IsReady two_taken 0x18
unfolding IsAscending StartsAbove HasRoom
two_taken-IsReady = record {
  ascending = (omega arith, (omega arith, tt), (omega arith, tt, tt));
  has_room = (omega arith, (omega arith, tt));
  some_memory = omega arith;
  memory_low = omega arith;
  request_low = omega arith;
}

-- The gap is too short, so the segment goes behind the second.
abbrev behind : Segment
behind = new_segment 0x1040 0x18

abbrev three_taken : VirtualMemoryManager
three_taken = record two_taken {
  segments = new_segment 0x1000 0x20 ∷ new_segment 0x1030 0x10 ∷ behind ∷ [];
}

reserve-behind : reserve low_half two_taken 0x18 ≡ some (some behind, three_taken)
unfolding reserve
reserve-behind = refl

reserve-Reserves_example : Reserves two_taken 0x18 (reserve low_half two_taken 0x18)
reserve-Reserves_example =
    reserve-Reserves low_half low_half-IsAddrApi two_taken 0x18 (omega arith) two_taken-IsReady

release-reserve_example : release three_taken behind ≡ (true, two_taken)
release-reserve_example =
    release-reserve low_half low_half-IsAddrApi two_taken three_taken 0x18 behind (omega arith)
      two_taken-IsReady reserve-behind
