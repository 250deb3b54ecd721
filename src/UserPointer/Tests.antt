-- ===== src/UserPointer/Tests.antt =====
-- The pointer checks at concrete addresses.
use muffin.Base.{◌+◌, ◌<◌, ◌^◌, ◌≡◌, refl, ◌||◌, ltb, leb, ok, arith}
use muffin.Bits.{test_bit}
use muffin.UserPointer.{
  VirtAddrApi, IsVirtAddrApi, UserspacePtr, UserspaceMutPtr, is_upper_half, mut_try_from_usize,
  validate_addresses, mut_validate_range,
}
use muffin.UserPointer.Ranges.{validated_bytes}

-- The check that the x86_64 crate documents.
abbrev pub four_level : VirtAddrApi
four_level = record { is_canonical = λ a. ltb a (2 ^ 47) || leb (2 ^ 64) (a + 2 ^ 47) }

pub four_level-IsVirtAddrApi : IsVirtAddrApi four_level
four_level-IsVirtAddrApi = record {
  canonical_low = λ a h. ground arith;
  canonical_high = λ a h k. ground arith;
  canonical_gap = λ a h k. ground arith;
}

abbrev last_page : UserspacePtr
last_page = record { addr = 0x7FFFFFFFF000 }

abbrev buffer : UserspaceMutPtr
buffer = record { mut_addr = 0x1000 }

buffer_made : mut_try_from_usize 0x1000 ≡ ok buffer
unfolding mut_try_from_usize test_bit
buffer_made = refl

buffer_valid : mut_validate_range four_level buffer 4096 ≡ ok tt
unfolding mut_validate_range validate_addresses is_upper_half
buffer_valid = refl

validated_bytes_example : (buffer.mut_addr ≡ 0x1000) × (0x1000 + 4095 < 2 ^ 47)
validated_bytes_example =
    validated_bytes four_level four_level-IsVirtAddrApi 0x1000 4096 4095 buffer buffer_made
      buffer_valid (omega arith)
