-- ===== src/Mmap/Tests.antt =====
-- A mapping at a fixed address, over a memory that only counts its mappings.
use muffin.Base.{ℕ, ◌+◌, ◌<◌, ◌≡◌, refl, true, false, ◌&&◌, ok, pos}
use muffin.UserPointer.{UserspacePtr, validate_range, validate_addresses, is_upper_half}
use muffin.UserPointer.Tests.{four_level, four_level-IsVirtAddrApi}
use muffin.Mmap.{
  prot_write, prot_exec, from_bits, has_flag, Location, anywhere, fixed, MemoryRegionAccess,
  map_location, map_anonymously, sys_mmap,
}
use muffin.Mmap.Guards.{is_placed, sys_mmap-ok}

abbrev address_of : Location → ℕ
address_of anywhere = 0x5000
address_of (fixed p) = p.addr

abbrev counting : MemoryRegionAccess ℕ
counting = record {
  create_and_track_mapping = λ place len strategy s. (ok (address_of place), s + 1);
  map_shared_file = λ fd len s. (ok 0x6000, s + 1);
  map_private_file = λ fd len offset prot s. (ok 0x7000, s + 1);
}

abbrev page : UserspacePtr
page = record { addr = 0x4000 }

fixed_page : sys_mmap four_level counting page 4096 0x3 0x32 (pos 0) 0 0 ≡ (ok 0x4000, 1)
unfolding sys_mmap from_bits map_anonymously map_location validate_range validate_addresses
    is_upper_half
fixed_page = refl

fixed_page_made : (sys_mmap four_level counting page 4096 0x3 0x32 (pos 0) 0 0).0 ≡ ok 0x4000
unfolding sys_mmap from_bits map_anonymously map_location validate_range validate_addresses
    is_upper_half
fixed_page_made = refl

sys_mmap-ok_example :
    (0 < 4096)
    × ((has_flag 0x3 prot_write && has_flag 0x3 prot_exec) ≡ false)
    × (is_placed page 4096 0x32 ≡ true)
sys_mmap-ok_example =
    sys_mmap-ok four_level four_level-IsVirtAddrApi counting page 4096 0x3 0x32 (pos 0) 0 0x4000 0
      fixed_page_made
