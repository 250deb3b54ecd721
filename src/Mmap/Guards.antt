-- ===== src/Mmap/Guards.antt =====
-- kernel/syscall/src/mman.rs: what a mapping that `sys_mmap` made has passed.
use muffin.Base.{
  ℕ, ◌+◌, ◌^◌, ◌≡◌, ◌<◌, refl, Bool, true, false, not, ◌&&◌, ◌||◌, ltb, Result, ok, err, ℤ, arith,
  Bool-cases, inl, inr,
}
use muffin.Abi.Errno.{Errno}
use muffin.UserPointer.{VirtAddrApi, IsVirtAddrApi, UserspacePtr}
use muffin.UserPointer.Ranges.{validate_range_lem}
use muffin.Mmap.{
  prot_write, prot_exec, map_fixed, map_anonymous, from_bits, has_flag, Location,
  MemoryRegionAccess, map_location, map_anonymously, map_file, sys_mmap,
}

-- A mapping at a fixed address is anonymous, not at 0, and ends in the lower half.
abbrev pub is_placed : UserspacePtr → ℕ → ℕ → Bool
is_placed addr len flags =
    not (has_flag flags map_fixed)
    || (has_flag flags map_anonymous && (ltb 0 addr.addr && ltb (addr.addr + len) (2 ^ 47)))

map_file-ok :
    {S : Type 0} (cx : MemoryRegionAccess S) (len prot flags : ℕ) (fd : ℤ) (offset a : ℕ) (s : S)
    → (map_file cx len prot flags fd offset s).0 ≡ ok a
    → has_flag flags map_fixed ≡ false
unfolding map_file
map_file-ok cx len prot flags fd offset a s h = elim (Bool-cases (has_flag flags map_fixed)) [
  | inl is_fixed ↦ ground (arith, is_fixed)
  | inr free_choice ↦ free_choice
]

module _ (api : VirtAddrApi) (x86 : IsVirtAddrApi api) where
  map_location-ok :
      (addr : UserspacePtr) (len flags : ℕ) (place : Location)
      → map_location api addr len flags ≡ ok place
      → (not (has_flag flags map_fixed) || (ltb 0 addr.addr && ltb (addr.addr + len) (2 ^ 47)))
        ≡ true
  unfolding map_location
  map_location-ok addr len flags place h = ground (arith, validate_range_lem api x86 addr len)

  map_anonymously-ok :
      {S : Type 0} (cx : MemoryRegionAccess S) (addr : UserspacePtr) (len flags a : ℕ) (s : S)
      → (map_anonymously api cx addr len flags s).0 ≡ ok a
      → (not (has_flag flags map_fixed) || (ltb 0 addr.addr && ltb (addr.addr + len) (2 ^ 47)))
        ≡ true
  unfolding map_anonymously
  map_anonymously-ok cx addr len flags a s h = placed (map_location api addr len flags) refl
    where
      placed :
          (r : Result Location Errno)
          → map_location api addr len flags ≡ r
          → (not (has_flag flags map_fixed) || (ltb 0 addr.addr && ltb (addr.addr + len) (2 ^ 47)))
            ≡ true
      placed (ok place) e = map_location-ok addr len flags place e
      placed (err x) e = ground (arith, e)

  -- A mapping that `sys_mmap` made is not empty and never both writable and executable. If its address was
  -- fixed, it is anonymous, not at address 0, and ends in the lower half.
  pub sys_mmap-ok :
      {S : Type 0} (cx : MemoryRegionAccess S) (addr : UserspacePtr) (len prot flags : ℕ) (fd : ℤ)
      (offset a : ℕ) (s : S)
      → (sys_mmap api cx addr len prot flags fd offset s).0 ≡ ok a
      → (0 < len)
        × ((has_flag prot prot_write && has_flag prot prot_exec) ≡ false)
        × (is_placed addr len flags ≡ true)
  unfolding sys_mmap from_bits
  sys_mmap-ok cx addr len prot flags fd offset a s h =
      ground (
        arith,
        map_anonymously-ok cx addr len flags a s,
        map_file-ok cx len prot flags fd offset a s,
      )
