-- ===== src/UserPointer/Ranges.antt =====
-- kernel/syscall/src/ptr.rs: which pointers and ranges pass.
use native.Mathlib.Nat.{pow-suc}
use muffin.Bits.{test_bit}
use muffin.Base.{
  ℕ, zero, suc, ◌/◌, ◌+◌, ◌≤◌, ◌<◌, ◌^◌, ◌≡◌, ◌⊎◌, true, false, ltb, if◌then◌else◌, ok, err, arith,
}
use muffin.UserPointer.{
  VirtAddrApi, IsVirtAddrApi, not_userspace, UserspacePtr, UserspaceMutPtr, is_upper_half,
  try_from_usize, mut_try_from_usize, validate_addresses, validate_range, mut_validate_range,
}

test_bit_below : (i a : ℕ) → a < 2 ^ i → test_bit a i ≡ false
unfolding test_bit
test_bit_below zero a h = ground arith
test_bit_below (suc i) a h = test_bit_below i (a / 2) (omega (arith, pow-suc 2 i))

module _ (api : VirtAddrApi) (x86 : IsVirtAddrApi api) where
  is_upper_half_low : (a : ℕ) → a < 2 ^ 47 → is_upper_half api a ≡ ok false
  unfolding is_upper_half
  is_upper_half_low a h = ground (arith, x86.canonical_low a h)

  is_upper_half_above :
      (a : ℕ)
      → 2 ^ 47 ≤ a
      → a < 2 ^ 64
      → (is_upper_half api a ≡ ok true) ⊎ (is_upper_half api a ≡ err (not_userspace a))
  unfolding is_upper_half
  is_upper_half_above a h k = ground (arith, x86.canonical_high a, x86.canonical_gap a)

  -- A pointer of 64 bits is made exactly for an address below 2^47, and holds that address; any other is
  -- refused with its own address.
  try_from_usize_lem :
      (p : ℕ)
      → p < 2 ^ 64
      → try_from_usize api p
        ≡ (if ltb p (2 ^ 47) then ok (record { addr = p }) else err (not_userspace p))
  unfolding try_from_usize
  try_from_usize_lem p h = ground (arith, is_upper_half_low p, is_upper_half_above p)

  -- A range of a pointer passes exactly when all of it, its end included, lies below 2^47. A range whose
  -- end does not fit a word is refused with its start, any other with its end.
  pub validate_range_lem :
      (p : UserspacePtr) (size : ℕ)
      → validate_range api p size ≡ (
          if ltb (p.addr + size) (2 ^ 47)
          then ok tt
          else (if ltb (p.addr + size) (2 ^ 64)
              then err (not_userspace (p.addr + size))
              else err (not_userspace p.addr)))
  unfolding validate_range validate_addresses
  validate_range_lem p size =
      ground (arith, is_upper_half_low (p.addr + size), is_upper_half_above (p.addr + size))

  -- What both checks together give a system call: every byte of the range is in the lower half.
  pub validated_bytes :
      (a size i : ℕ) (p : UserspaceMutPtr)
      → mut_try_from_usize a ≡ ok p
      → mut_validate_range api p size ≡ ok tt
      → i < size
      → (p.mut_addr ≡ a) × (a + i < 2 ^ 47)
  unfolding mut_try_from_usize mut_validate_range validate_addresses
  validated_bytes a size i p made valid h =
      ground (arith, is_upper_half_low (a + size), is_upper_half_above (a + size))

  -- Where the two kinds of pointer differ: an address in the gap between the halves makes a mutable
  -- pointer, though no constant one.
  gap_pointer :
      (a : ℕ)
      → 2 ^ 47 ≤ a
      → a < 2 ^ 63
      → (mut_try_from_usize a ≡ ok (record { mut_addr = a }))
        × (try_from_usize api a ≡ err (not_userspace a))
  unfolding mut_try_from_usize try_from_usize
  gap_pointer a h k = ground (arith, test_bit_below 63 a k, is_upper_half_above a)
