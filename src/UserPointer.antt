-- ===== src/UserPointer.antt =====
-- kernel/syscall/src/ptr.rs: pointers that a process passes in. `VirtAddr::try_new` is of the x86_64
-- crate: an address of 64 bits is canonical or not.
use muffin.Base.{
  ℕ, ◌+◌, ◌≤◌, ◌<◌, ◌^◌, ◌≡◌, ◌⊎◌, Bool, true, false, ltb, leb, if◌then◌else◌, Result, ok, err,
}
use muffin.Bits.{test_bit}
pub mod Ranges
pub mod Tests

-- `VirtAddr::try_new(addr).is_ok()`.
pub record VirtAddrApi : Type 0 where
  pub is_canonical : ℕ → Bool

-- With four-level paging, bits 48 to 63 of an address are copies of bit 47.
pub record IsVirtAddrApi (api : VirtAddrApi) : Type 0 where
  pub canonical_low : (a : ℕ) → a < 2 ^ 47 → api.is_canonical a ≡ true
  pub canonical_high : (a : ℕ) → 2 ^ 64 ≤ a + 2 ^ 47 → a < 2 ^ 64 → api.is_canonical a ≡ true
  pub canonical_gap : (a : ℕ) → 2 ^ 47 ≤ a → a + 2 ^ 47 < 2 ^ 64 → api.is_canonical a ≡ false

-- `NotUserspace`, with the address it refuses.
pub data NotUserspace : Type 0 where
  not_userspace : ℕ → NotUserspace

-- `addr` of a `UserspacePtr` and of a `UserspaceMutPtr`.
pub record UserspacePtr : Type 0 where
  pub addr : ℕ

pub record UserspaceMutPtr : Type 0 where
  pub mut_addr : ℕ

unfoldable pub is_upper_half : VirtAddrApi → ℕ → Result Bool NotUserspace
is_upper_half api a =
    if api.is_canonical a then ok (leb 0xFFFF800000000000 a) else err (not_userspace a)

-- `UserspacePtr::try_from_usize`.
unfoldable pub try_from_usize : VirtAddrApi → ℕ → Result UserspacePtr NotUserspace
unfolding is_upper_half
try_from_usize api p = elim (is_upper_half api p) [
  | err e ↦ err e
  | ok upper ↦ if upper then err (not_userspace p) else ok (record { addr = p })
]

-- `UserspaceMutPtr::try_from_usize`: `ptr & 1 << 63 != 0`.
unfoldable pub mut_try_from_usize : ℕ → Result UserspaceMutPtr NotUserspace
mut_try_from_usize p = if test_bit p 63 then err (not_userspace p) else ok (record { mut_addr = p })

-- `usize::checked_add`.
abbrev pub checked_add : ℕ → ℕ → ℕ → Result ℕ NotUserspace
checked_add start size p =
    if ltb (start + size) (2 ^ 64) then ok (start + size) else err (not_userspace p)

-- The body that both `validate_range` share.
unfoldable pub validate_addresses : VirtAddrApi → ℕ → ℕ → Result (Unit {0}) NotUserspace
unfolding is_upper_half
validate_addresses api start size = elim (checked_add start size start) [
  | err e ↦ err e
  | ok end ↦ elim (is_upper_half api end) [
    | err e ↦ err e
    | ok upper ↦ if upper then err (not_userspace end) else ok tt
  ]
]

-- `UserspacePtr::validate_range`.
unfoldable pub validate_range : VirtAddrApi → UserspacePtr → ℕ → Result (Unit {0}) NotUserspace
unfolding validate_addresses
validate_range api p size = validate_addresses api p.addr size

-- `UserspaceMutPtr::validate_range`.
unfoldable pub mut_validate_range :
    VirtAddrApi → UserspaceMutPtr → ℕ → Result (Unit {0}) NotUserspace
unfolding validate_addresses
mut_validate_range api p size = validate_addresses api p.mut_addr size
