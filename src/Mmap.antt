-- ===== src/Mmap.antt =====
-- kernel/syscall/src/mman.rs, kernel/syscall/src/access/mem.rs, kernel/abi/src/mman.rs: `sys_mmap` over the
-- memory access of a process. Words of 32 bits are natural numbers; the descriptor is signed.
use Prim.Native.Nat.{bit_and}
use muffin.Base.{
  ℕ, zero, suc, ◌+◌, ◌^◌, ◌≡◌, Bool, true, false, not, ◌&&◌, ◌||◌, Option, none, some, ltb, ◌==◌,
  if◌then◌else◌, Result, ok, err, ℤ, pos, negsuc,
}
use muffin.Abi.Errno.{Errno, ebadf, einval, enomem}
use muffin.UserPointer.{VirtAddrApi, UserspacePtr, validate_range}
pub mod Guards
mod Tests

-- `ProtFlags` and `MapFlags`.
abbrev pub prot_write : ℕ
prot_write = 0x2

abbrev pub prot_exec : ℕ
prot_exec = 0x4

abbrev pub map_shared : ℕ
map_shared = 0x01

abbrev pub map_private : ℕ
map_private = 0x02

abbrev pub map_fixed : ℕ
map_fixed = 0x10

abbrev pub map_anonymous : ℕ
map_anonymous = 0x20

-- All bits that `ProtFlags` names, and all that `MapFlags` names.
abbrev pub prot_all : ℕ
prot_all = 0x7

abbrev pub map_all : ℕ
map_all = 0x33

-- `from_bits` and `contains` of the bitflags types.
unfoldable pub from_bits : ℕ → ℕ → Option ℕ
from_bits all bits = if bit_and bits all == bits then some bits else none

abbrev pub has_flag : ℕ → ℕ → Bool
has_flag flags flag = bit_and flags flag == flag

pub data AllocationStrategy : Type 0 where
  eager lazy : AllocationStrategy

pub data Location : Type 0 where
  anywhere : Location
  fixed : UserspacePtr → Location

pub data CreateMappingError : Type 0 where
  location_already_mapped out_of_memory : CreateMappingError

-- `MemoryRegionAccess` of a process whose memory is in the state `S`: the address of the mapping made.
pub record MemoryRegionAccess (S : Type 0) : Type 0 where
  pub create_and_track_mapping :
      Location → ℕ → AllocationStrategy → S → Result ℕ CreateMappingError × S
  pub map_shared_file : ℤ → ℕ → S → Result ℕ Errno × S
  pub map_private_file : ℤ → ℕ → ℕ → ℕ → S → Result ℕ Errno × S

abbrev pub mapping_errno : CreateMappingError → Errno
mapping_errno location_already_mapped = einval
mapping_errno out_of_memory = enomem

-- Where an anonymous mapping goes.
unfoldable pub map_location : VirtAddrApi → UserspacePtr → ℕ → ℕ → Result Location Errno
map_location api addr len flags =
    if not (has_flag flags map_fixed)
    then ok anywhere
    else (if addr.addr == 0
        then err einval
        else (elim (validate_range api addr len) [ err e ↦ err einval | ok u ↦ ok (fixed addr) ]))

abbrev pub is_negative : ℤ → Bool
is_negative (pos n) = false
is_negative (negsuc n) = true

module _ {S : Type 0} where
  -- The branch of `MAP_ANONYMOUS`.
  unfoldable pub map_anonymously :
      VirtAddrApi → MemoryRegionAccess S → UserspacePtr → ℕ → ℕ → S → Result ℕ Errno × S
  unfolding map_location
  map_anonymously api cx addr len flags s =
      if not (has_flag flags map_private)
      then (err einval, s)
      else (elim (map_location api addr len flags) [
        | err e ↦ (err e, s)
        | ok place ↦
            let (made, s') = cx.create_and_track_mapping place len eager s in
            elim made [ err e ↦ (err (mapping_errno e), s') | ok a ↦ (ok a, s') ]
      ])

  -- The branch of a file.
  unfoldable pub map_file : MemoryRegionAccess S → ℕ → ℕ → ℕ → ℤ → ℕ → S → Result ℕ Errno × S
  map_file cx len prot flags fd offset s =
      if is_negative fd
      then (err ebadf, s)
      else (if has_flag flags map_fixed
          then (err einval, s)
          else (if has_flag flags map_shared && not (has_flag flags map_private)
              then (if not (offset == 0) then (err einval, s) else cx.map_shared_file fd len s)
              else (if not (has_flag flags map_shared) && has_flag flags map_private
                  then cx.map_private_file fd len offset prot s
                  else (err einval, s))))

  unfoldable pub sys_mmap :
      VirtAddrApi → MemoryRegionAccess S → UserspacePtr → ℕ → ℕ → ℕ → ℤ → ℕ → S → Result ℕ Errno × S
  unfolding from_bits map_anonymously map_file
  sys_mmap api cx addr len prot flags fd offset s =
      if len == 0 then (err einval, s) else (elim (from_bits map_all flags) [
        | none ↦ (err einval, s)
        | some fs ↦ elim (from_bits prot_all prot) [
          | none ↦ (err einval, s)
          | some ps ↦
              if has_flag ps prot_write && has_flag ps prot_exec
              then (err einval, s)
              else (if has_flag fs map_anonymous
                  then map_anonymously api cx addr len fs s
                  else map_file cx len ps fs fd offset s)
        ]
      ])
