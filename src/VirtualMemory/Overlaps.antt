-- ===== src/VirtualMemory/Overlaps.antt =====
-- kernel/virtual_memory/src/lib.rs: `find_overlapping` against the plain comparison of ranges.
use muffin.Base.{
  ◌-◌, ℕ, zero, suc, ◌+◌, ◌≤◌, ◌<◌, ◌^◌, ◌≡◌, refl, Option, none, some, List, [], ◌∷◌,
  if◌then◌else◌, arith,
}
use muffin.VirtualMemory.Segments.{Segment}
use muffin.VirtualMemory.Manager.{AddrApi, IsAddrApi, last_address, overlaps, find_overlapping}
use muffin.VirtualMemory.Order.{meets, IsAscending}

-- Every segment leaves room for `n` more addresses below the end of the lower half.
unfoldable pub HasRoom : ℕ → List Segment → Type 0
HasRoom n [] = Unit
HasRoom n (e ∷ es) = (e.start + e.len + n < 2 ^ 47) × HasRoom n es

-- The first segment that the range meets.
unfoldable pub first_met : List Segment → ℕ → ℕ → Option Segment
first_met [] a n = none
first_met (e ∷ es) a n = if meets a n e then some e else first_met es a n

module _ (api : AddrApi) (ok_api : IsAddrApi api) where
  pub last_address_low :
      (a n : ℕ) → 1 ≤ n → a + n < 2 ^ 47 → last_address api a n ≡ some (a + n - 1)
  unfolding last_address
  last_address_low a zero h k = ground arith
  last_address_low a (suc n) h k = ground (arith, ok_api.add_low a n)

  overlaps-meets :
      (s e : Segment)
      → 1 ≤ s.len
      → 1 ≤ e.len
      → s.start + s.len < 2 ^ 47
      → e.start + e.len < 2 ^ 47
      → overlaps api s e ≡ some (meets s.start s.len e)
  unfolding overlaps
  overlaps-meets s e h k a b =
      ground (arith, last_address_low s.start s.len h a, last_address_low e.start e.len k b)

  pub find_overlapping_lem :
      (es : List Segment) (s : Segment)
      → 1 ≤ s.len
      → s.start + s.len < 2 ^ 47
      → IsAscending es
      → HasRoom s.len es
      → find_overlapping api es s ≡ some (first_met es s.start s.len)
  unfolding find_overlapping first_met IsAscending HasRoom
  find_overlapping_lem [] s h k v r = refl
  find_overlapping_lem (e ∷ es) s h k (l, above, v) (r, rs) =
      ground (arith, overlaps-meets s e h l k, find_overlapping_lem es s h k v rs)
