-- ===== src/VirtualMemory/Manager.antt =====
-- kernel/virtual_memory/src/lib.rs: `VirtualMemoryManager`. Addition on `VirtAddr` is of the x86_64 crate
-- and panics on a result that is no address, which is `none`, as is a subtraction from a length of zero.
use muffin.Base.{
  ℕ, zero, suc, ◌+◌, ◌<◌, ◌^◌, ◌≡◌, Bool, true, false, Option, none, some, List, [], ◌∷◌, length,
  ltb, leb, ◌==◌, if◌then◌else◌, Result, ok, err,
}
use muffin.VirtualMemory.Segments.{Segment, new_segment, insert, remove}

-- `VirtAddr + u64`.
pub record AddrApi : Type 0 where
  pub add : ℕ → ℕ → Option ℕ

-- A sum in the lower half of the address space is an address.
pub record IsAddrApi (api : AddrApi) : Type 0 where
  pub add_low : (a b : ℕ) → a + b < 2 ^ 47 → api.add a b ≡ some (a + b)

pub record VirtualMemoryManager : Type 0 where
  pub mem_start : ℕ
  pub mem_size : ℕ
  pub segments : List Segment

pub data AlreadyReserved : Type 0 where
  already_reserved : AlreadyReserved

unfoldable pub new_manager : ℕ → ℕ → VirtualMemoryManager
new_manager start size = record { mem_start = start; mem_size = size; segments = [] }

abbrev pub less_one : ℕ → Option ℕ
less_one zero = none
less_one (suc n) = some n

-- `start + (len - 1)`.
unfoldable pub last_address : AddrApi → ℕ → ℕ → Option ℕ
last_address api start n = elim (less_one n) [ none ↦ none | some k ↦ api.add start k ]

-- The test of `find_overlapping` on one existing segment; the second sum is only made when the first
-- comparison holds.
unfoldable pub overlaps : AddrApi → Segment → Segment → Option Bool
unfolding last_address
overlaps api s e = elim (last_address api e.start e.len) [
  | none ↦ none
  | some l ↦
      if leb s.start l
      then (elim (last_address api s.start s.len) [ none ↦ none | some k ↦ some (leb e.start k) ])
      else some false
]

unfoldable pub find_overlapping : AddrApi → List Segment → Segment → Option (Option Segment)
unfolding overlaps
find_overlapping api [] s = some none
find_overlapping api (e ∷ es) s =
    let rest = find_overlapping api es s in
    elim (overlaps api s e) [ none ↦ none | some true ↦ some (some e) | some false ↦ rest ]

-- How the loop of `reserve` ends; `spent` is out of fuel.
pub data Search : Type 0 where
  panicked spent : Search
  found : Segment → Search

unfoldable pub search : ℕ → AddrApi → List Segment → Segment → Search
unfolding find_overlapping
search zero api es s = spent
search (suc k) api es s = elim (find_overlapping api es s) [
  | none ↦ panicked
  | some none ↦ found s
  | some (some e) ↦ elim (api.add e.start e.len) [
    | none ↦ panicked
    | some a ↦ search k api es (record s { start = a })
  ]
]

-- `reserve` after its loop.
unfoldable pub grant :
    AddrApi → VirtualMemoryManager → Segment → Option (Option Segment × VirtualMemoryManager)
unfolding last_address insert
grant api m s = elim (last_address api m.mem_start m.mem_size) [
  | none ↦ none
  | some end ↦ elim (last_address api s.start s.len) [
    | none ↦ none
    | some l ↦
        if ltb end l
        then some (none, m)
        else some (some s, record m { segments = insert s m.segments })
  ]
]

unfoldable pub reserve :
    AddrApi → VirtualMemoryManager → ℕ → Option (Option Segment × VirtualMemoryManager)
unfolding search grant
reserve api m n =
    if n == 0
    then some (none, m)
    else (elim (search (suc (length m.segments)) api m.segments (new_segment m.mem_start n)) [
      | panicked ↦ none
      | spent ↦ none
      | found s ↦ grant api m s
    ])

unfoldable pub release : VirtualMemoryManager → Segment → Bool × VirtualMemoryManager
unfolding remove
release m s = let (was, es) = remove s m.segments in (was, record m { segments = es })

unfoldable pub mark_as_reserved :
    AddrApi
    → VirtualMemoryManager
    → Segment
    → Option (Result (Unit {0}) AlreadyReserved × VirtualMemoryManager)
unfolding find_overlapping insert
mark_as_reserved api m s = elim (find_overlapping api m.segments s) [
  | none ↦ none
  | some (some e) ↦ some (err already_reserved, m)
  | some none ↦ some (ok tt, record m { segments = insert s m.segments })
]
