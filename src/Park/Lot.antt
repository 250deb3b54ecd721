-- ===== src/Park/Lot.antt =====
-- kernel/park/src/lib.rs: `ParkingLot`, its segments and the reservation of slots, seen by one caller. A
-- reservation is the number of its segment and of its slot there.
use muffin.Base.{ℕ, ◌+◌, not, Option, none, some, List, [], ◌∷◌, ◌++◌, replicate, if◌then◌else◌}
use muffin.Park.Slots.{reserved, is_empty, is_occupied, Slot, new_slot}

-- `SEGMENT_SLOTS`.
abbrev pub segment_slots : ℕ
segment_slots = 64

abbrev pub Segment : Type 0 → Type 0
Segment T = List (Slot T)

-- The head segment, and the chain behind it.
pub record ParkingLot (T : Type 0) : Type 0 where
  pub head : Segment T
  pub chain : List (Segment T)

-- A claim on a slot: of which segment, at which index.
pub record Reservation : Type 0 where
  pub segment : ℕ
  pub slot : ℕ

abbrev pub reservation_of : ℕ → ℕ → Reservation
reservation_of n i = record { segment = n; slot = i }

module _ {T : Type 0} where
  -- `Segment::new`.
  unfoldable pub new_segment : Segment T
  new_segment = replicate segment_slots new_slot

  -- `ParkingLot::new`.
  unfoldable pub new_lot : ParkingLot T
  unfolding new_segment
  new_lot = record { head = new_segment; chain = [] }

  -- `claim`: the first empty slot from index `i` on becomes reserved.
  unfoldable pub claim_from : ℕ → Segment T → Option (ℕ × Segment T)
  claim_from i [] = none
  claim_from i (s ∷ ss) =
      let rest = claim_from (i + 1) ss in
      if not (is_empty s.state)
      then (elim rest [ none ↦ none | some (j, ss') ↦ some (j, s ∷ ss') ])
      else some (i, record s { state = reserved } ∷ ss)

  -- The loop of `reserve` from segment `n` on: a fresh segment is appended at the end of the chain.
  unfoldable pub reserve_from : ℕ → List (Segment T) → Option (Reservation × List (Segment T))
  unfolding claim_from new_segment
  reserve_from n [] = elim (claim_from 0 new_segment) [
    | none ↦ none
    | some (i, seg) ↦ some (reservation_of n i, seg ∷ [])
  ]
  reserve_from n (seg ∷ segs) =
      let rest = reserve_from (n + 1) segs in
      elim (claim_from 0 seg) [
        | some (i, seg') ↦ some (reservation_of n i, seg' ∷ segs)
        | none ↦ elim rest [ none ↦ none | some (r, segs') ↦ some (r, seg ∷ segs') ]
      ]

  -- The loop of `try_reserve`: `None` at the end of the chain.
  unfoldable pub try_reserve_from : ℕ → List (Segment T) → Option (Reservation × List (Segment T))
  unfolding claim_from
  try_reserve_from n [] = none
  try_reserve_from n (seg ∷ segs) =
      let rest = try_reserve_from (n + 1) segs in
      elim (claim_from 0 seg) [
        | some (i, seg') ↦ some (reservation_of n i, seg' ∷ segs)
        | none ↦ elim rest [ none ↦ none | some (r, segs') ↦ some (r, seg ∷ segs') ]
      ]

  abbrev pub segments : ParkingLot T → List (Segment T)
  segments lot = lot.head ∷ lot.chain

  abbrev pub from_segments : ParkingLot T → List (Segment T) → ParkingLot T
  from_segments lot [] = lot
  from_segments lot (h ∷ c) = record { head = h; chain = c }

  unfoldable pub reserve : ParkingLot T → Option (Reservation × ParkingLot T)
  reserve lot = elim (reserve_from 0 (segments lot)) [
    | none ↦ none
    | some (r, segs) ↦ some (r, from_segments lot segs)
  ]

  unfoldable pub try_reserve : ParkingLot T → Option (Reservation × ParkingLot T)
  try_reserve lot = elim (try_reserve_from 0 (segments lot)) [
    | none ↦ none
    | some (r, segs) ↦ some (r, from_segments lot segs)
  ]

  -- `drop_values`: the values that are dropped with a segment.
  unfoldable pub drop_values : Segment T → List T
  drop_values [] = []
  drop_values (s ∷ ss) =
      let rest = drop_values ss in
      if is_occupied s.state then (elim s.value [ none ↦ rest | some v ↦ v ∷ rest ]) else rest

  -- `Drop`: the head segment, then the chain.
  unfoldable pub drop_chain : List (Segment T) → List T
  drop_chain [] = []
  drop_chain (seg ∷ segs) = drop_values seg ++ drop_chain segs

  unfoldable pub drop_lot : ParkingLot T → List T
  drop_lot lot = drop_values lot.head ++ drop_chain lot.chain
