-- ===== src/Park/Reservations.antt =====
-- kernel/park/src/lib.rs: what `reserve` and `try_reserve` promise. A reservation is of the first empty
-- slot in the order of the chain, and nothing else of the lot changes.
use muffin.Base.{
  ℕ, zero, suc, ◌+◌, ◌≡◌, refl, ap, sym, true, false, Option, none, some, List, [], ◌∷◌, get_elem?,
  arith, Bool-cases, inl, inr,
}
use muffin.Park.Slots.{reserved, is_empty, Slot}
use muffin.Park.Lot.{
  Segment, ParkingLot, Reservation, reservation_of, new_segment, claim_from, reserve_from,
  try_reserve_from, segments, from_segments, reserve, try_reserve,
}

module _ {T : Type 0} where
  -- No slot of the list is empty.
  unfoldable pub IsFull : List (Slot T) → Type 0
  IsFull ss = (i : ℕ) (s : Slot T) → get_elem? ss i ≡ some s → is_empty s.state ≡ false

  -- Slot `i` is empty, and none before it is.
  unfoldable pub FirstEmpty : List (Slot T) → ℕ → Type 0
  FirstEmpty [] i = ⊥
  FirstEmpty (s ∷ ss) zero = is_empty s.state ≡ true
  FirstEmpty (s ∷ ss) (suc i) = (is_empty s.state ≡ false) × FirstEmpty ss i

  -- The list with slot `i` in the state `reserved`.
  unfoldable pub reserve_slot : List (Slot T) → ℕ → List (Slot T)
  reserve_slot [] i = []
  reserve_slot (s ∷ ss) zero = record s { state = reserved } ∷ ss
  reserve_slot (s ∷ ss) (suc i) = s ∷ reserve_slot ss i

  IsFull-nil : (ss : List (Slot T)) → ss ≡ [] → IsFull ss
  unfolding IsFull
  IsFull-nil ss e i s h = ground arith

  IsFull-cons :
      (s : Slot T) (ss : List (Slot T)) → is_empty s.state ≡ false → IsFull ss → IsFull (s ∷ ss)
  unfolding IsFull
  IsFull-cons s ss e h zero x g = ground arith
  IsFull-cons s ss e h (suc i) x g = h i x g

  -- What `claim` returns: nothing when the segment is full, else its first empty slot, and the segment
  -- with that slot reserved.
  unfoldable Claims : ℕ → Segment T → Option (ℕ × Segment T) → Type 0
  Claims k ss none = IsFull ss
  Claims k ss (some (j, ss')) = (i : ℕ) × (j ≡ k + i) × FirstEmpty ss i × (ss' ≡ reserve_slot ss i)

  later-Claims :
      (k : ℕ) (s : Slot T) (ss : Segment T) (r : Option (ℕ × Segment T))
      → is_empty s.state ≡ false
      → Claims (k + 1) ss r
      → Claims k (s ∷ ss) (elim r [ none ↦ none | some (j, ss') ↦ some (j, s ∷ ss') ])
  unfolding Claims FirstEmpty reserve_slot
  later-Claims k s ss none e h = IsFull-cons s ss e h
  later-Claims k s ss (some (j, ss')) e (i, at, first, rest) =
      (suc i, omega arith, (e, first), ap (λ l. s ∷ l) rest)

  claim_from-Claims : (k : ℕ) (ss : Segment T) → Claims k ss (claim_from k ss)
  unfolding claim_from
  claim_from-Claims k [] = unfold Claims in IsFull-nil [] refl
  claim_from-Claims k (s ∷ ss) = elim (Bool-cases (is_empty s.state)) [
    | inl free ↦ rw free (unfold Claims FirstEmpty reserve_slot in (zero, omega arith, free, refl))
    | inr used ↦
        rw used (later-Claims k s ss (claim_from (k + 1) ss) used (claim_from-Claims (k + 1) ss))
  ]

  -- Slot `j` of segment `i` is the first empty slot of the chain, or the first one of the segment that
  -- would be appended to a full chain.
  unfoldable pub FirstFree : List (Segment T) → ℕ → ℕ → Type 0
  FirstFree [] zero j = j ≡ 0
  FirstFree [] (suc i) j = ⊥
  FirstFree (seg ∷ segs) zero j = FirstEmpty seg j
  FirstFree (seg ∷ segs) (suc i) j = IsFull seg × FirstFree segs i j

  -- The chain with that slot reserved, and with a fresh segment where it ended.
  unfoldable pub reserve_at : List (Segment T) → ℕ → ℕ → List (Segment T)
  unfolding new_segment
  reserve_at [] i j = reserve_slot new_segment j ∷ []
  reserve_at (seg ∷ segs) zero j = reserve_slot seg j ∷ segs
  reserve_at (seg ∷ segs) (suc i) j = seg ∷ reserve_at segs i j

  unfoldable Reserves : ℕ → List (Segment T) → Option (Reservation × List (Segment T)) → Type 0
  Reserves n segs none = ⊥
  Reserves n segs (some (r, segs')) =
      (i : ℕ) × (r.segment ≡ n + i) × FirstFree segs i r.slot × (segs' ≡ reserve_at segs i r.slot)

  fresh-Reserves :
      (n : ℕ) (segs : List (Segment T)) → segs ≡ [] → Reserves n segs (reserve_from n segs)
  unfolding reserve_from Reserves FirstFree reserve_at reserve_slot new_segment claim_from
  fresh-Reserves n [] e = (zero, omega arith, refl, refl)
  fresh-Reserves n (seg ∷ segs) e = ground arith

  here-Reserves :
      (n i : ℕ) (seg seg' : Segment T) (segs : List (Segment T))
      → Claims 0 seg (some (i, seg'))
      → Reserves n (seg ∷ segs) (some (reservation_of n i, seg' ∷ segs))
  unfolding Claims Reserves FirstFree reserve_at
  here-Reserves n i seg seg' segs (k, at, first, rest) =
      let same : i ≡ k = omega arith in
      (zero, omega arith, rw same first, rw same (ap (λ l. l ∷ segs) rest))

  later-Reserves :
      (n : ℕ) (seg : Segment T) (segs : List (Segment T))
      (out : Option (Reservation × List (Segment T)))
      → IsFull seg
      → Reserves (n + 1) segs out
      → Reserves n (seg ∷ segs) (elim out [ none ↦ none | some (r, segs') ↦ some (r, seg ∷ segs') ])
  unfolding Reserves FirstFree reserve_at
  later-Reserves n seg segs none full h = h
  later-Reserves n seg segs (some (r, segs')) full (i, at, first, rest) =
      (suc i, omega arith, (full, first), ap (λ l. seg ∷ l) rest)

  chain-Reserves :
      (n : ℕ) (seg : Segment T) (segs : List (Segment T)) (c : Option (ℕ × Segment T))
      (out : Option (Reservation × List (Segment T)))
      → Claims 0 seg c
      → Reserves (n + 1) segs out
      → Reserves n (seg ∷ segs) (elim c [
        | some (i, seg') ↦ some (reservation_of n i, seg' ∷ segs)
        | none ↦ elim out [ none ↦ none | some (r, segs') ↦ some (r, seg ∷ segs') ]
      ])
  unfolding Claims
  chain-Reserves n seg segs none out full h = later-Reserves n seg segs out full h
  chain-Reserves n seg segs (some (i, seg')) out c h = here-Reserves n i seg seg' segs c

  reserve_from-Reserves : (n : ℕ) (segs : List (Segment T)) → Reserves n segs (reserve_from n segs)
  unfolding reserve_from
  reserve_from-Reserves n [] = fresh-Reserves n [] refl
  reserve_from-Reserves n (seg ∷ segs) =
      chain-Reserves n seg segs (claim_from 0 seg) (reserve_from (n + 1) segs)
        (claim_from-Claims 0 seg) (reserve_from-Reserves (n + 1) segs)

  -- The lot's own view: its head is the chain's first segment.
  unfoldable pub ReservesFirst : ParkingLot T → Option (Reservation × ParkingLot T) → Type 0
  ReservesFirst lot none = ⊥
  ReservesFirst lot (some (r, lot')) =
      FirstFree (segments lot) r.segment r.slot
      × (segments lot' ≡ reserve_at (segments lot) r.segment r.slot)

  segments-from_segments :
      (lot : ParkingLot T) (segs : List (Segment T)) (i j : ℕ)
      → segs ≡ reserve_at (segments lot) i j
      → segments (from_segments lot segs) ≡ reserve_at (segments lot) i j
  unfolding reserve_at
  segments-from_segments lot [] zero j e = ground arith
  segments-from_segments lot [] (suc i) j e = ground arith
  segments-from_segments lot (seg ∷ segs) i j e = e

  first-Reserves :
      (lot : ParkingLot T) (out : Option (Reservation × List (Segment T)))
      → Reserves 0 (segments lot) out
      → ReservesFirst lot
          (elim out [ none ↦ none | some (r, segs) ↦ some (r, from_segments lot segs) ])
  unfolding Reserves ReservesFirst
  first-Reserves lot none h = h
  first-Reserves lot (some (r, segs)) (i, at, first, rest) =
      let same : r.segment ≡ i = omega arith in
      (rw same first, segments-from_segments lot segs r.segment r.slot (rw same rest))

  -- `reserve` never fails: it reserves the first empty slot in the order of the chain, and where every
  -- slot is taken the first slot of one segment it appends. Nothing else of the lot changes.
  pub reserve-ReservesFirst : (lot : ParkingLot T) → ReservesFirst lot (reserve lot)
  unfolding reserve
  reserve-ReservesFirst lot =
      first-Reserves lot (reserve_from 0 (segments lot)) (reserve_from-Reserves 0 (segments lot))

  -- Every slot of every segment is taken.
  unfoldable pub AllFull : List (Segment T) → Type 0
  AllFull [] = Unit
  AllFull (seg ∷ segs) = IsFull seg × AllFull segs

  unfoldable Tries :
      List (Segment T)
      → Option (Reservation × List (Segment T))
      → Option (Reservation × List (Segment T))
      → Type 0
  Tries segs none out = AllFull segs
  Tries segs (some x) out = some x ≡ out

  chain-Tries :
      (n : ℕ) (seg : Segment T) (segs : List (Segment T)) (c : Option (ℕ × Segment T))
      (tried out : Option (Reservation × List (Segment T)))
      → Claims 0 seg c
      → Tries segs tried out
      → Tries
          (seg ∷ segs)
          (elim c [
            | some (i, seg') ↦ some (reservation_of n i, seg' ∷ segs)
            | none ↦ elim tried [ none ↦ none | some (r, segs') ↦ some (r, seg ∷ segs') ]
          ])
          (elim c [
            | some (i, seg') ↦ some (reservation_of n i, seg' ∷ segs)
            | none ↦ elim out [ none ↦ none | some (r, segs') ↦ some (r, seg ∷ segs') ]
          ])
  unfolding Claims Tries AllFull
  chain-Tries n seg segs (some (i, seg')) tried out c h = refl
  chain-Tries n seg segs none none out c h = (c, h)
  chain-Tries n seg segs none (some (r, segs')) out c h = rw (sym h) refl

  try_reserve_from-Tries :
      (n : ℕ) (segs : List (Segment T)) → Tries segs (try_reserve_from n segs) (reserve_from n segs)
  unfolding try_reserve_from reserve_from
  try_reserve_from-Tries n [] = unfold Tries AllFull in tt
  try_reserve_from-Tries n (seg ∷ segs) =
      chain-Tries n seg segs (claim_from 0 seg) (try_reserve_from (n + 1) segs)
        (reserve_from (n + 1) segs) (claim_from-Claims 0 seg) (try_reserve_from-Tries (n + 1) segs)

  -- The lot is full, or it has two equal answers.
  unfoldable pub AgreesUnlessFull :
      ParkingLot T
      → Option (Reservation × ParkingLot T)
      → Option (Reservation × ParkingLot T)
      → Type 0
  AgreesUnlessFull lot none out = AllFull (segments lot)
  AgreesUnlessFull lot (some x) out = some x ≡ out

  agree-Tries :
      (lot : ParkingLot T) (tried out : Option (Reservation × List (Segment T)))
      → Tries (segments lot) tried out
      → AgreesUnlessFull lot
          (elim tried [ none ↦ none | some (r, segs) ↦ some (r, from_segments lot segs) ])
          (elim out [ none ↦ none | some (r, segs) ↦ some (r, from_segments lot segs) ])
  unfolding Tries AgreesUnlessFull
  agree-Tries lot none out h = h
  agree-Tries lot (some (r, segs)) out h = rw (sym h) refl

  -- `try_reserve` returns what `reserve` returns, lot included, unless every slot of the lot is taken;
  -- it returns `None` only then.
  try_reserve-AgreesUnlessFull :
      (lot : ParkingLot T) → AgreesUnlessFull lot (try_reserve lot) (reserve lot)
  unfolding try_reserve reserve
  try_reserve-AgreesUnlessFull lot =
      agree-Tries lot (try_reserve_from 0 (segments lot)) (reserve_from 0 (segments lot))
        (try_reserve_from-Tries 0 (segments lot))
