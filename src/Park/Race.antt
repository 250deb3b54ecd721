-- ===== src/Park/Race.antt =====
-- kernel/park/src/lib.rs: the race between `park` and `unpark` on one slot, over every interleaving of
-- their atomic steps, with other users of the lot, who may claim the slot as soon as it is empty.
use muffin.Base.{
  ◌≡◌, refl, Bool, true, false, Option, some, List, [], ◌∷◌, ◌||◌, if◌then◌else◌, arith,
}
use muffin.Park.Slots.{
  reserved, occupied, unparked, is_empty, Slot, Parker, start, wrote, refused, holding, parked,
  returned, park_fault, Unparker, ready, fetching, fetched, missed, got, unpark_fault, park_step,
  unpark_step,
}

-- `reused` is set once another reservation has claimed the slot.
pub record World (T : Type 0) : Type 0 where
  pub slot : Slot T
  pub reused : Bool
  pub parker : Parker T
  pub unparker : Unparker T

-- Whose step is next. Other users do as they like with a slot that is theirs.
pub data Move (T : Type 0) : Type 0 where
  parks unparks : Move T
  others : Slot T → Move T

module _ {T : Type 0} where
  unfoldable pub step : World T → Move T → World T
  step w parks = let (s, p) = park_step w.slot w.parker in record w { slot = s; parker = p }
  step w unparks = let (s, u) = unpark_step w.slot w.unparker in record w { slot = s; unparker = u }
  step w (others s) =
      if w.reused || is_empty w.slot.state then record w { slot = s; reused = true } else w

  unfoldable pub run : World T → List (Move T) → World T
  run w [] = w
  run w (m ∷ ms) = run (step w m) ms

  -- A reservation that was split, whatever its cell holds.
  abbrev pub reserved_world : Option T → T → World T
  reserved_world old v = record {
    slot = record { state = reserved; value = old };
    reused = false;
    parker = start v;
    unparker = ready;
  }

  -- What holds at each pair of places in the two operations. The slot is theirs until one of them
  -- empties it.
  abbrev pub Phase : T → Parker T → Unparker T → Slot T → Bool → Type 0
  Phase v (start u) ready s r = (u ≡ v) × (s.state ≡ reserved) × (r ≡ false)
  Phase v (start u) missed s r = (u ≡ v) × (s.state ≡ unparked) × (r ≡ false)
  Phase v (wrote u) ready s r = (u ≡ v) × (s.state ≡ reserved) × (s.value ≡ some v) × (r ≡ false)
  Phase v (wrote u) missed s r = (u ≡ v) × (s.state ≡ unparked) × (s.value ≡ some v) × (r ≡ false)
  Phase v refused missed s r = (s.state ≡ unparked) × (s.value ≡ some v) × (r ≡ false)
  Phase v (holding u) missed s r = (u ≡ v) × (s.state ≡ unparked) × (r ≡ false)
  Phase v (returned u) missed s r = u ≡ v
  Phase v parked ready s r = (s.state ≡ occupied) × (s.value ≡ some v) × (r ≡ false)
  Phase v parked fetching s r = (s.state ≡ occupied) × (s.value ≡ some v) × (r ≡ false)
  Phase v parked (fetched u) s r = (u ≡ v) × (s.state ≡ occupied) × (r ≡ false)
  Phase v parked (got u) s r = u ≡ v
  Phase v _ _ s r = ⊥

  pub park_keeps :
      (v : T) (p : Parker T) (u : Unparker T) (s : Slot T) (r : Bool)
      → Phase v p u s r
      → Phase v (park_step s p).1 u (park_step s p).0 r
  unfolding park_step
  park_keeps v (start x) ready s r h = ground arith
  park_keeps v (start x) _ s r h = ground arith
  park_keeps v (wrote x) ready s r h = ground arith
  park_keeps v (wrote x) _ s r h = ground arith
  park_keeps v refused ready s r h = ground arith
  park_keeps v refused missed s r h = rw (h.1) (refl, h.0, h.2)
  park_keeps v refused _ s r h = ground arith
  park_keeps v (holding x) ready s r h = ground arith
  park_keeps v (holding x) _ s r h = ground arith
  park_keeps v parked ready s r h = ground arith
  park_keeps v parked _ s r h = h
  park_keeps v (returned x) ready s r h = h
  park_keeps v (returned x) _ s r h = h
  park_keeps v park_fault ready s r h = h
  park_keeps v park_fault _ s r h = h

  pub unpark_keeps :
      (v : T) (p : Parker T) (u : Unparker T) (s : Slot T) (r : Bool)
      → Phase v p u s r
      → Phase v p (unpark_step s u).1 (unpark_step s u).0 r
  unfolding unpark_step
  unpark_keeps v (start x) ready s r h = ground arith
  unpark_keeps v (wrote x) ready s r h = ground arith
  unpark_keeps v parked ready s r h = ground arith
  unpark_keeps v parked fetching s r h = ground arith
  unpark_keeps v parked (fetched x) s r h = ground arith
  unpark_keeps v _ ready s r h = ground arith
  unpark_keeps v _ fetching s r h = ground arith
  unpark_keeps v _ (fetched x) s r h = ground arith
  unpark_keeps v _ missed s r h = h
  unpark_keeps v _ (got x) s r h = h
  unpark_keeps v _ unpark_fault s r h = h
