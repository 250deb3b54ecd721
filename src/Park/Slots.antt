-- ===== src/Park/Slots.antt =====
-- kernel/park/src/lib.rs: a slot, and `ParkTicket::park` and `UnparkTicket::unpark` as atomic steps.
-- `none` in a slot's cell is memory that was never written; reading it is a fault.
use muffin.Base.{Bool, true, false, Option, none, some, if◌then◌else◌}

pub data State : Type 0 where
  empty reserved occupied unparked : State

abbrev pub is_empty : State → Bool
is_empty empty = true
is_empty _ = false

abbrev pub is_reserved : State → Bool
is_reserved reserved = true
is_reserved _ = false

abbrev pub is_occupied : State → Bool
is_occupied occupied = true
is_occupied _ = false

pub record Slot (T : Type 0) : Type 0 where
  pub state : State
  pub value : Option T

-- `Slot::new`.
abbrev pub new_slot : {T : Type 0} → Slot T
new_slot = record { state = empty; value = none }

-- Where `park` stands: before its write of the value, before its exchange, before it reads the value
-- back, before its store of `Empty`; then returned `Ok` or `Err(Unparked(value))`.
pub data Parker (T : Type 0) : Type 0 where
  start : T → Parker T
  wrote : T → Parker T
  refused : Parker T
  holding : T → Parker T
  parked : Parker T
  returned : T → Parker T
  park_fault : Parker T

-- Where `unpark` stands: before its exchange, before it reads the value, before its store of
-- `Empty`; then returned `None` or `Some(value)`.
pub data Unparker (T : Type 0) : Type 0 where
  ready : Unparker T
  fetching : Unparker T
  fetched : T → Unparker T
  missed : Unparker T
  got : T → Unparker T
  unpark_fault : Unparker T

module _ {T : Type 0} where
  abbrev pub read_back : Option T → Parker T
  read_back none = park_fault
  read_back (some v) = holding v

  abbrev pub fetch : Option T → Unparker T
  fetch none = unpark_fault
  fetch (some v) = fetched v

  -- One atomic step of `ParkTicket::park`.
  unfoldable pub park_step : Slot T → Parker T → Slot T × Parker T
  park_step s (start v) = (record s { value = some v }, wrote v)
  park_step s (wrote v) =
      if is_reserved s.state then (record s { state = occupied }, parked) else (s, refused)
  park_step s refused = (s, read_back s.value)
  park_step s (holding v) = (record s { state = empty }, returned v)
  park_step s parked = (s, parked)
  park_step s (returned v) = (s, returned v)
  park_step s park_fault = (s, park_fault)

  -- One atomic step of `UnparkTicket::unpark`.
  unfoldable pub unpark_step : Slot T → Unparker T → Slot T × Unparker T
  unpark_step s ready =
      if is_reserved s.state then (record s { state = unparked }, missed) else (s, fetching)
  unpark_step s fetching = (s, fetch s.value)
  unpark_step s (fetched v) = (record s { state = empty }, got v)
  unpark_step s missed = (s, missed)
  unpark_step s (got v) = (s, got v)
  unpark_step s unpark_fault = (s, unpark_fault)

  -- `park` with nothing in between.
  unfoldable pub park : Slot T → T → Slot T × Parker T
  unfolding park_step
  park s v =
      let (s1, p1) = park_step s (start v) in
      let (s2, p2) = park_step s1 p1 in let (s3, p3) = park_step s2 p2 in park_step s3 p3

  -- `unpark` with nothing in between.
  unfoldable pub unpark : Slot T → Slot T × Unparker T
  unfolding unpark_step
  unpark s =
      let (s1, u1) = unpark_step s ready in let (s2, u2) = unpark_step s1 u1 in unpark_step s2 u2

  -- `Reservation::release`.
  abbrev pub release : Slot T → Slot T
  release s = record s { state = empty }
