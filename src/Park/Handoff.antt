-- ===== src/Park/Handoff.antt =====
-- kernel/park/src/lib.rs: in every interleaving the parked value is handed over exactly once.
use muffin.Base.{
  ℕ, suc, ◌-◌, ◌≤◌, ◌≡◌, ◌≢◌, refl, Bool, true, Option, List, [], ◌∷◌, ◌||◌, ◌⊎◌, inl, inr, arith,
  Bool-cases,
}
use muffin.Park.Slots.{
  is_empty, Slot, Parker, start, wrote, refused, holding, parked, returned, park_fault, Unparker,
  ready, fetching, fetched, missed, got, unpark_fault, park_step, unpark_step,
}
use muffin.Park.Race.{
  World, Move, parks, unparks, others, step, run, reserved_world, Phase, park_keeps, unpark_keeps,
}

module _ {T : Type 0} where
  others_keep :
      (v : T) (p : Parker T) (u : Unparker T) (s s' : Slot T) (r : Bool)
      → (r || is_empty s.state) ≡ true
      → Phase v p u s r
      → Phase v p u s' true
  others_keep v (start x) ready s s' r e h = ground arith
  others_keep v (start x) _ s s' r e h = ground arith
  others_keep v (wrote x) ready s s' r e h = ground arith
  others_keep v (wrote x) _ s s' r e h = ground arith
  others_keep v refused ready s s' r e h = ground arith
  others_keep v refused _ s s' r e h = ground arith
  others_keep v (holding x) ready s s' r e h = ground arith
  others_keep v (holding x) _ s s' r e h = ground arith
  others_keep v parked ready s s' r e h = ground arith
  others_keep v parked _ s s' r e h = ground arith
  others_keep v (returned x) ready s s' r e h = ground arith
  others_keep v (returned x) _ s s' r e h = ground arith
  others_keep v park_fault ready s s' r e h = h
  others_keep v park_fault _ s s' r e h = h

  abbrev pub InPhase : T → World T → Type 0
  InPhase v w = Phase v w.parker w.unparker w.slot w.reused

  step-InPhase : (v : T) (w : World T) (m : Move T) → InPhase v w → InPhase v (step w m)
  unfolding step
  step-InPhase v w parks h = park_keeps v w.parker w.unparker w.slot w.reused h
  step-InPhase v w unparks h = unpark_keeps v w.parker w.unparker w.slot w.reused h
  step-InPhase v w (others s) h = elim (Bool-cases (w.reused || is_empty w.slot.state)) [
    | inl theirs ↦ rw (theirs, step) (others_keep v w.parker w.unparker w.slot s w.reused theirs h)
    | inr ours ↦ rw (ours, step) h
  ]

  run-InPhase : (v : T) (w : World T) (ms : List (Move T)) → InPhase v w → InPhase v (run w ms)
  unfolding run
  run-InPhase v w [] h = h
  run-InPhase v w (m ∷ ms) h = run-InPhase v (step w m) ms (step-InPhase v w m h)

  -- How many steps each operation has left at most.
  abbrev pub park_left : Parker T → ℕ
  park_left (start v) = 4
  park_left (wrote v) = 3
  park_left refused = 2
  park_left (holding v) = 1
  park_left _ = 0

  abbrev pub unpark_left : Unparker T → ℕ
  unpark_left ready = 3
  unpark_left fetching = 2
  unpark_left (fetched v) = 1
  unpark_left _ = 0

  abbrev pub count_parks : List (Move T) → ℕ
  count_parks [] = 0
  count_parks (parks ∷ ms) = suc (count_parks ms)
  count_parks (unparks ∷ ms) = count_parks ms
  count_parks (others s ∷ ms) = count_parks ms

  abbrev pub count_unparks : List (Move T) → ℕ
  count_unparks [] = 0
  count_unparks (parks ∷ ms) = count_unparks ms
  count_unparks (unparks ∷ ms) = suc (count_unparks ms)
  count_unparks (others s ∷ ms) = count_unparks ms

  park_left-park_step : (s : Slot T) (p : Parker T) → park_left (park_step s p).1 ≤ park_left p - 1
  unfolding park_step
  park_left-park_step s (start v) = omega arith
  park_left-park_step s (wrote v) = ground arith
  park_left-park_step s refused = ground arith
  park_left-park_step s _ = omega arith

  unpark_left-unpark_step :
      (s : Slot T) (u : Unparker T) → unpark_left (unpark_step s u).1 ≤ unpark_left u - 1
  unfolding unpark_step
  unpark_left-unpark_step s ready = ground arith
  unpark_left-unpark_step s fetching = ground arith
  unpark_left-unpark_step s _ = omega arith

  others_parker :
      (w : World T) (s : Slot T)
      → ((step w (others s)).parker ≡ w.parker) × ((step w (others s)).unparker ≡ w.unparker)
  unfolding step
  others_parker w s = ground arith

  park_left-run :
      (w : World T) (ms : List (Move T))
      → park_left (run w ms).parker ≤ park_left w.parker - count_parks ms
  unfolding run step
  park_left-run w [] = omega arith
  park_left-run w (parks ∷ ms) =
      omega (arith, park_left-run (step w parks) ms, park_left-park_step w.slot w.parker)
  park_left-run w (unparks ∷ ms) = park_left-run (step w unparks) ms
  park_left-run w (others s ∷ ms) =
      ground (arith, park_left-run (step w (others s)) ms, others_parker w s)

  unpark_left-run :
      (w : World T) (ms : List (Move T))
      → unpark_left (run w ms).unparker ≤ unpark_left w.unparker - count_unparks ms
  unfolding run step
  unpark_left-run w [] = omega arith
  unpark_left-run w (unparks ∷ ms) =
      omega (arith, unpark_left-run (step w unparks) ms, unpark_left-unpark_step w.slot w.unparker)
  unpark_left-run w (parks ∷ ms) = unpark_left-run (step w parks) ms
  unpark_left-run w (others s ∷ ms) =
      ground (arith, unpark_left-run (step w (others s)) ms, others_parker w s)

  -- The value went to the unparker, or back to the parker, and the other knows.
  abbrev pub HandedOver : T → Parker T → Unparker T → Type 0
  HandedOver v p u = ((p ≡ parked) × (u ≡ got v)) ⊎ ((p ≡ returned v) × (u ≡ missed))

  Phase-over :
      (v : T) (p : Parker T) (u : Unparker T) (s : Slot T) (r : Bool)
      → Phase v p u s r
      → park_left p ≡ 0
      → unpark_left u ≡ 0
      → HandedOver v p u
  Phase-over v parked (got x) s r h a b = inl (refl, ground arith)
  Phase-over v (returned x) missed s r h a b = inr (ground arith, refl)
  Phase-over v _ _ s r h a b = ground arith

  -- Once the parker has had four turns and the unparker three, whatever the interleaving and whatever others do with the
  -- slot when it is theirs, exactly one side has the value.
  pub run-HandedOver :
      (old : Option T) (v : T) (ms : List (Move T))
      → 4 ≤ count_parks ms
      → 3 ≤ count_unparks ms
      → let w = run (reserved_world old v) ms in HandedOver v w.parker w.unparker
  run-HandedOver old v ms a b =
      let w = run (reserved_world old v) ms in
      Phase-over v w.parker w.unparker w.slot w.reused
        (run-InPhase v (reserved_world old v) ms (refl, refl, refl))
        (omega (arith, park_left-run (reserved_world old v) ms))
        (omega (arith, unpark_left-run (reserved_world old v) ms))

  Phase-sound :
      (v : T) (p : Parker T) (u : Unparker T) (s : Slot T) (r : Bool)
      → Phase v p u s r
      → (p ≢ park_fault) × (u ≢ unpark_fault)
  Phase-sound v parked ready s r h = (λ e. cc, λ e. cc)
  Phase-sound v parked unpark_fault s r h = absurd h
  Phase-sound v park_fault ready s r h = absurd h
  Phase-sound v park_fault _ s r h = absurd h
  Phase-sound v _ unpark_fault s r h = absurd h
  Phase-sound v _ _ s r h = (λ e. cc, λ e. cc)

  Phase-reused :
      (v : T) (p : Parker T) (u : Unparker T) (s : Slot T) → Phase v p u s true → HandedOver v p u
  Phase-reused v parked (got x) s h = inl (refl, ground arith)
  Phase-reused v (returned x) missed s h = inr (ground arith, refl)
  Phase-reused v _ _ s h = ground arith

  -- At no point of an interleaving has a side read memory that was never written.
  run_no_fault :
      (old : Option T) (v : T) (ms : List (Move T))
      → let w = run (reserved_world old v) ms in
        (w.parker ≢ park_fault) × (w.unparker ≢ unpark_fault)
  run_no_fault old v ms =
      let w = run (reserved_world old v) ms in
      Phase-sound v w.parker w.unparker w.slot w.reused
        (run-InPhase v (reserved_world old v) ms (refl, refl, refl))

  -- By the time another user has claimed the slot, both sides are done with it.
  run_reused :
      (old : Option T) (v : T) (ms : List (Move T))
      → (run (reserved_world old v) ms).reused ≡ true
      → let w = run (reserved_world old v) ms in HandedOver v w.parker w.unparker
  run_reused old v ms e =
      let w = run (reserved_world old v) ms in
      Phase-reused v w.parker w.unparker w.slot
        (rw e at (run-InPhase v (reserved_world old v) ms (refl, refl, refl)))
