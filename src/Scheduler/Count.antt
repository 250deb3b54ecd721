-- ===== src/Scheduler/Count.antt =====
-- kernel/boot/src/mcore/mtask: how often a task stands in the places that hold one.
use muffin.Base.{
  ℕ, zero, suc, ◌+◌, ◌≡◌, Bool, true, false, Option, none, some, List, [], ◌∷◌, get_elem?, set,
  if◌then◌else◌, arith, Option-cases, inl, inr,
}
use muffin.Park.Slots.{
  State, empty, reserved, occupied, unparked, is_occupied, Slot, Parker, parked, returned, Unparker,
  missed, got, park, unpark, park_step, unpark_step,
}
use muffin.Scheduler.Tasks.{
  Task, QueueApi, IsQueueApi, is_task, is_task?, Shared, enqueue_task, park_task,
  unpark_and_enqueue, enqueue_cleanup,
}

-- A task is in a slot while the slot is occupied.
abbrev pub slot_count : ℕ → Slot Task → ℕ
slot_count i s = if is_occupied s.state then is_task? i s.value else 0

unfoldable pub count_slots : ℕ → List (Slot Task) → ℕ
count_slots i [] = 0
count_slots i (s ∷ ss) = slot_count i s + count_slots i ss

count_slots-set :
    (i r : ℕ) (ss : List (Slot Task)) (s s' : Slot Task)
    → get_elem? ss r ≡ some s
    → count_slots i (set ss r s') + slot_count i s ≡ count_slots i ss + slot_count i s'
unfolding count_slots
count_slots-set i r [] s s' e = ground arith
count_slots-set i zero (x ∷ ss) s s' e = ground arith
count_slots-set i (suc r) (x ∷ ss) s s' e = ground (arith, count_slots-set i r ss s s' e)

-- Whether a ticket may park at a slot: the other side has not run, or has just run.
abbrev pub parks_at : State → Bool
parks_at reserved = true
parks_at unparked = true
parks_at _ = false

-- Whether a ticket may unpark at a slot: a task is there, or the other side has not run.
abbrev pub unparks_at : State → Option Task → Bool
unparks_at reserved v = true
unparks_at occupied (some t) = true
unparks_at _ _ = false

abbrev pub can_park : Option (Slot Task) → Bool
can_park none = false
can_park (some s) = parks_at s.state

abbrev pub can_unpark : Option (Slot Task) → Bool
can_unpark none = false
can_unpark (some s) = unparks_at s.state s.value

module _ {Q : Type 0} (api : QueueApi Q) (laws : IsQueueApi api) where
  unfoldable pub count_shared : ℕ → Shared Q → ℕ
  unfolding count_slots
  count_shared i w = api.count i w.run_queue + api.count i w.cleanup_queue + count_slots i w.waiting

  -- What a move of task `t` into the shared places gives.
  unfoldable pub Receives : Task → Shared Q → Option (Shared Q) → Type 0
  Receives t w none = ⊥
  Receives t w (some w') = (i : ℕ) → count_shared i w' ≡ is_task i t + count_shared i w

  pub enqueue_task-Receives : (t : Task) (w : Shared Q) → Receives t w (some (enqueue_task api t w))
  unfolding Receives count_shared enqueue_task
  enqueue_task-Receives t w i = omega (arith, laws.count_enqueue i t w.run_queue)

  settle_park : ℕ → Shared Q → Slot Task × Parker Task → Option (Shared Q)
  settle_park r w (s', p) =
      let w' = record w { waiting = set w.waiting r s' } in
      elim p [ parked ↦ some w' | returned v ↦ some (enqueue_task api v w') | _ ↦ none ]

  settle_park-Receives :
      (t : Task) (w : Shared Q) (r : ℕ) (st : State) (v : Option Task)
      → get_elem? w.waiting r ≡ some (record { state = st; value = v })
      → parks_at st ≡ true
      → Receives t w (settle_park r w (park (record { state = st; value = v }) t))
  unfolding Receives count_shared enqueue_task settle_park park park_step
  settle_park-Receives t w r reserved v e h = λ i.
      ground
        (arith, count_slots-set i r w.waiting _ (record { state = occupied; value = some t }) e)
  settle_park-Receives t w r unparked v e h = λ i. ground (
    arith,
    laws.count_enqueue i t w.run_queue,
    count_slots-set i r w.waiting _ (record { state = empty; value = some t }) e,
  )
  settle_park-Receives t w r _ v e h = ground arith

  pub park_task-Receives :
      (t : Task) (w : Shared Q) (r : ℕ)
      → can_park (get_elem? w.waiting r) ≡ true
      → Receives t w (park_task api r t w)
  unfolding park_task settle_park
  park_task-Receives t w r h = elim (Option-cases (get_elem? w.waiting r)) [
    | inl gone ↦ ground (arith, gone)
    | inr (s, here) ↦
        rw (park_task, here) (settle_park-Receives t w r s.state s.value here (rw here at h))
  ]

  -- What a move of a task between the shared places gives.
  unfoldable pub Keeps : Shared Q → Option (Shared Q) → Type 0
  Keeps w none = ⊥
  Keeps w (some w') = (i : ℕ) → count_shared i w' ≡ count_shared i w

  settle_unpark : ℕ → Shared Q → Slot Task × Unparker Task → Option (Shared Q)
  settle_unpark r w (s', u) =
      let w' = record w { waiting = set w.waiting r s' } in
      elim u [ missed ↦ some w' | got v ↦ some (enqueue_task api v w') | _ ↦ none ]

  settle_unpark-Keeps :
      (w : Shared Q) (r : ℕ) (st : State) (v : Option Task)
      → get_elem? w.waiting r ≡ some (record { state = st; value = v })
      → unparks_at st v ≡ true
      → Keeps w (settle_unpark r w (unpark (record { state = st; value = v })))
  unfolding Keeps count_shared enqueue_task settle_unpark unpark unpark_step
  settle_unpark-Keeps w r reserved v e h = λ i.
      ground (arith, count_slots-set i r w.waiting _ (record { state = unparked; value = v }) e)
  settle_unpark-Keeps w r occupied (some t) e h = λ i. ground (
    arith,
    laws.count_enqueue i t w.run_queue,
    count_slots-set i r w.waiting _ (record { state = empty; value = some t }) e,
  )
  settle_unpark-Keeps w r _ v e h = ground arith

  pub unpark_and_enqueue-Keeps :
      (w : Shared Q) (r : ℕ)
      → can_unpark (get_elem? w.waiting r) ≡ true
      → Keeps w (unpark_and_enqueue api r w)
  unfolding unpark_and_enqueue settle_unpark
  unpark_and_enqueue-Keeps w r h = elim (Option-cases (get_elem? w.waiting r)) [
    | inl gone ↦ ground (arith, gone)
    | inr (s, here) ↦
        rw (unpark_and_enqueue, here) (settle_unpark-Keeps w r s.state s.value here (rw here at h))
  ]

  -- Whether the wake of the cleanup task, if one is due, finds its slot as it must be.
  abbrev pub can_wake_cleanup : Shared Q → Bool
  can_wake_cleanup w = elim w.cleanup_unpark [
    | none ↦ true
    | some r ↦ can_unpark (get_elem? w.waiting r)
  ]

  Receives-Keeps :
      (t : Task) (w w1 : Shared Q) (out : Option (Shared Q))
      → Receives t w (some w1)
      → Keeps w1 out
      → Receives t w out
  unfolding Receives Keeps
  Receives-Keeps t w w1 none r k = k
  Receives-Keeps t w w1 (some w2) r k = λ i. omega (arith, r i, k i)

  cleanup_put-Receives :
      (t : Task) (w : Shared Q) (c : Option ℕ)
      → Receives t w
          (some (record w { cleanup_queue = api.enqueue t w.cleanup_queue; cleanup_unpark = c }))
  unfolding Receives count_shared
  cleanup_put-Receives t w c i = omega (arith, laws.count_enqueue i t w.cleanup_queue)

  pub enqueue_cleanup-Receives :
      (t : Task) (w : Shared Q) → can_wake_cleanup w ≡ true → Receives t w (enqueue_cleanup api t w)
  unfolding enqueue_cleanup Receives count_shared
  enqueue_cleanup-Receives t w h = elim (Option-cases w.cleanup_unpark) [
    | inl no_one ↦ rw (enqueue_cleanup, no_one) (cleanup_put-Receives t w none)
    | inr (r, armed) ↦
        let w1 : Shared Q = record w {
          cleanup_queue = api.enqueue t w.cleanup_queue;
          cleanup_unpark = none;
        } in
        rw (enqueue_cleanup, armed)
          (Receives-Keeps t w w1 (unpark_and_enqueue api r w1) (cleanup_put-Receives t w none)
            (unpark_and_enqueue-Keeps w1 r (rw armed at h)))
  ]
