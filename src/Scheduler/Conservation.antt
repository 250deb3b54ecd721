-- ===== src/Scheduler/Conservation.antt =====
-- kernel/boot/src/mcore/mtask/scheduler/mod.rs: no reschedule loses or copies a task.
use muffin.Base.{
  ℕ, ◌+◌, ◌≡◌, refl, Bool, true, false, not, ◌||◌, Option, none, some, get_elem?, ◌∙◌, arith,
  Option-cases, Bool-cases, inl, inr,
}
use muffin.Scheduler.Tasks.{
  Task, QueueApi, IsQueueApi, is_task, is_task?, Shared, enqueue_task, park_task, enqueue_cleanup,
}
use muffin.Scheduler.Switch.{
  Disposal, to_queue, terminate, to_slot, Scheduler, is_idle, has_park_ticket, dispose, route,
  route_zombie, next_task, switch_to, run_next, reschedule,
}
use muffin.Scheduler.Count.{
  can_park, can_wake_cleanup, count_shared, Receives, enqueue_task-Receives, park_task-Receives,
  enqueue_cleanup-Receives,
}

abbrev pub count_zombie : ℕ → Option (Task × Disposal) → ℕ
count_zombie i none = 0
count_zombie i (some (t, d)) = is_task i t

-- How often task `i` stands in a CPU's scheduler.
unfoldable pub count_cpu : ℕ → Scheduler → ℕ
count_cpu i c = is_task i c.current_task + is_task? i c.idle_task + count_zombie i c.zombie_task

abbrev pub is_absent : Option Task → Bool
is_absent none = true
is_absent (some t) = false

module _ {Q : Type 0} (api : QueueApi Q) (laws : IsQueueApi api) where
  -- Whether the task that was switched away from can go where it must: the place of the idle task is free
  -- for it, and a slot that it parks at, or that the cleanup task waits at, is as its ticket needs it.
  abbrev pub is_routable : Option (Task × Disposal) → Scheduler → Shared Q → Bool
  is_routable none c w = true
  is_routable (some (t, to_queue)) c w = not (is_idle c.idle_tid t.tid) || is_absent c.idle_task
  is_routable (some (t, to_slot r)) c w = can_park (get_elem? w.waiting r)
  is_routable (some (t, terminate)) c w = can_wake_cleanup api laws w

  -- The same tasks as before, each as often.
  unfoldable pub Conserves : Scheduler → Shared Q → Option (Scheduler × Shared Q) → Type 0
  unfolding count_cpu
  Conserves c w none = ⊥
  Conserves c w (some (c', w')) =
      (i : ℕ)
      → count_cpu i c' + count_shared api laws i w' ≡ count_cpu i c + count_shared api laws i w

  -- Task `t` was put somewhere, and there is no task left to route.
  unfoldable Routed : Task → Scheduler → Shared Q → Option (Scheduler × Shared Q) → Type 0
  Routed t c w none = ⊥
  Routed t c w (some (c', w')) =
      (c'.zombie_task ≡ none)
      × ((i : ℕ)
          → count_cpu i c' + count_shared api laws i w'
            ≡ is_task i t + (count_cpu i c + count_shared api laws i w))

  received-Routed :
      (t : Task) (c : Scheduler) (w : Shared Q) (out : Option (Shared Q))
      → c.zombie_task ≡ none
      → Receives api laws t w out
      → Routed t c w (elim out [ none ↦ none | some w' ↦ some (c, w') ])
  unfolding Routed Receives
  received-Routed t c w none z r = r
  received-Routed t c w (some w') z r = (z, λ i. omega (arith, r i))

  route-Routed :
      (t : Task) (d : Disposal) (c : Scheduler) (w : Shared Q)
      → c.zombie_task ≡ none
      → is_routable (some (t, d)) c w ≡ true
      → Routed t c w (route api t d c w)
  unfolding route
  route-Routed t to_queue c w z h = elim (Bool-cases (is_idle c.idle_tid t.tid)) [
    | inl own_idle ↦
        rw (route, own_idle) (unfold Routed count_cpu in (z, λ i. ground (arith, own_idle, h)))
    | inr other ↦
        rw (route, other)
          (received-Routed t c w (some (enqueue_task api t w)) z
            (enqueue_task-Receives api laws t w))
  ]
  route-Routed t (to_slot r) c w z h =
      received-Routed t c w (park_task api r t w) z (park_task-Receives api laws t w r h)
  route-Routed t terminate c w z h =
      received-Routed t c w (enqueue_cleanup api t w) z (enqueue_cleanup-Receives api laws t w h)

  -- What is left when the task to route is gone.
  unfoldable Settled : Scheduler → Shared Q → Option (Scheduler × Shared Q) → Type 0
  Settled c w none = ⊥
  Settled c w (some (c', w')) =
      (c'.zombie_task ≡ none)
      × ((i : ℕ)
          → count_cpu i c' + count_shared api laws i w' ≡ count_cpu i c + count_shared api laws i w)

  Settled-Routed :
      (t : Task) (d : Disposal) (c : Scheduler) (w : Shared Q) (out : Option (Scheduler × Shared Q))
      → c.zombie_task ≡ some (t, d)
      → Routed t (record c { zombie_task = none }) w out
      → Settled c w out
  unfolding Settled Routed count_cpu
  Settled-Routed t d c w none e r = r
  Settled-Routed t d c w (some (c', w')) e (z, r) = (z, λ i. ground (arith, e, r i))

  routable_alone :
      (t : Task) (d : Disposal) (c : Scheduler) (w : Shared Q)
      → is_routable (some (t, d)) (record c { zombie_task = none }) w
        ≡ is_routable (some (t, d)) c w
  routable_alone t to_queue c w = refl
  routable_alone t (to_slot r) c w = refl
  routable_alone t terminate c w = refl

  route_zombie-Settled_from :
      (c : Scheduler) (w : Shared Q) (z : Option (Task × Disposal))
      → c.zombie_task ≡ z
      → is_routable z c w ≡ true
      → Settled c w (elim z [
        | none ↦ some (c, w)
        | some (t, d) ↦ route api t d (record c { zombie_task = none }) w
      ])
  route_zombie-Settled_from c w none e h = unfold Settled count_cpu in (e, λ i. refl)
  route_zombie-Settled_from c w (some (t, d)) e h =
      Settled-Routed t d c w (route api t d (record c { zombie_task = none }) w) e
        (route-Routed t d (record c { zombie_task = none }) w refl (routable_alone t d c w ∙ h))

  route_zombie-Settled :
      (c : Scheduler) (w : Shared Q)
      → is_routable c.zombie_task c w ≡ true
      → Settled c w (route_zombie api c w)
  unfolding route_zombie
  route_zombie-Settled c w h = route_zombie-Settled_from c w c.zombie_task refl h

  -- A task was taken out of its place to run next, or none was and nothing else changed.
  unfoldable Taken : Scheduler → Shared Q → Option Task × (Scheduler × Shared Q) → Type 0
  unfolding count_cpu
  Taken c w (o, (c', w')) =
      (c'.zombie_task ≡ c.zombie_task)
      × ((i : ℕ)
          → is_task? i o + (count_cpu i c' + count_shared api laws i w')
            ≡ count_cpu i c + count_shared api laws i w)

  next_task-Taken : (b : Bool) (c : Scheduler) (w : Shared Q) → Taken c w (next_task api b c w)
  unfolding Taken next_task count_shared
  next_task-Taken b c w = elim (Option-cases (api.dequeue w.run_queue).0) [
    | inl no_task ↦ elim (Bool-cases (b || c.current_task.should_terminate)) [
      | inl must ↦
          rw (next_task, no_task, must)
            (refl, λ i. ground (arith, laws.count_dequeue i w.run_queue, no_task))
      | inr may_stay ↦
          rw (next_task, no_task, may_stay)
            (refl, λ i. ground (arith, laws.count_dequeue i w.run_queue, no_task))
    ]
    | inr (t, is) ↦
        rw (next_task, is) (refl, λ i. ground (arith, laws.count_dequeue i w.run_queue, is))
  ]

  dispose_task : (i : ℕ) (t : Task) → count_zombie i (some (dispose t)) ≡ is_task i t
  unfolding dispose
  dispose_task i t = elim (Option-cases t.park_ticket) [
    | inl no_ticket ↦ ground (arith, no_ticket)
    | inr (r, is) ↦ ground (arith, is)
  ]

  picked-Conserves :
      (c : Scheduler) (w : Shared Q) (out : Option Task × (Scheduler × Shared Q))
      → c.zombie_task ≡ none
      → Taken c w out
      → Conserves c w (elim out.0 [
        | none ↦ some out.1
        | some next ↦ elim (switch_to next out.1.0) [ none ↦ none | some c'' ↦ some (c'', out.1.1) ]
      ])
  unfolding Taken Conserves switch_to count_cpu
  picked-Conserves c w (none, (c', w')) z (k, h) = λ i. omega (arith, h i)
  picked-Conserves c w (some t, (c', w')) z (k, h) =
      rw (k ∙ z) (λ i. ground (arith, h i, dispose_task i c'.current_task, k, z))

  run_next-Conserves :
      (c : Scheduler) (w : Shared Q) → c.zombie_task ≡ none → Conserves c w (run_next api c w)
  unfolding run_next
  run_next-Conserves c w z =
      picked-Conserves c w (next_task api (has_park_ticket c.current_task) c w) z
        (next_task-Taken (has_park_ticket c.current_task) c w)

  Conserves-back :
      (c c1 : Scheduler) (w w1 : Shared Q) (out : Option (Scheduler × Shared Q))
      → ((i : ℕ)
          → count_cpu i c1 + count_shared api laws i w1 ≡ count_cpu i c + count_shared api laws i w)
      → Conserves c1 w1 out
      → Conserves c w out
  unfolding Conserves
  Conserves-back c c1 w w1 none h k = k
  Conserves-back c c1 w w1 (some (c', w')) h k = λ i. k i ∙ h i

  Settled-Conserves :
      (c : Scheduler) (w : Shared Q) (out : Option (Scheduler × Shared Q))
      → Settled c w out
      → Conserves c w (elim out [ none ↦ none | some (c1, w1) ↦ run_next api c1 w1 ])
  unfolding Settled
  Settled-Conserves c w none h = unfold Conserves in h
  Settled-Conserves c w (some (c1, w1)) (z, h) =
      Conserves-back c c1 w w1 _ h (run_next-Conserves c1 w1 z)

  -- With interrupts off, and where the task that was switched away from can go to its place, `reschedule`
  -- fails no assertion, also not the one that no other task is left to route at the switch, and leaves each task as often as before in the CPU's scheduler, the two queues and the parking lot
  -- together: none is lost and none is copied.
  pub reschedule-Conserves :
      (c : Scheduler) (w : Shared Q)
      → is_routable c.zombie_task c w ≡ true
      → Conserves c w (reschedule api false c w)
  unfolding reschedule
  reschedule-Conserves c w h =
      Settled-Conserves c w (route_zombie api c w) (route_zombie-Settled c w h)
