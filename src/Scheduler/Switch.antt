-- ===== src/Scheduler/Switch.antt =====
-- kernel/boot/src/mcore/mtask/scheduler/mod.rs: `reschedule` and what it calls. The registers, the FPU area
-- and the stacks that the switch swaps are the machine's and not here; `none` is a failed assertion.
use muffin.Base.{ℕ, Bool, true, false, ◌||◌, Option, none, some, ◌==◌, if◌then◌else◌}
use muffin.Scheduler.Tasks.{Task, QueueApi, Shared, enqueue_task, park_task, enqueue_cleanup}

pub data Disposal : Type 0 where
  to_queue terminate : Disposal
  to_slot : ℕ → Disposal

pub record Scheduler : Type 0 where
  pub current_task : Task
  pub idle_task : Option Task
  pub idle_tid : Option ℕ
  pub zombie_task : Option (Task × Disposal)

abbrev pub is_idle : Option ℕ → ℕ → Bool
is_idle none i = false
is_idle (some j) i = j == i

-- `has_park_ticket`.
abbrev pub has_park_ticket : Task → Bool
has_park_ticket t = elim t.park_ticket [ none ↦ false | some r ↦ true ]

-- `set_idle_task`, which asserts that interrupts are off.
unfoldable pub set_idle_task : Bool → Scheduler → Task → Option Scheduler
set_idle_task interrupts_enabled c t =
    if interrupts_enabled
    then none
    else some (record c { idle_tid = some t.tid; idle_task = some t })

-- The disposal of a task that is switched away from, and the task without its ticket.
unfoldable pub dispose : Task → Task × Disposal
dispose t = elim t.park_ticket [
  | some r ↦ (record t { park_ticket = none }, to_slot r)
  | none ↦ if t.should_terminate then (t, terminate) else (t, to_queue)
]

-- The switch to a task that was found, which asserts that no task is left to route.
unfoldable pub switch_to : Task → Scheduler → Option Scheduler
unfolding dispose
switch_to next c = elim c.zombie_task [
  | some left ↦ none
  | none ↦ some (record c { current_task = next; zombie_task = some (dispose c.current_task) })
]

module _ {Q : Type 0} (api : QueueApi Q) where
  unfoldable pub route : Task → Disposal → Scheduler → Shared Q → Option (Scheduler × Shared Q)
  unfolding enqueue_task park_task enqueue_cleanup
  route t to_queue c w =
      if is_idle c.idle_tid t.tid
      then some (record c { idle_task = some t }, w)
      else some (c, enqueue_task api t w)
  route t (to_slot r) c w = elim (park_task api r t w) [ none ↦ none | some w' ↦ some (c, w') ]
  route t terminate c w = elim (enqueue_cleanup api t w) [ none ↦ none | some w' ↦ some (c, w') ]

  -- The take of `zombie_task`, and its route.
  unfoldable pub route_zombie : Scheduler → Shared Q → Option (Scheduler × Shared Q)
  unfolding route
  route_zombie c w = elim c.zombie_task [
    | none ↦ some (c, w)
    | some (t, d) ↦ route t d (record c { zombie_task = none }) w
  ]

  unfoldable pub next_task : Bool → Scheduler → Shared Q → Option Task × (Scheduler × Shared Q)
  next_task must_switch c w =
      let (o, q) = api.dequeue w.run_queue in
      let w' = record w { run_queue = q } in
      elim o [
        | some t ↦ (some t, (c, w'))
        | none ↦
            if must_switch || c.current_task.should_terminate
            then (c.idle_task, (record c { idle_task = none }, w'))
            else (none, (c, w'))
      ]

  -- `reschedule` once the zombie was routed.
  unfoldable pub run_next : Scheduler → Shared Q → Option (Scheduler × Shared Q)
  unfolding next_task switch_to
  run_next c w =
      let (o, (c', w')) = next_task (has_park_ticket c.current_task) c w in
      elim o [
        | none ↦ some (c', w')
        | some next ↦ elim (switch_to next c') [ none ↦ none | some c'' ↦ some (c'', w') ]
      ]

  -- `reschedule`, given whether interrupts are enabled.
  unfoldable pub reschedule : Bool → Scheduler → Shared Q → Option (Scheduler × Shared Q)
  unfolding route_zombie run_next
  reschedule interrupts_enabled c w =
      if interrupts_enabled
      then none
      else elim (route_zombie c w) [ none ↦ none | some (c1, w1) ↦ run_next c1 w1 ]
