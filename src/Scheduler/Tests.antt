-- ===== src/Scheduler/Tests.antt =====
-- A CPU that parks a task, and sleepers whose deadlines pass, at concrete states.
use muffin.Base.{ℕ, ◌+◌, ◌≡◌, refl, true, false, Option, none, some, List, [], ◌∷◌, ◌++◌, arith}
use muffin.Park.Slots.{reserved, occupied, park, park_step}
use muffin.Scheduler.Tasks.{Task, QueueApi, IsQueueApi, is_task, is_task?, Shared, park_task}
use muffin.Scheduler.Switch.{
  to_slot, Scheduler, dispose, route, route_zombie, next_task, switch_to, run_next, reschedule,
}
use muffin.Scheduler.Conservation.{Conserves, reschedule-Conserves}
use muffin.Scheduler.Sleepers.{
  Sleeper, last_of, without_last, swap_remove, wake_from, wake_expired_sleepers,
}
use muffin.Scheduler.Expiry.{WakesIf, wake_expired_sleepers-Wakes}

-- A queue as a list, its first entry at the head.
abbrev count_list : ℕ → List Task → ℕ
count_list i [] = 0
count_list i (t ∷ ts) = is_task i t + count_list i ts

abbrev take_first : List Task → Option Task × List Task
take_first [] = (none, [])
take_first (t ∷ ts) = (some t, ts)

abbrev fifo : QueueApi (List Task)
fifo = record { enqueue = λ t q. q ++ (t ∷ []); dequeue = take_first; count = count_list }

count-append :
    (i : ℕ) (t : Task) (q : List Task) → count_list i (q ++ (t ∷ [])) ≡ is_task i t + count_list i q
count-append i t [] = omega arith
count-append i t (x ∷ q) = omega (arith, count-append i t q)

count-take_first :
    (i : ℕ) (q : List Task)
    → count_list i q ≡ is_task? i (take_first q).0 + count_list i (take_first q).1
count-take_first i [] = refl
count-take_first i (t ∷ q) = refl

fifo-IsQueueApi : IsQueueApi fifo
fifo-IsQueueApi = record { count_enqueue = count-append; count_dequeue = count-take_first }

abbrev task : ℕ → Option ℕ → Task
task i ticket = record { tid = i; should_terminate = false; park_ticket = ticket }

-- Task 1 runs and holds a ticket for slot 0; task 2 was switched away from; task 0 is the idle task.
abbrev cpu : Scheduler
cpu = record {
  current_task = task 1 (some 0);
  idle_task = some (task 0 none);
  idle_tid = some 0;
  zombie_task = some (task 2 none, to_slot 1);
}

abbrev shared : Shared (List Task)
shared = record {
  run_queue = [];
  cleanup_queue = [];
  waiting =
      record { state = reserved; value = none } ∷ record { state = reserved; value = none } ∷ [];
  cleanup_unpark = none;
}

-- Task 2 is parked, and the idle task runs in place of task 1.
cpu_reschedules :
    reschedule fifo false cpu shared
    ≡ some (
      record cpu {
        current_task = task 0 none;
        idle_task = none;
        zombie_task = some (task 1 none, to_slot 0);
      },
      record shared {
        waiting =
            record { state = reserved; value = none }
            ∷ record { state = occupied; value = some (task 2 none) }
            ∷ [];
      },
    )
unfolding reschedule run_next route_zombie route next_task switch_to dispose park_task park
    park_step
cpu_reschedules = refl

reschedule-Conserves_example :
    Conserves fifo fifo-IsQueueApi cpu shared (reschedule fifo false cpu shared)
reschedule-Conserves_example = reschedule-Conserves fifo fifo-IsQueueApi cpu shared refl

abbrev sleepers : List Sleeper
sleepers =
    record { deadline_ns = 5; waker = 1 }
    ∷ record { deadline_ns = 50; waker = 2 }
    ∷ record { deadline_ns = 7; waker = 3 }
    ∷ []

sleepers_wake :
    wake_expired_sleepers true (some 10) sleepers
    ≡ some (1 ∷ 3 ∷ [], record { deadline_ns = 50; waker = 2 } ∷ [])
unfolding wake_expired_sleepers wake_from swap_remove last_of without_last
sleepers_wake = refl

wake_expired_sleepers-Wakes_example :
    WakesIf true (some 10) sleepers (wake_expired_sleepers true (some 10) sleepers)
wake_expired_sleepers-Wakes_example = wake_expired_sleepers-Wakes true (some 10) sleepers
