-- ===== src/Scheduler/Tasks.antt =====
-- kernel/boot/src/mcore/mtask/task/mod.rs, task/queue.rs, scheduler/cleanup.rs, wait.rs: a task as the
-- scheduler sees it, the shared places that hold tasks, and the moves between them. A ticket is the index of
-- its slot in the lot `WAITING`.
use muffin.Base.{ℕ, ◌+◌, ◌≡◌, Bool, Option, none, some, List, get_elem?, set, ◌==◌, if◌then◌else◌}
use muffin.Park.Slots.{Slot, parked, returned, missed, got, park, unpark}

-- The fields of `Task` that the scheduler reads.
pub record Task : Type 0 where
  pub tid : ℕ
  pub should_terminate : Bool
  pub park_ticket : Option ℕ

-- `TaskQueue`, the queue of the cordyceps crate. `count i` is how often task `i` stands in it.
pub record QueueApi (Q : Type 0) : Type 0 where
  pub enqueue : Task → Q → Q
  pub dequeue : Q → Option Task × Q
  pub count : ℕ → Q → ℕ

-- One, if the task is task `i`.
abbrev pub is_task : ℕ → Task → ℕ
is_task i t = if t.tid == i then 1 else 0

abbrev pub is_task? : ℕ → Option Task → ℕ
is_task? i none = 0
is_task? i (some t) = is_task i t

-- It is a queue: what is put in is what comes out.
pub record IsQueueApi {Q : Type 0} (api : QueueApi Q) : Type 0 where
  pub count_enqueue :
      (i : ℕ) (t : Task) (q : Q) → api.count i (api.enqueue t q) ≡ is_task i t + api.count i q
  pub count_dequeue :
      (i : ℕ) (q : Q) → api.count i q ≡ is_task? i (api.dequeue q).0 + api.count i (api.dequeue q).1

-- The run queue, the queue of terminated tasks, the slots of `WAITING`, and `CLEANUP_UNPARK`.
pub record Shared (Q : Type 0) : Type 0 where
  pub run_queue : Q
  pub cleanup_queue : Q
  pub waiting : List (Slot Task)
  pub cleanup_unpark : Option ℕ

module _ {Q : Type 0} (api : QueueApi Q) where
  unfoldable pub enqueue_task : Task → Shared Q → Shared Q
  enqueue_task t w = record w { run_queue = api.enqueue t w.run_queue }

  -- `ticket.park(task)`, and the queue when it returns the task. A fault is an outcome of its own.
  unfoldable pub park_task : ℕ → Task → Shared Q → Option (Shared Q)
  unfolding enqueue_task park
  park_task r t w = elim (get_elem? w.waiting r) [
    | none ↦ none
    | some s ↦
        let (s', p) = park s t in
        let w' = record w { waiting = set w.waiting r s' } in
        elim p [ parked ↦ some w' | returned v ↦ some (enqueue_task v w') | _ ↦ none ]
  ]

  -- `unpark_and_enqueue`.
  unfoldable pub unpark_and_enqueue : ℕ → Shared Q → Option (Shared Q)
  unfolding enqueue_task unpark
  unpark_and_enqueue r w = elim (get_elem? w.waiting r) [
    | none ↦ none
    | some s ↦
        let (s', u) = unpark s in
        let w' = record w { waiting = set w.waiting r s' } in
        elim u [ missed ↦ some w' | got v ↦ some (enqueue_task v w') | _ ↦ none ]
  ]

  -- `TaskCleanup::enqueue`.
  unfoldable pub enqueue_cleanup : Task → Shared Q → Option (Shared Q)
  unfolding unpark_and_enqueue
  enqueue_cleanup t w =
      let w' = record w { cleanup_queue = api.enqueue t w.cleanup_queue } in
      elim w.cleanup_unpark [
        | none ↦ some w'
        | some r ↦ unpark_and_enqueue r (record w' { cleanup_unpark = none })
      ]
