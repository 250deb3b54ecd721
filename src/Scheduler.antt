-- ===== src/Scheduler.antt =====
-- kernel/boot/src/mcore/mtask: the scheduler of a CPU and the tasks that sleep. `Tasks` has the places that
-- hold a task, `Switch` the scheduler, `Count` and `Conservation` its laws; `Sleepers` and `Expiry` have the timed wake-ups.
pub mod Tasks
pub mod Switch
pub mod Count
pub mod Conservation
pub mod Sleepers
pub mod Expiry
mod Tests
