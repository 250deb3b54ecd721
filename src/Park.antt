-- ===== src/Park.antt =====
-- kernel/park/src/lib.rs: the lock-free parking lot. `Slots` has a slot with the two tickets' operations,
-- each a sequence of atomic steps; `Race` interleaves the two; `Lot` has the reservation of slots in
-- segments, with its laws in `Reservations`; `Cells` the one-shot holders of tickets.
pub mod Slots
pub mod Race
pub mod Handoff
pub mod Lot
pub mod Reservations
pub mod Cells
mod Tests
