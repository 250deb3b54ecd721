-- ===== src/VirtualMemory.antt =====
-- kernel/virtual_memory/src/lib.rs, segment.rs: the reservation of address ranges. `Segments` has the
-- ordered set of reserved segments, `Manager` the operations; `Overlaps`, `Order` and `FirstFit` and
-- `Reserving` their laws.
pub mod Segments
pub mod Manager
pub mod Order
pub mod Overlaps
pub mod FirstFit
pub mod Reserving
mod Tests
