-- ===== src/PhysicalMemory.antt =====
-- kernel/physical_memory/src: the allocator of physical frames over sparse regions. Addresses and
-- indices are numbers; an outer `none` stands for a panic, which an overflow, an `expect` and an index
-- out of range are.
pub mod Region
pub mod Manager
pub mod Frames
pub mod Spots
pub mod Marks
pub mod Cursor
pub mod Covering
pub mod Release
pub mod Alignment
pub mod Scan
pub mod Allocation
pub mod Granting
mod Tests
