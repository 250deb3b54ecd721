-- ===== src/BlockDevice.antt =====
-- kernel/device/src/block/mod.rs, mem.rs: block devices. `Sectors` has the trait's `read_at` and the memory
-- device, `Reading` what a read returns; `Writes` has `write_at`, `Writing` what a write leaves.
pub mod Sectors
pub mod Reading
pub mod Within
pub mod Writes
pub mod Splices
pub mod Pieces
pub mod Writing
mod Tests
