-- ===== src/Ext2.antt =====
-- kernel/ext2: the second extended file system, from the records on disk to directories.
mod Samples
mod Tests
mod RecordTests
mod MountTests
pub mod Records
pub mod Storage
pub mod Files
pub mod Metadata
pub mod Directory
