-- ===== src/Ext2/Metadata.antt =====
-- kernel/ext2/src/lib.rs: bitmaps, inode tables and mounting, each followed by what is proved of it.
pub mod Allocation
pub mod Bitmaps
pub mod Scanning
pub mod Inodes
pub mod InodeTrips
pub mod Mounting
pub mod Groups
pub mod Mounts
