-- ===== src/Ext2/Records.antt =====
-- kernel/ext2/src/bytefield.rs, inode.rs, superblock.rs, block_group.rs: the records on disk. `Bytefield` is the macro, the records
-- are its uses; `Fields` and `RecordTrips` read back what was written.
pub mod Bytefield
pub mod Fields
pub mod InodeRecord
pub mod SuperblockRecord
pub mod SmallRecords
pub mod RecordTrips
