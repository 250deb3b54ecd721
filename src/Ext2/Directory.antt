-- ===== src/Ext2/Directory.antt =====
-- kernel/ext2/src/dir.rs, create.rs: directories. `Entries`, `Directories` and `Creation` have the operations; `EntryTrips`,
-- `Slots`, `Merging` and `Insertion` say what a block holds before and after an entry is added.
pub mod Entries
pub mod EntryTrips
pub mod Directories
pub mod Slots
pub mod Merging
pub mod Insertion
pub mod Creation
