-- ===== src/Ext2/Files.antt =====
-- kernel/ext2/src/read.rs, write.rs: the bytes of files. `Reads` and `Writes` have the operations; `Runs`, `FileBytes`
-- and `FileReads` say what a read returns.
pub mod Reads
pub mod Runs
pub mod FileBytes
pub mod FileReads
pub mod Writes
