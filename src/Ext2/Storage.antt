-- ===== src/Ext2/Storage.antt =====
-- kernel/ext2/src/lib.rs, read.rs: blocks of the device and the cache of indirect blocks. `Filesystem`, `Cache`, `Pointers` and
-- `Blocks` have the operations; `Flat` is what they rely on in a device; `Hits`, `Transparent` and
-- `Coherent` are about the cache.
pub mod Filesystem
pub mod Flat
pub mod Apart
pub mod Cache
pub mod Pointers
pub mod Coherence
pub mod Hits
pub mod Transparent
pub mod Blocks
pub mod Coherent
