-- ===== src/Abi.antt =====
-- kernel/abi: the types and constants that the kernel shares with userspace.
pub mod Errno
pub mod ErrnoNames
pub mod Signal
mod Tests
