-- ===== src/FileCalls.antt =====
-- kernel/syscall/src/unistd.rs: the system calls on files and on the working directory. `Calls` has the calls,
-- `Seeking` and `WorkingDirectory` their laws.
pub mod Calls
pub mod Seeking
pub mod WorkingDirectory
mod Tests
