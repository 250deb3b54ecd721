-- ===== src/DevFs.antt =====
-- kernel/devfs: the file system of device files. `Nodes` has the tree and the files, `Files` the operations;
-- `Registering` and `Closing` have their laws, and `Handles` what these need of the open files,
-- `TopPaths` what they need of paths.
pub mod Nodes
pub mod Files
pub mod TopPaths
pub mod Registering
pub mod Handles
pub mod Closing
mod Tests
