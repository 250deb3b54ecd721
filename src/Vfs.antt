-- ===== src/Vfs.antt =====
-- kernel/vfs: paths, and the virtual file system that finds the mount of a path. `Path` has the operations
-- on paths, `Parents` and `Ancestors` their laws; `Mounts` the mounted file systems and `open`, `Lookup` and
-- `Opening` what these find; `Nodes` the open files, `Arcs`, `Steps` and `Unmounting` what calls keep.
pub mod Path
pub mod Parents
pub mod Ancestors
pub mod Mounts
pub mod Lookup
pub mod Opening
pub mod Nodes
pub mod Arcs
pub mod Steps
pub mod Unmounting
mod Tests
