-- ===== src/Lib.antt =====
-- Muffin OS: the kernel's signal handling, physical and virtual memory managers, parking lot, scheduler,
-- virtual and device file systems, pointer checks, block devices and memory mapping call.
--
-- The kernel (kernel/boot) keeps one signal state for each process, one physical frame manager, one
-- virtual memory manager for each address space, and a parking lot for the tasks that wait. The crates
-- below it are free of machine state and are what is modelled here:
--
-- * Abi models kernel/abi/src/errno.rs and kernel/abi/src/signal.rs: error numbers and their names,
--   `Signal`, `SigAction`, `SaFlags`, `SigMaskHow` and `default_action`. A word is a natural number
--   below its power of two, and Bits has its bits: `test_bit`, complement and trailing zeros.
-- * Signal models kernel/syscall/src/signal.rs from `Disposition` on. A `SignalState` is a record with
--   the source's fields, and each method is a function of the same name that returns the new state.
--   Signal.Invariant has the well-formedness of a state, Signal.History a call type with its run, and
--   Signal.Delivery the loop `deliver_pending` of kernel/boot/src/arch/signal.rs, whose outcome is a
--   value. Its fuel is 28 rounds: each round clears one of 27 pending bits, and the last finds none.
-- * Kill models `sys_kill` and `distribute_signal` of kernel/syscall/src/signal.rs over the process
--   access of kernel/syscall/src/access.rs and kernel/syscall/src/access/process.rs. The answer is the
--   result and the signals sent, in order.
-- * PhysicalMemory models kernel/physical_memory/src/region.rs (PhysicalMemory.Region) and
--   kernel/physical_memory/src/lib.rs: the cursor and the search in PhysicalMemory.Manager,
--   `allocate_frames_impl` and `deallocate_frame` for the three page sizes in PhysicalMemory.Frames. A
--   page size is given by its number `k` of small frames. An outer `none` is a panic, also where a
--   sum of the scan does not fit `usize`. The scan of a
--   region has fuel for each of its positions and one more, as each round moves on by at least one.
-- * Park models kernel/park/src/lib.rs. In Park.Slots, `park` and `unpark` are sequences of atomic
--   steps; Park.Race interleaves them, with other users of the slot. Memory that was never written is
--   `none`, and reading it is a fault. Park.Lot has the reservation of slots as one caller sees it,
--   Park.Cells the holders of tickets and the waker.
-- * Scheduler models kernel/boot/src/mcore/mtask/scheduler: `reschedule` with its queues, slots and
--   zombie task (Scheduler.Tasks, Scheduler.Switch), given whether interrupts are on, and the sleepers of wait.rs (Scheduler.Sleepers).
--   The scan of the sleepers has fuel for each of them and one more, as each round removes or passes one.
-- * VirtualMemory models kernel/virtual_memory/src/lib.rs and kernel/virtual_memory/src/segment.rs. The
--   `BTreeSet` of segments is an ascending list. The loop of `reserve` has fuel for each segment and
--   one more, as each round passes the end of a segment.
-- * UserPointer models kernel/syscall/src/ptr.rs.
-- * BlockDevice models `read_at` (BlockDevice.Sectors) and `write_at` (BlockDevice.Writes) of
--   kernel/device/src/block/mod.rs over the memory device of kernel/device/src/block/mem.rs. The loop over
--   chunks is recursion on how many are left.
-- * Vfs models kernel/vfs/src: paths as lists of code points (Vfs.Path), mounts and `open`
--   (Vfs.Mounts), and nodes (Vfs.Nodes). A slice that ends inside a character panics. The loop of
--   `find_mount` has fuel for each character of the path, as a parent is shorter.
-- * DevFs models kernel/devfs/src: the tree of nodes and the files `Null` and `Zero` (DevFs.Nodes), the
--   operations of fs.rs (DevFs.Files), for any type of device file; the counter of handles wraps at 64 bits. Names of a path are read one by one, as
--   kernel/vfs/src/path/filenames.rs does; fuel is one more than the length of the path.
-- * FileCalls models `sys_lseek`, `sys_getcwd`, `sys_read`, `sys_write` and `sys_fsync` of
--   kernel/syscall/src/unistd.rs over the files of a process (kernel/syscall/src/access/file.rs).
-- * Mmap models `sys_mmap` of kernel/syscall/src/mman.rs, its flags (kernel/abi/src/mman.rs) and what
--   it asks of the process (kernel/syscall/src/access/mem.rs, kernel/syscall/src/access/region.rs).
--
-- * Ext2 models kernel/ext2. Ext2.Records has the records on disk: the macro of kernel/ext2/src/bytefield.rs
--   over a list of fields, and its uses for inodes, superblocks, group descriptors and the heads of
--   entries. Ext2.Storage has blocks and the cache of indirect blocks (lib.rs, read.rs), Ext2.Files reads and
--   writes of files (read.rs, write.rs), Ext2.Metadata bitmaps, inode tables and mounting (lib.rs),
--   Ext2.Directory directories and new files (dir.rs, create.rs), all in kernel/ext2/src. The file system
--   runs on any `DiskApi`; `FlatDisk` states what it relies on in a device, and Ext2.Storage.Flat shows that
--   the memory device of BlockDevice provides it. `&self` functions give back the cache, `&mut self`
--   functions the whole `MountedFs`, also after an error. The loop over the runs of a file has as much fuel
--   as there are pointers; the loops over the entries of a directory's block have one round more than it has
--   bytes. On a block that is not well formed, an entry of size 0 makes the source loop for ever, and the
--   model then runs out of fuel, which stands for not returning.
--
-- Parameters stand for the x86_64 crate: `FrameApi` for its frames, `AddrApi` for addition on
-- `VirtAddr`, `VirtAddrApi` for canonical addresses; `QueueApi` for the queue of the cordyceps crate.
-- Records named `Is...Api` state what the crates document of them. `FileSystem`, `DevFile` and
-- `FileAccess` stand for any implementation of the trait.
--
-- Memory orderings of the atomics are not modelled: the steps of a race are sequentially consistent.
-- Arithmetic that overflows panics where a theorem depends on it, as in a build with overflow checks.
-- Not modelled are the accessors of ext2's records, its permissions and flags, the block and serial device files, the raw devices, the ELF loader, the kernel
-- log, PCI, user space, and the parts of kernel/boot that act on the machine.
pub mod Base
pub mod Bits
pub mod Abi
pub mod Scheduler
pub mod Signal
pub mod BlockDevice
pub mod DevFs
pub mod Ext2
pub mod FileCalls
pub mod Kill
pub mod Mmap
pub mod PhysicalMemory
pub mod Park
pub mod UserPointer
pub mod Vfs
pub mod VirtualMemory
