-- ===== src/Lib.antt =====
-- A model of the kernel of the info operating system, and what it keeps to.
--
-- The program is a kernel for one x86-64 processor. Processes communicate by messages, pipes and a
-- virtual file system; services (tty, vfs, block, mm, task) run as kernel threads. Each file below
-- names the sources that it follows; paths are from the repository's root.
--
-- - Prelude and its children: names of the libraries passed on, Boolean tests, lists as arrays
--   (Lists), circular storage (Ring), signed integers (Int), C strings as lists of
--   bytes (Bytes), bitmaps (Bits), maps from numbers (Maps), words in buffers
--   (Words).
-- - Keyboard: src/drivers/tty/keyboard.cc and include/kernel/keyboard.h. The globals of the module
--   are one record, an interrupt is a step on it (`process_scancode`, `handler`).
-- - Mm.Page: `AllocPages`, `FreePages`, `Alloc` and `Free` of src/mm/page.cc. Runs is the search, Counts
--   the number of free pages, Laws and Free the calls.
-- - Task.Ipc: src/task/ipc.cc. The queues, processes and buffers are one record; `Steps` are the
--   sequences of calls by processes that are not blocked.
-- - Task.Cfs: the arithmetic of src/task/cfs.cc, and the timer tick of src/task/timer.cc.
-- - Task.RbTree: src/task/rbtree.cc. The links of all processes are one record. Trees says which tree
--   links stand for: a tree in a context, which is a tree with a hole; Rotate, Rounds, Stops and Fixup are about the
--   repair of colours on insertion, Ways, Attach and Insert about `RbInsert`, Replace, Succeed, Lift,
--   Unlink and Erase about the links of `RbErase`, Kept and Repair about its colours; Sorting,
--   Queue, Removal and EraseQueue lift this to a sorted list.
-- - Task.RunQueue: the queue of src/task/cfs.cc and the part of `Schedule` of src/task/sched.cc that is
--   about it.
-- - Task.Lock: src/task/lock.cc. The exchange is one step; `turns` are sequences of calls by
--   processors. Task.Sem: src/task/sem.cc. A wait passes or blocks.
-- - Task.Pipe: src/task/pipe.cc. The table of pipes is a record that each call returns anew;
--   `PipeRead` is `read`, on the entry `read_pipe`, and so on. Fifo has the abstract pipe, Reads and
--   Writes prove that the calls on one pipe follow it, Table lifts this to descriptors.
-- - Vfs.Fd: `FileDescriptorTable` and the calls on it, of src/fs/vfs.cc and include/kernel/vfs.h.
-- - Vfs.File: `Read`, `Write`, `Seek` and `Close` of src/fs/vfs.cc, over the operations of a
--   mount.
-- - Vfs.Path, Vfs.Mounts: mount points, paths and registered file systems, of src/fs/vfs.cc.
-- - Ext2: src/fs/ext2/ and include/kernel/fs/ext2.h. Device is the block device, a parameter;
--   Ext2 itself and Partition super.cc, Balloc balloc.cc, Inode, BlockMap and Truncate inode.cc (and `Truncate` of
--   lseek.cc), File and Create file.cc, Dir with Calls and Lookup dir.cc, Mounted the operations of fs.cc
--   on an open file, which `Read` and `Write` of Vfs.File call (Mounted.Reads, Mounted.Writes). The state is the disk and the
--   super block in memory; an inode is the list of its bytes, which a call returns if it
--   changes it. `SetBlockNum` and `GetBlockNum` follow one path of indices through the blocks of
--   pointers, `block_path`, in place of three copies of the code.
--
-- Conventions. Unsigned words are natural numbers, with the wrap written out where the code can
-- reach it; `int` results are integers, -1 is `negsuc 0`. An out parameter is part of the result. A
-- null pointer is `none`, and a read through one an outcome `fault`. A call runs without preemption.
-- Some calls of ext2 read past the end of the buffer of a block; what is there is the field `behind` of
-- the device, of which nothing is said. A division by 0 traps in the code, which is not modelled; the theorems about
-- calls that divide by a field of the super block exclude it.
--
-- Fuel. The loops of `PipeRead` and `PipeWrite` wait on a semaphore and test again; each wait that
-- passes takes a unit, so one round more than the units is enough, and the outcome `out_of_fuel`
-- does not occur. The search of `AllocPages` has one round more than there are pages, as each round
-- starts at a later page. `ReadFile` and `WriteFile` have a round for each byte, and each round that
-- goes on handles one at least. The loops over the entries of a directory's block have as many rounds
-- as the block has bytes; an entry of length 0 keeps them in place, which is the outcome `endless`.
-- `LookupPath` has a round for each byte of the path. The loops of the run queue's tree go down or up
-- it, so that more rounds than it has processes are enough; `unfinished` does not occur.
--
-- Not modelled: the drivers of block devices and their request queue, the calls of
-- src/fs/ext2/fs.cc that make a mount, open a file or pass on a path, creation and end of
-- processes, page tables, the dispatch of messages to services; assembly, port I/O, boot, the
-- descriptor tables and the console's pixels; printing; the schedules in which a call is
-- interrupted by another one.
pub mod Prelude
pub mod Ext2
pub mod Keyboard
pub mod Mm
pub mod Task
pub mod Vfs
