-- ===== src/Lib.antt =====
-- A model of parts of the kernel, each the code of one file or two, with the theorems that make it
-- correct.
--
--   Base       names of the library, Boolean tests, lists, integers and bits over the native numbers
--   Errno      src/misc/errno.c: the error numbers, their table, and the results of fallible calls
--   Pipe       src/ipc/pipe.c: the ring of bytes between readers and writers
--   FdTable    src/fs/fd_table.c, with file_get and file_put of src/fs/file.c
--   Vma        src/mm/vma.c: the ordered list of the memory areas of a process
--   HashTable  src/misc/hashtable.c and hash_ptr of include/misc/hashtable.h
--   Bcache     src/mm/bcache.c: the cache of disk blocks
--   Icache     src/fs/inode.c: the inodes in memory, over HashTable
--   Dentry     src/fs/dentry.c: the directory entries in memory, over HashTable and Icache
--   Virtq      src/hal/virtio/virtq.c: the queue of requests to a device
--   Pagetable  src/mm/pagetable.c: the page tables of Sv39
--   Bitmap     include/misc/bitmap.h: the bits of an array of bytes
--   RadixTree  src/misc/radix_tree.c: a tree over the two-bit digits of a key
--   OpenFile   src/fs/file.c: reading, writing and seeking in an open file
--   Sched      src/task/sched.c and src/sync/wait.c: the run queue, a wait queue, the current process
--   Str        src/misc/string.c over a byte memory
--
-- A function of the model has the name of the C function. The state of a part is a record with the
-- fields of the C struct, and an operation takes it and returns it; an error number is `err`, NULL is
-- `none`. A module under a part holds what is proved, and Tests runs it at concrete states.
--
-- Locks: a function that holds a lock is one step, also where bcache.c gives up the lock for the
-- device and inode_get gives it up to allocate. The lock of an inode is a flag, since inode_truncate
-- takes it twice, and so is the lock of a buffer of Bcache, which a caller keeps from bread to brelse;
-- a call that waits for such a lock for ever returns `none`. Where a process sleeps inside a call the call is
-- cut: pipe_read and pipe_write run to their return or to their next sleep, and the orderings of the
-- calls of several processes are lists of such steps (Pipe/Order). The scheduler is the one of a
-- board with one CPU, and each of its functions runs with interrupts off or under a lock.
--
-- Memory: whether an allocation succeeds is a Boolean argument of the operation, or a list of them
-- in the order of the calls. That the object itself is freed is a flag that the operation returns.
--
-- Machine numbers: where a C value can wrap around, the wrap-around is written out (the counts of
-- the hash table and the descriptor table, the hash, the reference counts, the sum in vma_create,
-- the cast of a size to int in the pipe, file positions). Addresses in Str do not wrap.
--
-- Parameters: the operations of a file system are arguments of Icache (which of them there are and
-- what they answer in the call at hand) and of OpenFile, with the hypothesis that a
-- transfer answers the number of bytes moved and leaves the position that much further on.
--
-- The device under Bcache is a map from blocks to contents with a sequence that says which transfers
-- fail and what they then leave; where a theorem needs that none fails it says so.
--
-- Fuel: the loops of Str that look for a terminating zero take the number of rounds as an argument.
-- The recursions of RadixTree take the number of digits that are left, 32 at the root; going deeper
-- is an outcome of its own. The loop of virtq_get_buf takes
-- the number of rounds, and ends within the number of descriptors of the chain. All other loops are
-- recursions over what they walk along.
--
-- Not modelled: the release and the copies of page tables, traps, devices, start-up, output, the file systems and the system
-- calls, whose state is hardware or a disk; context_switch, which is assembly; the allocators.
pub mod Base
pub mod Bitmap
pub mod Dentry
pub mod Errno
pub mod Pipe
pub mod FdTable
pub mod Virtq
pub mod Vma
pub mod Pagetable
pub mod Bcache
pub mod HashTable
pub mod Icache
pub mod OpenFile
pub mod RadixTree
pub mod Sched
pub mod Str
