-- ===== src/Lib.antt =====
-- petix2, a small research operating system: its kernel and its C library.
--
-- The kernel runs processes, each with descriptors of files. A pipe is a file whose buffer two
-- processes share under a lock, waiting on its condition variables. Locks and condition variables
-- put processes to sleep and make them ready; the scheduler runs the ready ones. Pages and
-- processes come from tables. The string functions of the C library are linked into the kernel too.
--
-- Kernel/Pipe        kernel/pipe.c: `struct pipe` is the record Pipe. The loops of `pread` and
--                    `pwrite` are `drain` and `fill`, their bodies `read_turn` and `write_turn`,
--                    each one critical section. Pipe/System lets one reader and one writer take
--                    turns in any order, with `cond_wait` between two of them.
-- Kernel/Sync        kernel/sync.c: `acquire_lock` and `sem_wait` are one turn each; a caller that
--                    is blocked comes back with another turn once it runs again. `none` is a panic
--                    or a failed assertion.
-- Kernel/Mem         kernel/mem.c: the bitmap as a function from bits, the stack of free pages as
--                    a list. A word has 32 bits.
-- Kernel/Proc        kernel/proc.c: the process table as a function from slots. The fuel of each
--                    loop over it is the size of the table, which is the most rounds it makes.
-- Kernel/Fd          kernel/proc.c and kernel/syscall.c: descriptors and the reference counts of
--                    files, through close, dup2, pipe, fork, exit and exec.
-- Kernel/Kmalloc     kernel/kmalloc.c: the blocks of the heap as a list, the highest one first. A
--                    header has 24 bytes. `kmalloc`, `kfree` and `krealloc` each walk the list
--                    once, by structural recursion. A pointer that is not to a block of the list has
--                    no result, since stale headers keep their magic numbers.
-- Kernel/List        kernel/container/list.c: the growing array of items.
-- Kernel/HashMap     kernel/container/hashmap.c: the table as a list of buckets, the callbacks of
--                    `hashmap_init` as a record. The fuel of `get_bucket` is the number of buckets.
-- Kernel/Fs          kernel/fs.c: the tree of mounts by its pointers to children and siblings, where
--                    one can be a pointer to freed memory. The fuel of a loop over the components of
--                    a path is one more than its bytes.
-- Kernel/Tmpfs       kernel/fs/tmpfs.c: the pages of a file as lists of bytes; the fuel of the loops
--                    over them is one more than the bytes that are copied. Directories are hash maps
--                    with the callbacks of strings.
-- Kernel/FileCalls   kernel/syscall.c: the calls on files, where `sys_open` takes what Kernel/Fd and
--                    Kernel/Path define, and `fs_open` as a parameter.
-- Kernel/Tty         kernel/device/tty/ttylib.c: the ring of a terminal, the bytes that are echoed as a
--                    list. A turn of `petix_tty_read` is its critical section.
-- Kernel/Path        kernel/syscall.c: the split of a path, creat and mkdir over a file system, which
--                    is a parameter.
-- Kernel/Archive     kernel/tar.c and kernel/fs/tarfs.c: the lookup and the reading in an archive, over
--                    what its `read` gives. The fuel of the lookup is the members that it looks at.
-- Kernel/DevFs       kernel/fs/devfs.c: the four devices, without the pointer to the file system.
-- Kernel/Wait        kernel/syscall.c: exit, waitpid and fork on the process table, with the two
--                    critical sections of `sys_waitpid` apart.
-- Kernel/Ansi        kernel/device/tty/ansiseq.c: escape sequences, with the calls of the backend
--                    as a list.
-- Libc/Str           libc/string: strings as lists of bytes, in which the text ends before the
--                    first zero or at the end of the list.
-- Libc/Printf        libc/bits/baseprintf.c and libc/stdlib/atoi.c: output as a list of bytes. The
--                    fuel of `putuintnz` is the ten digits that 32 bits can need.
-- Libc/Stdio         libc/stdio: the buffers of streams over a device, whose laws are hypotheses.
--                    The fuel of `fread_loop` is one round more than there are bytes.
-- Prelude            numbers, lists and tests that the others share.
--
-- Numbers are unbounded where the source has `int`, `size_t` or `pid_t`, except where wrapping is
-- written out (`frame_bit`, the ring's indices, the offsets in an archive); an `int` that overflows
-- in `atoi` wraps around. A process in a system call is not interrupted
-- between two accesses of one critical section; `kmalloc` succeeds.
--
-- Not modelled: machine code and drivers, which work on ports and registers; paging;
-- the listing of an archive; `getopt`; the loader and the user programs.
pub mod Prelude
pub mod Libc
pub mod Kernel
