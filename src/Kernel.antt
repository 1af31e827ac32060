-- ===== src/Kernel.antt =====
-- The kernel, kernel/.
pub mod Errno
pub mod Fd
pub mod Pipe
pub mod Sync
pub mod Mem
pub mod Proc
pub mod Ansi
pub mod Kmalloc
pub mod Wait
pub mod List
pub mod HashMap
pub mod Fs
pub mod Tmpfs
pub mod Tty
pub mod Path
pub mod Archive
pub mod DevFs
pub mod FileCalls
