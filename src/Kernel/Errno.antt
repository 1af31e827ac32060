-- ===== src/Kernel/Errno.antt =====
-- include/errno.h, and the convention that a call returns a number or a negated error.
use petix.Prelude.{ℕ}

pub data Errno : Type 0 where
  eperm enoent enxio enoexec ebadf echild eagain eacces eexist enodev enotdir eisdir einval : Errno
  emfile enotty : Errno

-- A return value: `ok n` is n, and `err e` is -e.
pub data Ret : Type 0 where
  ok : ℕ → Ret
  err : Errno → Ret
