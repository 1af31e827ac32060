-- ===== src/Kernel/FileCalls.antt =====
-- kernel/syscall.c: `sys_open` over descriptors and a file system, and the calls that pass on to the
-- operations of an open file.
pub mod Opening
mod Tests
use petix.Prelude.{
  ℕ, Bool, true, false, List, Option, none, some, ◌==◌, ◌%◌, if◌then◌else◌, ℤ, get_or, set, bit,
  not,
}
use petix.Kernel.Errno.{
  Errno, Ret, ok, err, eperm, enoent, enxio, enoexec, ebadf, echild, eagain, eacces, eexist, enodev,
  enotdir, eisdir, einval, emfile, enotty,
}
use petix.Kernel.Fd.{closed, Fds, State, set_fds, alloc_fd, release_fd, valid_fd}
use petix.Kernel.Path.{Found, missing, directory, other_file, FileSystem, sys_creat}

abbrev pub is_enoent : Errno → Bool
is_enoent enoent = true
is_enoent eperm = false
is_enoent enxio = false
is_enoent enoexec = false
is_enoent ebadf = false
is_enoent echild = false
is_enoent eagain = false
is_enoent eacces = false
is_enoent eexist = false
is_enoent enodev = false
is_enoent enotdir = false
is_enoent eisdir = false
is_enoent einval = false
is_enoent emfile = false
is_enoent enotty = false

-- O_CLOEXEC and O_CREAT are the bits 1 and 2.
abbrev pub o_cloexec : ℕ → Bool
o_cloexec flags = bit flags 1

abbrev pub o_creat : ℕ → Bool
o_creat flags = bit flags 2

-- The descriptors, the file system, and the value that a call returns.
abbrev pub Outcome : Type 0 → Type 0
Outcome S = State × S × Ret

abbrev pub mark_cloexec : Bool → ℕ → ℕ → State → State
mark_cloexec b p i s =
    if b
    then record s {
      fds =
          set_fds s.fds p (set (s.fds p) i (record (get_or (s.fds p) i closed) { cloexec = true }));
    }
    else s

-- `fs_open` on what was found is `open_inode`, which takes the flags.
module _ {S : Type 0} (fs : FileSystem S) (open_inode : Found → ℕ → S → S × Ret) where
  -- What `sys_open` finds, where it makes the file that is not there if O_CREAT asks for it. `none`
  -- is the write in front of a path that has no '/'.
  unfoldable pub find_or_create : List ℕ → ℕ → S → Option (S × Found)
  find_or_create path flags x = elim (fs.fs_lookup path x) [
    | directory inode ↦ some (x, directory inode)
    | other_file ↦ some (x, other_file)
    | missing e ↦ elim (if is_enoent e then o_creat flags else false) [
      | false ↦ some (x, missing e)
      | true ↦ elim (sys_creat fs path x) [
        | none ↦ none
        | some (x', err e') ↦ some (x', missing e')
        | some (x', ok n) ↦ some (x', fs.fs_lookup path x')
      ]
    ]
  ]

  -- The end of `sys_open` for process `p`, by what `fs_open` returned: the descriptor is given back
  -- where it failed.
  unfoldable pub after_open : ℕ → ℕ → State → S × Ret → Option (Outcome S)
  after_open p i s (x, ok n) = some (s, x, ok i)
  after_open p i s (x, err e) = elim (release_fd p i s) [
    | none ↦ none
    | some s' ↦ some (s', x, err e)
  ]

  unfoldable pub with_fd : ℕ → Found → ℕ → S → State × Ret → Option (Outcome S)
  with_fd p inode flags x (s, err e) = some (s, x, err e)
  with_fd p inode flags x (s, ok i) =
      after_open p i (mark_cloexec (o_cloexec flags) p i s) (open_inode inode flags x)

  unfoldable pub open_found : ℕ → ℕ → Found → ℕ → State → S → Option (Outcome S)
  open_found fresh p inode flags s x = with_fd p inode flags x (alloc_fd fresh p s)

  unfoldable pub sys_open : ℕ → ℕ → List ℕ → ℕ → State → S → Option (Outcome S)
  sys_open fresh p path flags s x = elim (find_or_create path flags x) [
    | none ↦ none
    | some (x', missing e) ↦ some (s, x', err e)
    | some (x', directory inode) ↦ open_found fresh p (directory inode) flags s x'
    | some (x', other_file) ↦ open_found fresh p other_file flags s x'
  ]

-- The operations of the file behind a descriptor, by its address; `none` is NULL. An operation takes
-- and returns the state of the files.
pub record FileOps (S : Type 0) : Type 0 where
  pub is_dir : ℕ → Bool
  pub read : ℕ → Option (ℕ → S → S × Ret)
  pub write : ℕ → Option (ℕ → S → S × Ret)
  pub getdent : ℕ → Option (S → S × Ret)
  pub ioctl : ℕ → Option (ℕ → S → S × Ret)
  pub mmap : ℕ → Option (ℕ → ℕ → S → S × Ret)

module _ {S : Type 0} (ops : FileOps S) where
  -- The file of an open descriptor.
  abbrev pub file_of : ℤ → Fds → Option ℕ
  file_of fd fds = elim (valid_fd fd fds) [ none ↦ none | some i ↦ (get_or fds i closed).file ]

  unfoldable pub sys_read : ℤ → ℕ → Fds → S → S × Ret
  sys_read fd count fds x = elim (file_of fd fds) [
    | none ↦ (x, err ebadf)
    | some f ↦ elim (ops.read f) [ none ↦ (x, err eperm) | some read ↦ read count x ]
  ]

  unfoldable pub sys_write : ℤ → ℕ → Fds → S → S × Ret
  sys_write fd count fds x = elim (file_of fd fds) [
    | none ↦ (x, err ebadf)
    | some f ↦ elim (ops.write f) [ none ↦ (x, err eperm) | some write ↦ write count x ]
  ]

  unfoldable pub sys_getdent : ℤ → Fds → S → S × Ret
  sys_getdent fd fds x = elim (file_of fd fds) [
    | none ↦ (x, err ebadf)
    | some f ↦
        if not (ops.is_dir f)
        then (x, err enotdir)
        else elim (ops.getdent f) [ none ↦ (x, err eperm) | some getdent ↦ getdent x ]
  ]

  unfoldable pub sys_ioctl : ℤ → ℕ → Fds → S → S × Ret
  sys_ioctl fd req fds x = elim (file_of fd fds) [
    | none ↦ (x, err ebadf)
    | some f ↦ elim (ops.ioctl f) [ none ↦ (x, err enotty) | some ioctl ↦ ioctl req x ]
  ]

  -- MAP_FAILED with its error is `err`.
  unfoldable pub sys_mmap : ℕ → ℕ → ℤ → Fds → S → S × Ret
  sys_mmap addr len fd fds x =
      if len == 0
      then (x, err einval)
      else if not (addr % 4096 == 0)
      then (x, err einval)
      else elim (file_of fd fds) [
        | none ↦ (x, err ebadf)
        | some f ↦ elim (ops.mmap f) [ none ↦ (x, err enodev) | some mmap ↦ mmap addr len x ]
      ]
