-- ===== src/Kernel/Fs/Open.antt =====
-- kernel/fs.c: `fs_open` by the kind of file, the table of devices, and `fs_default_lseek`.
use petix.Prelude.{
  ℕ, ◌/◌, ◌%◌, ◌^◌, Bool, List, Option, none, some, ltb, ◌==◌, if◌then◌else◌, bit, get_elem?, set,
  ℤ, pos, ◌+ℤ◌,
}
use petix.Kernel.Errno.{Ret, ok, err, enotdir, enxio, eisdir}

pub data FileType : Type 0 where
  ft_dir ft_link ft_special ft_regular : FileType

-- `struct inode`, less the bit `exec` and the pointer to its file system.
pub record Inode : Type 0 where
  pub ftype : FileType
  pub size : ℕ
  pub inode_id : ℕ
  pub dev : ℕ

-- `struct file`, where `Ops` is what `fops` points to.
pub record File (Ops : Type 0) : Type 0 where
  pub offset : ℤ
  pub size : ℤ
  pub inode : Inode
  pub private_data : ℤ
  pub fops : Ops

-- O_DIRECTORY is the bit 0.
abbrev pub is_directory_flag : ℕ → Bool
is_directory_flag flags = bit flags 0

abbrev pub major : ℕ → ℕ
major dev = (dev / 2 ^ 16) % 2 ^ 16

-- A return value with the file as it is left, a failed assertion or panic, or a read outside of
-- `devices`.
pub data Opened (Ops : Type 0) : Type 0 where
  returns : File Ops → Ret → Opened Ops
  panics : Opened Ops
  outside : Opened Ops

module _ {Ops : Type 0} (open_of : Ops → Option (Inode → File Ops → ℕ → File Ops × Ret)) where
  -- What `fs_open` does with the operations it has chosen.
  unfoldable pub open_with : Ops → Inode → File Ops → ℕ → Opened Ops
  open_with fops inode f flags =
      let f' = record f { inode = inode; offset = pos 0; fops = fops } in
      elim (open_of fops) [
        | none ↦ panics
        | some run ↦ returns (run inode f' flags).0 (run inode f' flags).1
      ]

  -- `fs_open`, by the table of devices and the `reg_ops` of the inode's file system.
  unfoldable pub fs_open : List (Option Ops) → Ops → Inode → File Ops → ℕ → Opened Ops
  fs_open devices reg_ops inode f flags = elim (inode.ftype) [
    | ft_special ↦
        if is_directory_flag flags
        then returns f (err enotdir)
        else elim (get_elem? devices (major inode.dev)) [
          | none ↦ outside
          | some none ↦ returns f (err enxio)
          | some (some fops) ↦ open_with fops inode f flags
        ]
    | ft_regular ↦
        if is_directory_flag flags then returns f (err enotdir) else open_with reg_ops inode f flags
    | ft_dir ↦
        if is_directory_flag flags then open_with reg_ops inode f flags else returns f (err eisdir)
    | ft_link ↦ panics
  ]

module _ {Ops : Type 0} where
  -- `register_device`; `none` is a failed assertion.
  unfoldable pub register_device : List (Option Ops) → ℕ → Ops → Option (List (Option Ops) × Ret)
  register_device devices major ops =
      if ltb major 256 then some (set devices major (some ops), ok 0) else none

  -- The new offset, which is also returned, or none for -EINVAL.
  unfoldable pub fs_default_lseek : File Ops → ℤ → ℕ → Option (File Ops)
  fs_default_lseek f off whence =
      if whence == 0
      then some (record f { offset = off })
      else if whence == 1
      then some (record f { offset = f.offset +ℤ off })
      else if whence == 2
      then some (record f { offset = f.size +ℤ off })
      else none
