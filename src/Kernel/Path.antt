-- ===== src/Kernel/Path.antt =====
-- kernel/syscall.c: `split_dir_path`, and `sys_creat` and `sys_mkdir`, which use it.
pub mod Split
mod Tests
use petix.Prelude.{
  ℕ, zero, suc, ◌+◌, Bool, true, false, List, [], ◌∷◌, Option, none, some, ◌==◌, if◌then◌else◌,
  take, drop,
}
use petix.Kernel.Errno.{Errno, Ret, ok, err, eperm, enotdir}

-- The loop from index `i`: the last '/' of the text, where `found` is the last one before.
unfoldable pub last_slash : ℕ → List ℕ → Option ℕ → Option ℕ
last_slash i [] found = found
last_slash i (c ∷ path) found =
    let rest = last_slash (i + 1) path (if c == b'/' then some i else found) in
    if c == 0 then found else rest

-- `split_dir_path` on a copy of the path: the directory and the name. `none` is the write in front
-- of a path that has no '/'.
unfoldable pub split_dir_path : List ℕ → Option (List ℕ × List ℕ)
split_dir_path path = elim (last_slash 0 path none) [
  | none ↦ none
  | some i ↦ some (take i path, drop (i + 1) path)
]

-- What `fs_lookup` finds at a path: an error, a directory by its inode, or another kind of file.
pub data Found : Type 0 where
  missing : Errno → Found
  directory : ℕ → Found
  other_file : Found

-- The file system on states `S`; `creat` and `mkdir` may be NULL.
pub record FileSystem (S : Type 0) : Type 0 where
  pub fs_lookup : List ℕ → S → Found
  pub creat : Option (ℕ → List ℕ → S → S × Ret)
  pub mkdir : Option (ℕ → List ℕ → S → S × Ret)

module _ {S : Type 0} (fs : FileSystem S) where
  -- The common body of `sys_creat` and `sys_mkdir`, with the operation that they call.
  unfoldable pub make_entry : Option (ℕ → List ℕ → S → S × Ret) → List ℕ → S → Option (S × Ret)
  make_entry op path s = elim (split_dir_path path) [
    | none ↦ none
    | some (dir, name) ↦ elim (fs.fs_lookup dir s) [
      | missing e ↦ some (s, err e)
      | other_file ↦ some (s, err enotdir)
      | directory inode ↦ elim op [
        | none ↦ some (s, err eperm)
        | some make ↦ some (make inode name s)
      ]
    ]
  ]

  unfoldable pub sys_creat : List ℕ → S → Option (S × Ret)
  sys_creat = make_entry fs.creat

  unfoldable pub sys_mkdir : List ℕ → S → Option (S × Ret)
  sys_mkdir = make_entry fs.mkdir
