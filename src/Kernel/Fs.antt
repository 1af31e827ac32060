-- ===== src/Kernel/Fs.antt =====
-- kernel/fs.c: opening by the kind of file, seeking, the tree of mounts and the lookup of paths.
pub mod Names
pub mod Tokens
pub mod Tree
pub mod Lookup
pub mod Open
mod Tests
use petix.Prelude.{
  ℕ, zero, suc, ◌+◌, Bool, true, false, List, [], ◌∷◌, Option, none, some, ◌==◌, if◌then◌else◌,
  replicate, length, eqb_ℤ, pos,
}
use petix.Libc.Str.{strncmp, strncpy, strtok_r, strcmp}
use petix.Kernel.Errno.{Errno, enoent}

abbrev pub file_name_len : ℕ
file_name_len = 256

-- `struct mount_tree` and what its pointers point to: `node name fs child sibling`, where `fs` is
-- there at a mount point. `freed` is a pointer to memory that was given back.
pub data MountTree (F : Type 0) : Type 0 where
  null : MountTree F
  freed : MountTree F
  node : List ℕ → Option F → MountTree F → MountTree F → MountTree F

-- A token, with the rest of the path behind it.
abbrev pub Token : Type 0
Token = List ℕ × List ℕ

-- The loop over the tokens of a path; the fuel is one more than the bytes of the path.
unfoldable pub tokens_from : ℕ → List ℕ → List Token
tokens_from zero s = []
tokens_from (suc fuel) s = elim (strtok_r (b'/' ∷ []) s) [
  | none ↦ []
  | some (token, save) ↦ (token, save) ∷ tokens_from fuel save
]

unfoldable pub tokens : List ℕ → List Token
tokens path = tokens_from (suc (length path)) path

unfoldable pub same_name : List ℕ → List ℕ → Bool
same_name a b = eqb_ℤ (strncmp a b file_name_len) (pos 0)

-- A name as a new node holds it; `kmalloc` leaves zeros or anything else there.
unfoldable pub stored : List ℕ → List ℕ
stored name = strncpy (replicate file_name_len 0) name file_name_len

-- The mount point so far, and the path that is relative to it.
abbrev pub Best : Type 0 → Type 0
Best F = Option (F × List ℕ)

module _ {F : Type 0} where
  -- The search of the children in `fs_getfs`. The outer `none` is a read of freed memory, the inner
  -- one a name that is not there.
  unfoldable pub find_child : MountTree F → List ℕ → Option (Option (Option F × MountTree F))
  find_child null i = some none
  find_child freed i = none
  find_child (node name fs child sibling) i =
      let rest = find_child sibling i in if same_name name i then some (some (fs, child)) else rest

  abbrev pub better : Option F → List ℕ → Best F → Best F
  better none rel best = best
  better (some fs) rel best = some (fs, rel)

  -- The loop of `fs_getfs` below a node with these children.
  unfoldable pub getfs_walk : MountTree F → List Token → Best F → Option (Best F)
  getfs_walk child [] best = some best
  getfs_walk child ((i, save) ∷ ts) best = elim (find_child child i) [
    | none ↦ none
    | some none ↦ some best
    | some (some (fs, child')) ↦ getfs_walk child' ts (better fs save best)
  ]

  -- `fs_getfs` from `mount_root`, by its file system and its children. The inner `none` is -ENOENT.
  unfoldable pub fs_getfs : Option F × MountTree F → List ℕ → Option (Best F)
  fs_getfs root path = getfs_walk root.1 (tokens path) (better root.0 path none)

  -- `unmount_child` frees a subtree, but its parent keeps the pointer, which is the result. `none` is
  -- a subtree that was freed before.
  unfoldable pub unmount_child : MountTree F → Option (MountTree F)
  unmount_child null = some null
  unmount_child freed = none
  unmount_child (node name fs child sibling) = elim (unmount_child child) [
    | none ↦ none
    | some _ ↦ elim (unmount_child sibling) [ none ↦ none | some _ ↦ some freed ]
  ]

  -- The loop over the children in `fs_mount` with what is done to the last one of that name: whether
  -- there was one, and the children after it.
  unfoldable pub update_last :
      (Option F × MountTree F → Option (Option F × MountTree F))
      → MountTree F
      → List ℕ
      → Option (Bool × MountTree F)
  update_last g null i = some (false, null)
  update_last g freed i = none
  update_last g (node name fs child sibling) i = elim (update_last g sibling i) [
    | none ↦ none
    | some (true, sibling') ↦ some (true, node name fs child sibling')
    | some (false, sibling') ↦
        if same_name name i
        then elim (g (fs, child)) [
          | none ↦ none
          | some (fs', child') ↦ some (true, node name fs' child' sibling')
        ]
        else some (false, node name fs child sibling')
  ]

  -- `fs_mount` below a node. `none` is a read of freed memory.
  unfoldable pub mount_at :
      List Token → F → Option F × MountTree F → Option (Option F × MountTree F)
  mount_at [] f (fs, child) = elim (unmount_child child) [
    | none ↦ none
    | some child' ↦ some (some f, child')
  ]
  mount_at ((i, save) ∷ ts) f (fs, child) = elim (update_last (mount_at ts f) child i) [
    | none ↦ none
    | some (true, child') ↦ some (fs, child')
    | some (false, child') ↦ elim (mount_at ts f (none, null)) [
      | none ↦ none
      | some (fs', below) ↦ some (fs, node (stored i) fs' below child')
    ]
  ]

  unfoldable pub fs_mount : List ℕ → F → Option F × MountTree F → Option (Option F × MountTree F)
  fs_mount targ f root = mount_at (tokens targ) f root

-- `lookup_all` or `lookup` of `struct inode_ops`, and `getroot`: an inode or an error.
pub data Result (I : Type 0) : Type 0 where
  found : I → Result I
  failed : Errno → Result I

pub record FsInst (I : Type 0) : Type 0 where
  pub getroot : Result I
  pub root_inode : I
  pub lookup_all : Option (List ℕ → Result I)
  pub lookup : I → List ℕ → Result I

abbrev pub skip_slashes : List ℕ → List ℕ
skip_slashes [] = []
skip_slashes (c ∷ s) = if c == b'/' then skip_slashes s else c ∷ s

module _ {I : Type 0} where
  -- The loop over the components of a path, from the inode of the root.
  unfoldable pub lookup_each : FsInst I → List Token → I → Result I
  lookup_each fs [] inode = found inode
  lookup_each fs ((i, save) ∷ ts) inode = elim (fs.lookup inode i) [
    | failed e ↦ failed e
    | found inode' ↦ lookup_each fs ts inode'
  ]

  -- What `fs_lookup` does at a mount point. Where there is no `lookup_all`, the error of `getroot` is
  -- not looked at; `root_inode` is what it leaves.
  unfoldable pub lookup_in : FsInst I → List ℕ → Result I
  lookup_in fs rel = elim (fs.lookup_all) [
    | some look ↦
        if eqb_ℤ (strcmp (skip_slashes rel) []) (pos 0) then fs.getroot else look (skip_slashes rel)
    | none ↦ lookup_each fs (tokens rel) fs.root_inode
  ]

  -- What `fs_lookup` does with the result of `fs_getfs`.
  unfoldable pub lookup_from : Option (Best (FsInst I)) → Option (Result I)
  lookup_from none = none
  lookup_from (some none) = some (failed enoent)
  lookup_from (some (some (fs, rel))) = some (lookup_in fs rel)

  unfoldable pub fs_lookup : Option (FsInst I) × MountTree (FsInst I) → List ℕ → Option (Result I)
  fs_lookup root path = lookup_from (fs_getfs root path)
