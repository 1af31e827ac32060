-- ===== src/Kernel/Tmpfs/Directory.antt =====
-- kernel/fs/tmpfs.c: the directories, which are hash maps from names to nodes.
pub mod Entries
use petix.Prelude.{
  ℕ, Bool, true, false, List, [], ◌∷◌, Option, none, some, ◌==◌, if◌then◌else◌, ℤ, pos,
}
use petix.Libc.Str.{strcmp}
use petix.Kernel.Errno.{Errno, Ret, ok, err, enoent, eexist, enotdir}
use petix.Kernel.HashMap.{
  Bucket, empty, tombstone, full, Callbacks, HashMap, lookup, insert_value, string_value_hash,
  hashmap_init,
}
use petix.Kernel.Fs.{Result, found, failed}
use petix.Kernel.Fs.Open.{FileType, ft_dir, ft_link, ft_special, ft_regular, Inode}

-- An entry of a directory: the name, and the address of the node.
pub record DirEntry : Type 0 where
  pub name : List ℕ
  pub child : ℕ

-- `string_key_hash` and `string_key_cmp`. What `cmp` makes of a tombstone depends on the memory at
-- the address 1: `at_one` is what `strcmp` answers there.
unfoldable pub string_key : (List ℕ → ℤ) → Callbacks DirEntry
string_key at_one = record {
  hash = λ e. string_value_hash e.name;
  cmp = λ b e. compare_name b e.name;
  frees = true;
}
  where
    compare_name : Bucket DirEntry → List ℕ → ℤ
    compare_name empty q = pos 0
    compare_name tombstone q = at_one q
    compare_name (full e) q = strcmp e.name q

-- A directory: its type, its children, and the inodes of the nodes in memory by their addresses.
pub record TmpDir : Type 0 where
  pub ftype : FileType
  pub children : HashMap DirEntry
  pub inodes : ℕ → Inode

abbrev pub entry : List ℕ → DirEntry
entry name = record { name = name; child = 0 }

abbrev pub set_inode : (ℕ → Inode) → ℕ → Inode → ℕ → Inode
set_inode inodes node inode n = if n == node then inode else inodes n

-- The inode of a new node in memory that held `raw`. The size is set for a file alone, and `dev` for
-- none. The contents that the node begins with, no pages or no children, are not modelled.
abbrev pub new_inode : FileType → ℕ → Inode → Inode
new_inode ft_regular node raw = record raw { ftype = ft_regular; size = 0; inode_id = node }
new_inode ft_dir node raw = record raw { ftype = ft_dir; inode_id = node }
new_inode ft_link node raw = record raw { ftype = ft_link; inode_id = node }
new_inode ft_special node raw = record raw { ftype = ft_special; inode_id = node }

-- `tmp_getroot`: the root is made where `private_data` is NULL, at the address `node`, and its inode
-- is the result.
unfoldable pub tmp_getroot : Option (TmpDir × Inode) → ℕ → (ℕ → Inode) → TmpDir × Inode
tmp_getroot none node inodes = (
  record {
    ftype = ft_dir;
    children = hashmap_init;
    inodes = set_inode inodes node (new_inode ft_dir node (inodes node));
  },
  new_inode ft_dir node (inodes node),
)
tmp_getroot (some root) node inodes = root

module _ (at_one : List ℕ → ℤ) where
  -- `hashmap_get`, where a node is never NULL. The outer `none` is a read behind a tombstone, or no
  -- answer.
  unfoldable pub get_child : TmpDir → List ℕ → Option (Option ℕ)
  get_child dir name = elim (lookup (string_key at_one) dir.children (entry name)) [
    | none ↦ none
    | some empty ↦ some none
    | some tombstone ↦ none
    | some (full e) ↦ some (some e.child)
  ]

  -- `tmp_lookup`; `none` is a failed assertion too.
  unfoldable pub tmp_lookup : TmpDir → List ℕ → Option (Result Inode)
  tmp_lookup dir fname = elim (dir.ftype) [
    | ft_link ↦ none
    | ft_special ↦ none
    | ft_regular ↦ none
    | ft_dir ↦ elim (get_child dir fname) [
      | none ↦ none
      | some none ↦ some (failed enoent)
      | some (some node) ↦ some (found (dir.inodes node))
    ]
  ]

  -- The common part of `tmp_creat` and `tmp_mkdir`: `node` is what `kmalloc_sync` returned. It stays
  -- allocated where the name is taken.
  unfoldable pub add_child : TmpDir → List ℕ → ℕ → Inode → Option (TmpDir × Ret)
  add_child dir name node inode =
      let dir' = record dir { inodes = set_inode dir.inodes node inode } in
      elim (get_child dir name) [
        | none ↦ none
        | some (some other) ↦ some (dir', err eexist)
        | some none ↦
            elim (insert_value (string_key at_one) dir.children
              (record { name = name; child = node })) [
                | none ↦ none
                | some children ↦ some (record dir' { children = children }, ok 0)
              ]
      ]

  unfoldable pub add_entry : FileType → TmpDir → List ℕ → ℕ → Option (TmpDir × Ret)
  add_entry made dir name node = elim (dir.ftype) [
    | ft_link ↦ some (dir, err enotdir)
    | ft_special ↦ some (dir, err enotdir)
    | ft_regular ↦ some (dir, err enotdir)
    | ft_dir ↦ add_child dir name node (new_inode made node (dir.inodes node))
  ]

  unfoldable pub tmp_creat : TmpDir → List ℕ → ℕ → Option (TmpDir × Ret)
  tmp_creat = add_entry ft_regular

  unfoldable pub tmp_mkdir : TmpDir → List ℕ → ℕ → Option (TmpDir × Ret)
  tmp_mkdir = add_entry ft_dir
