-- ===== src/Kernel/Path/Split.antt =====
-- A path is split at its last slash.
use petix.Prelude.{
  ℕ, suc, ◌+◌, ◌≡◌, ◌≢◌, refl, ◌∙◌, ap, List, [], ◌∷◌, ◌++◌, Option, none, some, ◌==◌,
  if◌then◌else◌, take, drop, arith, length, ne→==,
}
use petix.Kernel.Errno.{Errno, Ret, err, eperm, enotdir}
use petix.Kernel.Path.{
  last_slash, split_dir_path, missing, directory, other_file, FileSystem, make_entry,
}

abbrev pub NoZero : List ℕ → Type 0
NoZero [] = Unit
NoZero (c ∷ s) = (c ≢ 0) × NoZero s

-- A name has no slash.
abbrev pub IsName : List ℕ → Type 0
IsName [] = Unit
IsName (c ∷ s) = (c ≢ 0) × (c ≢ b'/') × IsName s

last_slash-name :
    (i : ℕ) (name : List ℕ) (found : Option ℕ) → IsName name → last_slash i name found ≡ found
unfolding last_slash
last_slash-name i [] found h = refl
last_slash-name i (c ∷ name) found h =
    rw (ne→== c 0 h.0, ne→== c b'/' h.1) (last_slash-name (i + 1) name found h.2)

last_slash-joined :
    (i : ℕ) (dir name : List ℕ) (found : Option ℕ)
    → NoZero dir
    → IsName name
    → last_slash i (dir ++ b'/' ∷ name) found ≡ some (i + length dir)
unfolding last_slash
last_slash-joined i [] name found z h =
    last_slash-name (i + 1) name (some i) h ∙ ap some (omega arith)
last_slash-joined i (c ∷ dir) name found z h = rw (ne→== c 0 z.0) (
    last_slash-joined (i + 1) dir name (if c == b'/' then some i else found) z.1 h
    ∙ ap some (omega arith))

take-joined : (dir rest : List ℕ) → take (length dir) (dir ++ rest) ≡ dir
take-joined [] rest = refl
take-joined (c ∷ dir) rest = ap (λ l. c ∷ l) (take-joined dir rest)

drop-joined :
    (dir : List ℕ) (c : ℕ) (rest : List ℕ) → drop (suc (length dir)) (dir ++ c ∷ rest) ≡ rest
drop-joined [] c rest = refl
drop-joined (d ∷ dir) c rest = drop-joined dir c rest

-- A path of a directory, a slash and a name is split into these two. A path with no slash is not
-- split: the byte in front of it is overwritten.
pub split_dir_path-joined :
    (dir name : List ℕ)
    → NoZero dir
    → IsName name
    → (split_dir_path (dir ++ b'/' ∷ name) ≡ some (dir, name)) × (split_dir_path name ≡ none)
unfolding split_dir_path
split_dir_path-joined dir name z h =
    let next : 0 + length dir + 1 ≡ suc (length dir) = omega arith in
    let at : 0 + length dir ≡ length dir = omega arith in
    (
      rw
          (
            split_dir_path,
            last_slash-joined 0 dir name none z h,
            next,
            at,
            take-joined dir (b'/' ∷ name),
            drop-joined dir b'/' name,
          )
          refl,
      rw (split_dir_path, last_slash-name 0 name none h) refl,
    )

module _ {S : Type 0} (fs : FileSystem S) where
  -- `sys_creat` and `sys_mkdir` of a name in a directory do what its file system does there; where
  -- it has no such operation, or the path of the directory is another file or none, they return
  -- -EPERM, -ENOTDIR or the error and change nothing.
  pub make_entry_lem :
      (op : Option (ℕ → List ℕ → S → S × Ret)) (dir name : List ℕ) (s : S)
      → NoZero dir
      → IsName name
      → ((inode : ℕ) (make : ℕ → List ℕ → S → S × Ret)
          → fs.fs_lookup dir s ≡ directory inode
          → op ≡ some make
          → make_entry fs op (dir ++ b'/' ∷ name) s ≡ some (make inode name s))
        × ((inode : ℕ)
            → fs.fs_lookup dir s ≡ directory inode
            → op ≡ none
            → make_entry fs op (dir ++ b'/' ∷ name) s ≡ some (s, err eperm))
        × (fs.fs_lookup dir s ≡ other_file
            → make_entry fs op (dir ++ b'/' ∷ name) s ≡ some (s, err enotdir))
        × ((e : Errno)
            → fs.fs_lookup dir s ≡ missing e
            → make_entry fs op (dir ++ b'/' ∷ name) s ≡ some (s, err e))
  unfolding make_entry
  make_entry_lem op dir name s z h =
      let split = (split_dir_path-joined dir name z h).0 in
      (
        λ inode make f g. rw (make_entry, split, f, g) refl,
        λ inode f g. rw (make_entry, split, f, g) refl,
        λ f. rw (make_entry, split, f) refl,
        λ e f. rw (make_entry, split, f) refl,
      )
