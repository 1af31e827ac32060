-- ===== src/Kernel/Fs/Tests.antt =====
-- A tree with a file system at "/" and one at "/dev".
use petix.Prelude.{ℕ, ◌≡◌, refl, List, [], ◌∷◌, Option, none, some, arith}
use petix.Libc.Str.{strtok_r, skip_delims, cut_token, token_from}
use petix.Kernel.Fs.{
  MountTree, null, node, tokens, tokens_from, find_child, FsInst, found, fs_mount, fs_lookup,
}
use petix.Kernel.Fs.Tree.{IsSound, sound_null, children_at, under}
use petix.Kernel.Fs.Tokens.{first_token, tokens_lem}
use petix.Kernel.Fs.Lookup.{under_mount, fs_mount-fs_lookup, fs_mount-freed}

-- A file system whose files are all the inode 7.
abbrev seven : FsInst ℕ
seven = record { getroot = found 1; root_inode = 1; lookup_all = none; lookup = λ i name. found 7 }

abbrev dev : List ℕ
dev = b'd' ∷ b'e' ∷ b'v' ∷ []

abbrev slash_dev : List ℕ
slash_dev = b'/' ∷ dev

abbrev only_root : Option (FsInst ℕ) × MountTree (FsInst ℕ)
only_root = (some seven, null)

dev-free : children_at (tokens slash_dev) only_root.1 ≡ null
unfolding children_at tokens tokens_from find_child strtok_r skip_delims cut_token token_from
dev-free = refl

fs_mount-fs_lookup_example :
    (root' : Option (FsInst ℕ) × MountTree (FsInst ℕ)) × (fs_mount slash_dev seven only_root
      ≡ some root')
    × IsSound root'.1
    × ((path : List ℕ)
        → fs_lookup root' path
          ≡ under_mount seven
              (under (tokens slash_dev) path (tokens path))
              (fs_lookup only_root path))
fs_mount-fs_lookup_example = fs_mount-fs_lookup slash_dev seven only_root sound_null dev-free

no_token : tokens (b'/' ∷ []) ≡ []
unfolding tokens tokens_from strtok_r skip_delims token_from
no_token = refl

dev_token : tokens slash_dev ≡ (dev, []) ∷ []
unfolding tokens tokens_from strtok_r skip_delims cut_token token_from
dev_token = refl

fs_mount-freed_example :
    (root' : Option (FsInst ℕ) × MountTree (FsInst ℕ)) × (fs_mount
        (b'/' ∷ [])
        seven
        (none, node dev (some seven) null null)
      ≡ some root')
    × (fs_lookup root' slash_dev ≡ none)
fs_mount-freed_example =
    fs_mount-freed (b'/' ∷ []) seven none dev (some seven) null null slash_dev (dev, []) []
      sound_null sound_null no_token dev_token

tokens_lem_example :
    (tokens_from 100 slash_dev ≡ tokens slash_dev) × (tokens slash_dev ≡ first_token slash_dev)
tokens_lem_example = tokens_lem slash_dev 100 (omega arith)
