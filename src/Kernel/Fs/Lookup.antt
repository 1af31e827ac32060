-- ===== src/Kernel/Fs/Lookup.antt =====
-- `fs_mount` against `fs_lookup`, and what a second mount over the first leaves.
use petix.Prelude.{ℕ, ◌≡◌, refl, ◌∙◌, ap, List, [], ◌∷◌, Option, none, some}
use petix.Kernel.Fs.{
  MountTree, null, freed, node, Token, Best, tokens, find_child, getfs_walk, fs_getfs,
  unmount_child, mount_at, fs_mount, FsInst, Result, lookup_in, lookup_from, fs_lookup,
}
use petix.Kernel.Fs.Tree.{
  IsSound, sound_null, sound_node, children_at, under, overlaid, mount_at-Mounted,
}

module _ {I : Type 0} where
  -- What `fs_lookup` finds, by what it found before the mount and the path under the mount point.
  abbrev pub under_mount : FsInst I → Option (List ℕ) → Option (Result I) → Option (Result I)
  under_mount f none before = before
  under_mount f (some rel) before = some (lookup_in f rel)

  lookup-overlaid :
      (f : FsInst I) (u : Option (List ℕ)) (g : Option (Best (FsInst I)))
      → lookup_from (overlaid f u g) ≡ under_mount f u (lookup_from g)
  unfolding lookup_from
  lookup-overlaid f none g = refl
  lookup-overlaid f (some rel) g = refl

  -- `fs_mount` on a target below which nothing is mounted, in a tree in order, reads no freed memory
  -- and keeps the tree in order. After it `fs_lookup` asks the new file system for every path that
  -- goes through the target, with the rest of the path behind the target, and answers every other
  -- path as before.
  pub fs_mount-fs_lookup :
      (targ : List ℕ) (f : FsInst I) (root : Option (FsInst I) × MountTree (FsInst I))
      → IsSound root.1
      → children_at (tokens targ) root.1 ≡ null
      → (root' : Option (FsInst I) × MountTree (FsInst I)) × (fs_mount targ f root ≡ some root')
        × IsSound root'.1
        × ((path : List ℕ)
            → fs_lookup root' path
              ≡ under_mount f (under (tokens targ) path (tokens path)) (fs_lookup root path))
  unfolding fs_mount fs_lookup fs_getfs
  fs_mount-fs_lookup targ f root sound leaf =
      let (root', e, m) = mount_at-Mounted (tokens targ) f root sound leaf in
      (
        root',
        e,
        m.sound,
        λ path.
            ap lookup_from (m.finds path (tokens path) none)
            ∙ lookup-overlaid f (under (tokens targ) path (tokens path)) (fs_getfs root path),
      )

  unmount_sound :
      (t : MountTree (FsInst I))
      → IsSound t
      → (t' : MountTree (FsInst I)) × (unmount_child t ≡ some t')
  unfolding unmount_child
  unmount_sound null sound_null = (null, refl)
  unmount_sound freed sound = elim sound [ ]
  unmount_sound (node name fs child sibling) (sound_node fresh c s) =
      let (c', ec) = unmount_sound child c in
      let (s', es) = unmount_sound sibling s in (freed, rw (unmount_child, ec, es) refl)

  -- `fs_mount` on "/" where something is mounted below frees the nodes below and keeps the pointer
  -- to them: `fs_lookup` of every path with a component reads freed memory from then on.
  pub fs_mount-freed :
      (targ : List ℕ) (f : FsInst I) (fs : Option (FsInst I)) (name : List ℕ)
      (at : Option (FsInst I)) (child sibling : MountTree (FsInst I)) (path : List ℕ) (t : Token)
      (ts : List Token)
      → IsSound child
      → IsSound sibling
      → tokens targ ≡ []
      → tokens path ≡ t ∷ ts
      → (root' : Option (FsInst I) × MountTree (FsInst I)) × (fs_mount targ f
            (fs, node name at child sibling)
          ≡ some root')
        × (fs_lookup root' path ≡ none)
  unfolding fs_mount mount_at unmount_child fs_lookup lookup_from fs_getfs getfs_walk find_child
  fs_mount-freed targ f fs name at child sibling path t ts sound_c sound_s top some_token =
      let (c, ec) = unmount_sound child sound_c in
      let (s, es) = unmount_sound sibling sound_s in
      ((some f, freed), rw (top, mount_at, unmount_child, ec, es) refl, rw some_token refl)
