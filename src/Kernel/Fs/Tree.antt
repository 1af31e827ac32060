-- ===== src/Kernel/Fs/Tree.antt =====
-- The tree of mounts: what `fs_mount` makes of it, by what `fs_getfs` finds there.
use petix.Prelude.{
  ℕ, ◌≡◌, refl, ◌∙◌, sym, ap, subst, some_inj, ◌⊎◌, Bool, true, false, List, [], ◌∷◌, Option, none,
  some, inl, inr, Bool-cases, if◌then◌else◌,
}
use petix.Kernel.Fs.{
  MountTree, null, freed, node, Token, Best, better, same_name, stored, find_child, getfs_walk,
  unmount_child, update_last, mount_at,
}
use petix.Kernel.Fs.Names.{
  same_name-stored, same_name-congr, same_name_symm, same_name-left, known-same_name,
}

if_if {ℓ} :
    {A : Type ℓ} (b : Bool) (x y z : A)
    → (if b then x else z) ≡ (if b then x else (if b then y else z))
if_if true x y z = refl
if_if false x y z = refl

-- The file system of a node and its children.
abbrev pub Node : Type 0 → Type 0
Node F = Option F × MountTree F

-- The path that is relative to the node at the end of a path, where it is under it.
unfoldable pub under : List Token → List ℕ → List Token → Option (List ℕ)
under [] rel ts' = some rel
under ((i, save) ∷ ts) rel [] = none
under ((i, save) ∷ ts) rel ((j, save') ∷ ts') =
    let rest = under ts save' ts' in if same_name i j then rest else none

module _ {F : Type 0} where
  -- A tree without freed nodes, in which siblings have different names.
  pub data IsSound : MountTree F → Type 0 where
    sound_null : IsSound null
    sound_node :
        {name : List ℕ} {fs : Option F} {child sibling : MountTree F}
        → find_child sibling name ≡ some none
        → IsSound child
        → IsSound sibling
        → IsSound (node name fs child sibling)

  -- The children at the end of a path, where there is such a node.
  unfoldable pub children_at : List Token → MountTree F → MountTree F
  children_at [] child = child
  children_at ((i, save) ∷ ts) child = elim (find_child child i) [
    | none ↦ null
    | some none ↦ null
    | some (some (fs, child')) ↦ children_at ts child'
  ]

  find-congr :
      (t : MountTree F) (i j : List ℕ) → same_name i j ≡ true → find_child t i ≡ find_child t j
  unfolding find_child
  find-congr null i j h = refl
  find-congr freed i j h = refl
  find-congr (node name fs child sibling) i j h =
      rw (same_name-congr name i j h, find-congr sibling i j h) refl

  -- What the loop over the children comes to, by what is found there.
  data Updated (g : Node F → Option (Node F)) (t : MountTree F) (i : List ℕ) : Type 0 where
    no_child : find_child t i ≡ some none → update_last g t i ≡ some (false, t) → Updated g t i
    changed :
        (n n' : Node F) (t' : MountTree F)
        → find_child t i ≡ some (some n)
        → IsSound n.1
        → g n ≡ some n'
        → update_last g t i ≡ some (true, t')
        → (IsSound n'.1 → IsSound t')
        → ((j : List ℕ)
            → find_child t' j ≡ (if same_name i j then some (some n') else find_child t j))
        → Updated g t i

  update-absent :
      (g : Node F → Option (Node F)) (t : MountTree F) (i : List ℕ)
      → IsSound t
      → find_child t i ≡ some none
      → update_last g t i ≡ some (false, t)
  unfolding find_child update_last
  update-absent g null i sound_null f = refl
  update-absent g freed i sound f = elim sound [ ]
  update-absent g (node name fs child sibling) i (sound_node fresh c s) f =
      elim (Bool-cases (same_name name i)) [
        | inl y ↦ absurd (
            let p : find_child (node name fs child sibling) i ≡ some (some (fs, child)) =
              rw y refl in
            cc)
        | inr z ↦
            let p : find_child (node name fs child sibling) i ≡ find_child sibling i = rw z refl in
            rw (update-absent g sibling i s (sym p ∙ f), z) refl
      ]

  update-Updated :
      (g : Node F → Option (Node F)) (t : MountTree F) (i : List ℕ)
      → ((n : Node F)
          → find_child t i ≡ some (some n)
          → IsSound n.1
          → (n' : Node F) × (g n ≡ some n'))
      → IsSound t
      → Updated g t i
  unfolding find_child update_last
  update-Updated g null i def sound_null = no_child refl refl
  update-Updated g freed i def sound = elim sound [ ]
  update-Updated g (node name fs child sibling) i def (sound_node fresh c s) =
      elim (Bool-cases (same_name name i)) [
        | inl y ↦
            let (n', e) = def (fs, child) (rw y refl) c in
            changed (fs, child) n' (node name n'.0 n'.1 sibling) (rw y refl) c e
              (rw (update-absent g sibling i s (sym (find-congr sibling name i y) ∙ fresh), y, e)
                refl)
              (λ c'. sound_node fresh c' s)
              (λ j. rw (same_name-left name i j y) (
                if_if (same_name i j) (some (some n')) (some (some (fs, child)))
                  (find_child sibling j)))
        | inr z ↦ elim (update-Updated g sibling i (λ n f. def n (rw z f)) s) [
          | no_child f u ↦ no_child (rw z f) (rw (u, z) refl)
          | changed n n' t' f c' e u k f' ↦
              changed n n' (node name fs child t') (rw z f) c' e (rw u refl)
                (λ c''. sound_node (f' name ∙ rw (same_name_symm i name, z) fresh) c (k c''))
                (λ j. elim (Bool-cases (same_name i j)) [
                  | inl y' ↦ rw (sym (same_name-congr name i j y'), z, f' j, y') refl
                  | inr z' ↦ rw (f' j, z') refl
                ])
        ]
      ]

  abbrev pub visit : Node F → List ℕ → List Token → Best F → Option (Best F)
  visit n rel ts best = getfs_walk n.1 ts (better n.0 rel best)

  -- What a walk finds after the mount, where the node had no children.
  abbrev pub overlaid : F → Option (List ℕ) → Option (Best F) → Option (Best F)
  overlaid f none before = before
  overlaid f (some rel) before = some (some (f, rel))

  pub record Mounted (ts : List Token) (f : F) (n n' : Node F) : Type 0 where
    pub sound : IsSound n'.1
    pub finds :
        (rel : List ℕ) (ts' : List Token) (best : Best F)
        → visit n' rel ts' best ≡ overlaid f (under ts rel ts') (visit n rel ts' best)

  find-IsSound :
      (t : MountTree F) (i : List ℕ)
      → IsSound t
      → (find_child t i ≡ some none)
        ⊎ ((n : Node F) × (find_child t i ≡ some (some n)) × IsSound n.1)
  unfolding find_child
  find-IsSound null i sound_null = inl refl
  find-IsSound freed i sound = elim sound [ ]
  find-IsSound (node name fs child sibling) i (sound_node fresh c s) =
      elim (Bool-cases (same_name name i)) [
        | inl y ↦ rw y (inr ((fs, child), refl, c))
        | inr z ↦ rw z (find-IsSound sibling i s)
      ]

  walk_null : (ts : List Token) (best : Best F) → getfs_walk null ts best ≡ some best
  unfolding getfs_walk find_child
  walk_null [] best = refl
  walk_null (t ∷ ts) best = refl

  children_null : (ts : List Token) → children_at ts null ≡ null
  unfolding children_at find_child
  children_null [] = refl
  children_null (t ∷ ts) = refl

  -- A walk by what the first search finds.
  walk-step :
      (t : MountTree F) (j save : List ℕ) (ts : List Token) (best : Best F) (n : Node F)
      → find_child t j ≡ some (some n)
      → getfs_walk t ((j, save) ∷ ts) best ≡ visit n save ts best
  unfolding getfs_walk
  walk-step t j save ts best n h = rw (getfs_walk, h) refl

  walk-miss :
      (t : MountTree F) (j save : List ℕ) (ts : List Token) (best : Best F)
      → find_child t j ≡ some none
      → getfs_walk t ((j, save) ∷ ts) best ≡ some best
  unfolding getfs_walk
  walk-miss t j save ts best h = rw (getfs_walk, h) refl

  walk-same :
      (t t' : MountTree F) (j save : List ℕ) (ts : List Token) (best : Best F)
      → find_child t' j ≡ find_child t j
      → getfs_walk t' ((j, save) ∷ ts) best ≡ getfs_walk t ((j, save) ∷ ts) best
  unfolding getfs_walk
  walk-same t t' j save ts best h = rw (getfs_walk, h) refl

  -- Walks in a tree that differs from another in the child of one name only.
  walk-graft :
      (ts : List Token) (f : F) (i save : List ℕ) (fs : Option F) (t t' : MountTree F) (n2 : Node F)
      → ((j : List ℕ)
          → find_child t' j ≡ (if same_name i j then some (some n2) else find_child t j))
      → ((j s : List ℕ) (ts' : List Token) (best : Best F)
          → same_name i j ≡ true
          → visit n2 s ts' best ≡ overlaid f (under ts s ts') (getfs_walk t ((j, s) ∷ ts') best))
      → (rel : List ℕ) (ts' : List Token) (best : Best F)
      → visit (fs, t') rel ts' best
        ≡ overlaid f (under ((i, save) ∷ ts) rel ts') (visit (fs, t) rel ts' best)
  unfolding under getfs_walk
  walk-graft ts f i save fs t t' n2 children below rel [] best = refl
  walk-graft ts f i save fs t t' n2 children below rel ((j, s) ∷ ts') best =
      elim (Bool-cases (same_name i j)) [
        | inl y ↦
            walk-step t' j s ts' (better fs rel best) n2 (rw (children j, y) refl)
            ∙ rw y (below j s ts' (better fs rel best) y)
        | inr z ↦
            let same : find_child t' j ≡ find_child t j = children j ∙ rw z refl in
            rw z (walk-same t t' j s ts' (better fs rel best) same)
      ]

  new-child :
      (t below : MountTree F) (i j : List ℕ) (fs : Option F)
      → find_child (node (stored i) fs below t) j
        ≡ (if same_name i j then some (some (fs, below)) else find_child t j)
  unfolding find_child
  new-child t below i j fs = rw (same_name-stored i j) refl

  -- The case of a name that is new below its parent.
  mount-new :
      (ts : List Token) (f : F) (i save : List ℕ) (fs : Option F) (t : MountTree F) (n2 : Node F)
      → IsSound t
      → find_child t i ≡ some none
      → Mounted ts f (none, null) n2
      → Mounted ((i, save) ∷ ts) f (fs, t) (fs, node (stored i) n2.0 n2.1 t)
  mount-new ts f i save fs t n2 sound absent m = record {
    sound =
        sound_node
          (find-congr t (stored i) i (same_name-stored i i ∙ known-same_name i i refl) ∙ absent)
          m.sound sound;
    finds =
        walk-graft ts f i save fs t (node (stored i) n2.0 n2.1 t) n2
          (λ j. new-child t n2.1 i j n2.0)
          (λ j s ts' best y.
            m.finds s ts' best
            ∙ ap (overlaid f (under ts s ts')) (
                walk_null ts' best
                ∙ sym (walk-miss t j s ts' best (sym (find-congr t i j y) ∙ absent))));
  }

  -- The case of a child that is there.
  mount-below :
      (ts : List Token) (f : F) (i save : List ℕ) (fs : Option F) (t t' : MountTree F)
      (n n2 : Node F)
      → IsSound t'
      → find_child t i ≡ some (some n)
      → ((j : List ℕ)
          → find_child t' j ≡ (if same_name i j then some (some n2) else find_child t j))
      → Mounted ts f n n2
      → Mounted ((i, save) ∷ ts) f (fs, t) (fs, t')
  mount-below ts f i save fs t t' n n2 sound there children m = record {
    sound = sound;
    finds = walk-graft ts f i save fs t t' n2 children (λ j s ts' best y.
        m.finds s ts' best
        ∙ ap (overlaid f (under ts s ts'))
            (sym (walk-step t j s ts' best n (sym (find-congr t i j y) ∙ there))));
  }

  children-step :
      (ts : List Token) (i save : List ℕ) (t : MountTree F) (n : Node F)
      → find_child t i ≡ some (some n)
      → children_at ((i, save) ∷ ts) t ≡ children_at ts n.1
  unfolding children_at
  children-step ts i save t n h = rw (children_at, h) refl

  -- `fs_mount` at a node without children reads no freed memory, and what walks find after it.
  pub mount_at-Mounted :
      (ts : List Token) (f : F) (n : Node F)
      → IsSound n.1
      → children_at ts n.1 ≡ null
      → (n' : Node F) × (mount_at ts f n ≡ some n') × Mounted ts f n n'
  unfolding mount_at unmount_child children_at under
  mount_at-Mounted [] f (fs, child) sound leaf = (
    (some f, null),
    rw leaf refl,
    record { sound = sound_null; finds = λ rel ts' best. walk_null ts' (some (f, rel)) },
  )
  mount_at-Mounted ((i, save) ∷ ts) f (fs, child) sound leaf =
      elim (update-Updated (mount_at ts f) child i
        (λ n h s.
          let r = mount_at-Mounted ts f n s (sym (children-step ts i save child n h) ∙ leaf) in
          (r.0, r.1))
        sound) [
          | no_child absent u ↦
              let (n2, e, m) = mount_at-Mounted ts f (none, null) sound_null (children_null ts) in
              (
                (fs, node (stored i) n2.0 n2.1 child),
                rw (mount_at, u, e) refl,
                mount-new ts f i save fs child n2 sound absent m,
              )
          | changed n n' t' there s e u keeps children ↦
              let (n2, e2, m) =
                mount_at-Mounted ts f n s (sym (children-step ts i save child n there) ∙ leaf) in
              let m' = subst (Mounted ts f n) (some_inj (sym e2 ∙ e)) m in
              (
                (fs, t'),
                rw (mount_at, u) refl,
                mount-below ts f i save fs child t' n n' (keeps m'.sound) there children m',
              )
        ]
