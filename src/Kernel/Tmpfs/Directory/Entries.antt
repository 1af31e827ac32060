-- ===== src/Kernel/Tmpfs/Directory/Entries.antt =====
-- `tmp_creat` and `tmp_mkdir` against `tmp_lookup`.
use petix.Prelude.{
  ℕ, ◌+◌, ◌*◌, ◌%◌, ◌^◌, ◌≡◌, ◌≢◌, refl, ◌∙◌, sym, ap, Bool, true, false, List, [], ◌∷◌, Option,
  none, some, ◌==◌, if◌then◌else◌, ℤ, pos, negsuc, eqb_ℤ, arith, inl, inr, Bool-cases, ne→==, eq→==,
}
use petix.Libc.Str.{strcmp}
use petix.Libc.Str.Compare.{cstr, strcmp_lem}
use petix.Kernel.Errno.{ok, enoent}
use petix.Kernel.HashMap.{
  Bucket, empty, tombstone, full, HashMap, lookup, insert_value, string_value_hash,
  string_hash_from, signed_char,
}
use petix.Kernel.HashMap.Walk.{matches}
use petix.Kernel.HashMap.Table.{IsLawful, IsTable}
use petix.Kernel.HashMap.Refines.{insert_value-IsTable, table-lookup}
use petix.Kernel.Fs.{Result, found, failed}
use petix.Kernel.Fs.Open.{FileType, ft_dir, Inode}
use petix.Kernel.Tmpfs.Directory.{
  DirEntry, string_key, TmpDir, entry, get_child, tmp_lookup, set_inode, new_inode, add_child,
  add_entry,
}

eqb_ℤ-zero : (z : ℤ) → eqb_ℤ z (pos 0) ≡ true → z ≡ pos 0
eqb_ℤ-zero (pos n) h = ground arith
eqb_ℤ-zero (negsuc n) h = ground arith

hash-step :
    (h c : ℕ) (s : List ℕ)
    → (c == 0) ≡ false
    → string_hash_from h (c ∷ s) ≡ string_hash_from ((7 * h + signed_char c) % 2 ^ 32) s
unfolding string_hash_from
hash-step h c s n = rw n refl

cstr-step : (c : ℕ) (s : List ℕ) → (c == 0) ≡ false → cstr (c ∷ s) ≡ c ∷ cstr s
cstr-step c s n = rw n refl

-- The hash of a string is that of its text.
hash-cstr : (h : ℕ) (s : List ℕ) → string_hash_from h s ≡ string_hash_from h (cstr s)
unfolding string_hash_from
hash-cstr h [] = refl
hash-cstr h (c ∷ s) = elim (Bool-cases (c == 0)) [
  | inl z ↦ rw z refl
  | inr n ↦
      hash-step h c s n
      ∙ hash-cstr ((7 * h + signed_char c) % 2 ^ 32) s
      ∙ sym (hash-step h c (cstr s) n)
      ∙ ap (string_hash_from h) (sym (cstr-step c s n))
]

abbrev pub text_of : DirEntry → List ℕ
text_of e = cstr e.name

-- Two names are the same text.
abbrev pub same_text : List ℕ → List ℕ → Bool
same_text a b = eqb_ℤ (strcmp a b) (pos 0)

module _ (at_one : List ℕ → ℤ) (other : (q : List ℕ) → eqb_ℤ (at_one q) (pos 0) ≡ false) where
  pub string_key-IsLawful : IsLawful (string_key at_one) text_of
  unfolding string_key string_value_hash
  string_key-IsLawful = record {
    hash_key = λ a b k. hash-cstr 0 a.name ∙ ap (string_hash_from 0) k ∙ sym (hash-cstr 0 b.name);
    hit = λ a b h. (strcmp_lem a.name b.name).0.0 (eqb_ℤ-zero (strcmp a.name b.name) h);
    same = λ a b k. rw ((strcmp_lem a.name b.name).0.1 k) refl;
    stone = λ b. other b.name;
  }

  -- What `tmp_lookup` says of a bucket.
  abbrev said : (ℕ → Inode) → Bucket DirEntry → Option (Result Inode)
  said inodes empty = some (failed enoent)
  said inodes tombstone = none
  said inodes (full e) = some (found (inodes e.child))

  child-lookup :
      (dir : TmpDir) (q : List ℕ) (b : Bucket DirEntry)
      → dir.ftype ≡ ft_dir
      → lookup (string_key at_one) dir.children (entry q) ≡ some b
      → tmp_lookup at_one dir q ≡ said dir.inodes b
  unfolding tmp_lookup get_child
  child-lookup dir q empty d h = rw (tmp_lookup, get_child, d, h) refl
  child-lookup dir q tombstone d h = rw (tmp_lookup, get_child, d, h) refl
  child-lookup dir q (full e) d h = rw (tmp_lookup, get_child, d, h) refl

  free-name :
      (dir : TmpDir) (name : List ℕ)
      → dir.ftype ≡ ft_dir
      → IsTable (string_key at_one) text_of dir.children
      → tmp_lookup at_one dir name ≡ some (failed enoent)
      → lookup (string_key at_one) dir.children (entry name) ≡ some empty
  free-name dir name d t h =
      elim (table-lookup (string_key at_one) text_of string_key-IsLawful dir.children (entry name)
        t) [
          | inl e ↦ e
          | inr (a, e) ↦ absurd (
              let p : some (failed enoent) ≡ some (found (dir.inodes a.child)) =
                sym h ∙ child-lookup dir name (full a) d e in
              cc)
        ]

  run-add_entry :
      (made : FileType) (dir : TmpDir) (name : List ℕ) (node : ℕ) (children : HashMap DirEntry)
      → dir.ftype ≡ ft_dir
      → lookup (string_key at_one) dir.children (entry name) ≡ some empty
      → insert_value (string_key at_one) dir.children (record { name = name; child = node })
        ≡ some children
      → add_entry at_one made dir name node
        ≡ some (
          record dir {
            children = children;
            inodes = set_inode dir.inodes node (new_inode made node (dir.inodes node));
          },
          ok 0,
        )
  unfolding add_entry add_child get_child
  run-add_entry made dir name node children d h e =
      rw (add_entry, add_child, get_child, d, h, e)
        (ap
          (λ t. some (
            record dir {
              ftype = t;
              children = children;
              inodes = set_inode dir.inodes node (new_inode made node (dir.inodes node));
            },
            ok 0,
          ))
          d)

  -- `tmp_creat` and `tmp_mkdir`, which make a file or a directory by `add_entry`, of a name that
  -- `tmp_lookup` does not find in a directory return 0 and keep the hash map in order. After that
  -- `tmp_lookup` finds the new node under the name, of the type that was made and with its address for
  -- inode number, a file with the size 0, and answers every other name as before. The address of the
  -- new node is that of no other child.
  pub add_entry-tmp_lookup :
      (made : FileType) (dir : TmpDir) (name : List ℕ) (node : ℕ)
      → dir.ftype ≡ ft_dir
      → IsTable (string_key at_one) text_of dir.children
      → ((q : List ℕ) (e : DirEntry)
          → lookup (string_key at_one) dir.children (entry q) ≡ some (full e)
          → e.child ≢ node)
      → tmp_lookup at_one dir name ≡ some (failed enoent)
      → (dir' : TmpDir) × (add_entry at_one made dir name node ≡ some (dir', ok 0))
        × IsTable (string_key at_one) text_of dir'.children
        × ((q : List ℕ)
            → tmp_lookup at_one dir' q ≡ (
                if same_text name q
                then some (found (new_inode made node (dir.inodes node)))
                else tmp_lookup at_one dir q))
  unfolding string_key
  add_entry-tmp_lookup made dir name node d t fresh h =
      let v : DirEntry = record { name = name; child = node } in
      let (m', e, t', f) =
        insert_value-IsTable (string_key at_one) text_of string_key-IsLawful dir.children v t in
      let inodes' = set_inode dir.inodes node (new_inode made node (dir.inodes node)) in
      (
        record dir { children = m'; inodes = inodes' },
        run-add_entry made dir name node m' d (free-name dir name d t h) e,
        t',
        λ q. answers q m' (f (entry q)),
      )
    where
      v : DirEntry
      v = record { name = name; child = node }

      made_dir : HashMap DirEntry → TmpDir
      made_dir m' = record dir {
        children = m';
        inodes = set_inode dir.inodes node (new_inode made node (dir.inodes node));
      }

      matched :
          (q : List ℕ)
          → same_text name q ≡ true
          → (if matches (string_key at_one) (full v) (entry q)
              then some (full v)
              else lookup (string_key at_one) dir.children (entry q))
            ≡ some (full v)
      matched q y = rw y refl

      unmatched :
          (q : List ℕ)
          → same_text name q ≡ false
          → (if matches (string_key at_one) (full v) (entry q)
              then some (full v)
              else lookup (string_key at_one) dir.children (entry q))
            ≡ lookup (string_key at_one) dir.children (entry q)
      unmatched q z = rw z refl

      answers :
          (q : List ℕ) (m' : HashMap DirEntry)
          → lookup (string_key at_one) m' (entry q) ≡ (
              if matches (string_key at_one) (full (record { name = name; child = node })) (entry q)
              then some (full (record { name = name; child = node }))
              else lookup (string_key at_one) dir.children (entry q))
          → tmp_lookup at_one
              (record dir {
                children = m';
                inodes = set_inode dir.inodes node (new_inode made node (dir.inodes node));
              })
              q
            ≡ (if same_text name q
                then some (found (new_inode made node (dir.inodes node)))
                else tmp_lookup at_one dir q)
      answers q m' f = elim (Bool-cases (same_text name q)) [
        | inl y ↦ rw y (
            child-lookup (made_dir m') q (full v) d (f ∙ matched q y)
            ∙ ap
                (λ b.
                  some
                    (found (if b then new_inode made node (dir.inodes node) else dir.inodes node)))
                (eq→== node node refl))
        | inr z ↦
            rw z
              (elim (table-lookup (string_key at_one) text_of string_key-IsLawful dir.children
                (entry q) t) [
                  | inl e ↦
                      child-lookup (made_dir m') q empty d (f ∙ unmatched q z ∙ e)
                      ∙ sym (child-lookup dir q empty d e)
                  | inr (a, e) ↦
                      child-lookup (made_dir m') q (full a) d (f ∙ unmatched q z ∙ e)
                      ∙ ap
                          (λ b. some (
                            found (
                              if b
                              then new_inode made node (dir.inodes node)
                              else dir.inodes a.child)))
                          (ne→== a.child node (fresh q a e))
                      ∙ sym (child-lookup dir q (full a) d e)
                ])
      ]
