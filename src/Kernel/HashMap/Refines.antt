-- ===== src/Kernel/HashMap/Refines.antt =====
-- Runs of operations on a table against the same operations on a function.
use petix.Prelude.{
  ◌*◌, ◌≤◌, ◌≡◌, refl, ◌∙◌, sym, ap, false, ◌==◌, ◌⊎◌, inl, inr, List, [], ◌∷◌, Option, none, some,
  arith, Bool-cases, if◌then◌else◌, leb,
}
use petix.Kernel.HashMap.{
  Bucket, empty, full, Callbacks, HashMap, min_buckets, lookup, reinsert, rehash, emptied,
  is_loaded, insert_value, delete_value,
}
use petix.Kernel.HashMap.Walk.{matches}
use petix.Kernel.HashMap.Table.{
  IsLawful, IsProbed, IsFresh, IsTable, Answer, held, absent, answered, lookup-Answer,
}
use petix.Kernel.HashMap.Insert.{insert_op-Inserted, delete_value-Deleted}
use petix.Kernel.HashMap.Rehash.{rehash-lookup, emptied-IsProbed, emptied-lookup}

-- The operations that change a table.
pub data MapOp {ℓ} (A : Type ℓ) : Type ℓ where
  put : A → MapOp A
  del : A → MapOp A

module _ {ℓ} {A : Type ℓ} (ops : Callbacks A) where
  unfoldable pub run : List (MapOp A) → HashMap A → Option (HashMap A)
  run [] m = some m
  run (put v ∷ os) m = elim (insert_value ops m v) [ none ↦ none | some m' ↦ run os m' ]
  run (del v ∷ os) m = elim (delete_value ops m v) [ none ↦ none | some m' ↦ run os m' ]

  -- The abstract map takes a value to the stored value of its key.
  abbrev pub after : MapOp A → (A → Option A) → A → Option A
  after (put v) f q = if matches ops (full v) q then some v else f q
  after (del v) f q = if matches ops (full v) q then none else f q

  abbrev pub replay : List (MapOp A) → (A → Option A) → A → Option A
  replay [] f = f
  replay (o ∷ os) f = replay os (after o f)

  -- Every deletion is of a key that is there.
  abbrev pub DeletesHeld : List (MapOp A) → (A → Option A) → Type ℓ
  DeletesHeld [] f = f ≡ f
  DeletesHeld (put v ∷ os) f = DeletesHeld os (after (put v) f)
  DeletesHeld (del v ∷ os) f = ((a : A) × (f v ≡ some a)) × DeletesHeld os (after (del v) f)

  abbrev pub bucket_of : Option A → Bucket A
  bucket_of none = empty
  bucket_of (some a) = full a

  abbrev pub Represents : HashMap A → (A → Option A) → Type ℓ
  Represents m f = (q : A) → lookup ops m q ≡ some (bucket_of (f q))

module _ {ℓ} {A K : Type ℓ} (ops : Callbacks A) (key : A → K) (laws : IsLawful ops key) where
  pub fresh-lookup : (m : HashMap A) → IsFresh m → (q : A) → lookup ops m q ≡ some empty
  unfolding lookup
  fresh-lookup m e q = rw e.no_size refl

  -- In a table in order every key has an answer.
  pub table-lookup :
      (m : HashMap A) (q : A)
      → IsTable ops key m
      → (lookup ops m q ≡ some empty) ⊎ ((a : A) × (lookup ops m q ≡ some (full a)))
  table-lookup m q (inl e) = inl (fresh-lookup m e q)
  table-lookup m q (inr t) = let (x, f) = lookup-Answer ops key laws m q t.probed in says x f
    where
      says :
          (x : Answer ops key m q)
          → lookup ops m q ≡ some (answered ops key m q x)
          → (lookup ops m q ≡ some empty) ⊎ ((a : A) × (lookup ops m q ≡ some (full a)))
      says (held i a e k) f = inr (a, f)
      says (absent no_one) f = inl f

  grown-fresh :
      (m : HashMap A)
      → IsFresh m
      → (if is_loaded m
          then rehash ops m (if m.buckets_size == 0 then min_buckets else 2 * m.buckets_size)
          else some m)
        ≡ some (emptied m 32)
  unfolding is_loaded rehash reinsert
  grown-fresh m e = rw (e.no_size, e.no_buckets) refl

  -- The growth of `insert_value` makes room for one more and changes no answer.
  grown :
      (m : HashMap A)
      → IsTable ops key m
      → (m' : HashMap A) × ((if is_loaded m
            then rehash ops m (if m.buckets_size == 0 then min_buckets else 2 * m.buckets_size)
            else some m)
          ≡ some m')
        × IsProbed ops key m'
        × (32 ≤ m'.buckets_size)
        × (5 * m'.entries ≤ 4 * m'.buckets_size)
        × ((q : A) → lookup ops m' q ≡ lookup ops m q)
  unfolding is_loaded
  grown m (inl e) = (
    emptied m 32,
    grown-fresh m e,
    emptied-IsProbed ops key laws m 32 (omega arith),
    omega arith,
    omega arith,
    λ q. emptied-lookup ops key laws m 32 q (omega arith) ∙ sym (fresh-lookup m e q),
  )
  grown m (inr t) = elim (Bool-cases (leb (4 * m.buckets_size) (5 * m.entries))) [
    | inl y ↦
        let n : (m.buckets_size == 0) ≡ false = ground (arith, t.large) in
        let (m', e, t', s, g, f) =
          rehash-lookup ops key laws m (2 * m.buckets_size) t.probed
            (omega (arith, (t.probed).spare)) in
        (m', rw (n, y) e, t', omega (arith, s, t.large), omega (arith, s, g, t.load, t.large), f)
    | inr z ↦
        let n : (m.buckets_size == 0) ≡ false = ground (arith, t.large) in
        (m, rw (n, z) refl, t.probed, t.large, ground (arith, z), λ q. refl)
  ]

  -- `insert_value` on a table ends in a table with one more value or a new one for its key.
  pub insert_value-IsTable :
      (m : HashMap A) (v : A)
      → IsTable ops key m
      → (m' : HashMap A) × (insert_value ops m v ≡ some m')
        × IsTable ops key m'
        × ((q : A)
            → lookup ops m' q ≡ (if matches ops (full v) q then some (full v) else lookup ops m q))
  unfolding insert_value
  insert_value-IsTable m v t =
      let (m1, e, t1, large, load, f) = grown m t in
      let (m', e', i) = insert_op-Inserted ops key laws m1 v t1 (omega (arith, large, load)) in
      (
        m',
        rw (insert_value, e) e',
        inr (record {
          probed = i.probed;
          large = omega (arith, i.size, large);
          load = omega (arith, i.size, i.grows, load);
        }),
        λ q. i.finds q ∙ ap (λ b. if matches ops (full v) q then some (full v) else b) (f q),
      )

  -- Any run of insertions, and of deletions of keys that are there, on a table in order ends. It
  -- leaves a table in order, on which `lookup` answers every key as the same operations on a
  -- function do: it finds the last value that was put under the key, and nothing where that was
  -- deleted. Growing the table changes no answer, and replacing a value keeps one value a key.
  pub run-refines :
      (os : List (MapOp A)) (m : HashMap A) (f : A → Option A)
      → IsTable ops key m
      → Represents ops m f
      → DeletesHeld ops os f
      → (m' : HashMap A) × (run ops os m ≡ some m')
        × IsTable ops key m'
        × Represents ops m' (replay ops os f)
  unfolding run
  run-refines [] m f t r h = (m, refl, t, r)
  run-refines (put v ∷ os) m f t r h =
      let (m1, e, t1, l) = insert_value-IsTable m v t in
      let (m', e', t', r') =
        run-refines os m1 (after ops (put v) f) t1
          (λ q.
            l q
            ∙ elim (Bool-cases (matches ops (full v) q)) [ inl y ↦ rw y refl | inr z ↦ rw z (r q) ])
          h in
      (m', rw (run, e) e', t', r')
  run-refines (del v ∷ os) m f (inl e) r ((a, k), h) = absurd (
      let p : some empty ≡ some (full a) =
        sym (fresh-lookup m e v) ∙ r v ∙ ap (λ o. some (bucket_of ops o)) k in
      cc)
  run-refines (del v ∷ os) m f (inr t) r ((a, k), h) =
      let (m1, e, d) =
        delete_value-Deleted ops key laws m v a t.probed
          (r v ∙ ap (λ o. some (bucket_of ops o)) k) in
      let (m', e', t', r') =
        run-refines os m1 (after ops (del v) f)
          (inr (record {
            probed = d.probed;
            large = omega (arith, d.size, t.large);
            load = omega (arith, d.size, d.kept, t.load);
          }))
          (λ q.
            d.finds q
            ∙ elim (Bool-cases (matches ops (full v) q)) [ inl y ↦ rw y refl | inr z ↦ rw z (r q) ])
          h in
      (m', rw (run, e) e', t', r')
