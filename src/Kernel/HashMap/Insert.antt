-- ===== src/Kernel/HashMap/Insert.antt =====
-- Insertion and deletion in a table in which every value is found.
use petix.Prelude.{
  ℕ, suc, ◌%◌, ◌≤◌, ◌<◌, ◌≡◌, ◌≢◌, refl, ◌∙◌, sym, ap, subst, true, false, ◌||◌, ◌==◌, inl, inr,
  List, [], ◌∷◌, some, get_or, set, length, arith, Bool-cases, if◌then◌else◌, ==→eq, ==→ne,
  length-set, get_or-set_self, get_or-set_ne, zero,
}
use petix.Kernel.HashMap.{
  Bucket, empty, tombstone, full, Callbacks, HashMap, is_empty, insert_at, insert_op, lookup,
  delete_value,
}
use petix.Kernel.HashMap.Walk.{Trail-map, Trail-first, matches, bucket, stops, Walk, used}
use petix.Kernel.HashMap.Table.{
  IsLawful, IsProbed, Answer, held, absent, answered, Placed, lookup-Answer, get_bucket-Placed,
  lookup-held, lookup-absent, held_unique, get_bucket-held, full_inj,
}

pub used-set {ℓ} :
    {A : Type ℓ} (bs : List (Bucket A)) (i : ℕ) (b : Bucket A)
    → i < length bs
    → is_empty b ≡ false
    → used (set bs i b) ≡ (if is_empty (get_or bs i empty) then suc (used bs) else used bs)
used-set [] i b h n = absurd (omega arith)
used-set (c ∷ bs) zero b h n = ground arith
used-set (c ∷ bs) (suc i) b h n = ground (arith, used-set bs i b)

module _ {ℓ} {A K : Type ℓ} (ops : Callbacks A) (key : A → K) (laws : IsLawful ops key) where
  -- A way past one bucket stays where that bucket takes something else that does not stop the loop.
  pub way-set :
      (m : HashMap A) (b : Bucket A) (entries : ℕ) (freed : List (Bucket A)) (v : A) (r i h : ℕ)
      → r < length m.buckets
      → is_empty b || matches ops b v ≡ false
      → Walk ops m v i h
      → Walk ops (record m { buckets = set m.buckets r b; entries = entries; freed = freed }) v i h
  way-set m b entries freed v r i h in_range go w =
      Trail-map m.buckets_size (λ j. stops ops m v j ≡ false) (λ j. stops ops m' v j ≡ false) i h
        (λ j n. elim (Bool-cases (r == j)) [
          | inl y ↦ rw (sym (==→eq r j y), get_or-set_self m.buckets r b empty in_range) go
          | inr z ↦ rw (get_or-set_ne m.buckets r j b empty (==→ne r j z)) n
        ])
        w
    where
      m' : HashMap A
      m' = record m { buckets = set m.buckets r b; entries = entries; freed = freed }

  pub other_key : (v a : A) → key v ≢ key a → matches ops (full v) a ≡ false
  other_key v a n = elim (Bool-cases (matches ops (full v) a)) [
    | inl y ↦ absurd (n (laws.hit v a y))
    | inr z ↦ z
  ]

  -- What `insert_at` makes of a table, told by the bucket it fills.
  insert_at-IsProbed :
      (m : HashMap A) (v : A) (r : ℕ)
      → IsProbed ops key m
      → suc m.entries < m.buckets_size
      → Placed ops key m v r
      → IsProbed ops key (insert_at ops m v r)
  unfolding insert_at
  insert_at-IsProbed m v r t room p = record {
    size = length-set m.buckets r (full v) ∙ t.size;
    counted =
        ground
          (arith, used-set m.buckets r (full v) (omega (arith, p.inside, t.size)) refl, t.counted);
    spare = ground (arith, t.spare, room);
    found = λ i a e. elim (Bool-cases (r == i)) [
      | inl y ↦
          let o : r ≡ i = ==→eq r i y in
          let va : v ≡ a = full_inj (
            sym (get_or-set_self m.buckets r (full v) empty in_range)
            ∙ ap (bucket ops (insert_at ops m v r)) o
            ∙ e) in
          subst (λ k. Walk ops (insert_at ops m v r) a k (ops.hash a % m.buckets_size)) o
            (subst (λ b. Walk ops (insert_at ops m v r) b r (ops.hash b % m.buckets_size)) va
              (Trail-map m.buckets_size (λ k. (stops ops m v k ≡ false) × (k ≢ r))
                (λ k. stops ops (insert_at ops m v r) v k ≡ false) r (ops.hash v % m.buckets_size)
                (λ k n. rw (get_or-set_ne m.buckets r k (full v) empty (λ o'. n.1 (sym o'))) (n.0))
                (Trail-first m.buckets_size (λ k. stops ops m v k ≡ false) r
                  (ops.hash v % m.buckets_size) p.way)))
      | inr z ↦
          let e' : bucket ops m i ≡ full a =
            sym (get_or-set_ne m.buckets r i (full v) empty (==→ne r i z)) ∙ e in
          way-set m (full v) (insert_at ops m v r).entries (insert_at ops m v r).freed a r i
            (ops.hash a % m.buckets_size) in_range
            (other_key v a (λ k. p.others i a e' (λ o. ==→ne r i z (sym o)) (sym k)))
            (t.found i a e')
    ];
  }
    where
      in_range : r < length m.buckets
      in_range = omega (arith, p.inside, t.size)

  -- A value that was placed is found, and every other key is answered as before.
  insert_at-lookup :
      (m : HashMap A) (v : A) (r : ℕ)
      → IsProbed ops key m
      → IsProbed ops key (insert_at ops m v r)
      → Placed ops key m v r
      → (q : A)
      → lookup ops (insert_at ops m v r) q
        ≡ (if matches ops (full v) q then some (full v) else lookup ops m q)
  unfolding insert_at
  insert_at-lookup m v r t t' p q = elim (Bool-cases (matches ops (full v) q)) [
    | inl y ↦ rw y (
        lookup-held ops key laws (insert_at ops m v r) q r v t'
          (get_or-set_self m.buckets r (full v) empty in_range) (laws.hit v q y))
    | inr z ↦ rw z (says z x.0 x.1)
  ]
    where
      in_range : r < length m.buckets
      in_range = omega (arith, p.inside, t.size)

      x : (x : Answer ops key m q) × (lookup ops m q ≡ some (answered ops key m q x))
      x = lookup-Answer ops key laws m q t

      placed :
          (i : ℕ) (a : A) → (r == i) ≡ true → bucket ops (insert_at ops m v r) i ≡ full a → v ≡ a
      placed i a y e = full_inj (
          sym (get_or-set_self m.buckets r (full v) empty in_range)
          ∙ ap (bucket ops (insert_at ops m v r)) (==→eq r i y)
          ∙ e)

      ne : matches ops (full v) q ≡ false → key v ≢ key q
      ne z k = let y : matches ops (full v) q ≡ true = laws.same v q k in absurd cc

      says :
          matches ops (full v) q ≡ false
          → (x : Answer ops key m q) → lookup ops m q ≡ some (answered ops key m q x)
          → lookup ops (insert_at ops m v r) q ≡ lookup ops m q
      says z (held i a e k) f =
          lookup-held ops key laws (insert_at ops m v r) q i a t'
            (get_or-set_ne m.buckets r i (full v) empty
                (λ o. ne z (sym (p.old a (ap (bucket ops m) o ∙ e)) ∙ k))
              ∙ e)
            k
          ∙ sym f
      says z (absent none_held) f =
          lookup-absent ops key laws (insert_at ops m v r) q t' (λ i a e.
            elim (Bool-cases (r == i)) [
              | inl y ↦ λ k. ne z (ap key (placed i a y e) ∙ k)
              | inr n ↦
                  none_held i a (sym (get_or-set_ne m.buckets r i (full v) empty (==→ne r i n)) ∙ e)
            ])
          ∙ sym f

  -- What an insertion makes of a table.
  pub record Inserted (m m' : HashMap A) (v : A) : Type ℓ where
    pub probed : IsProbed ops key m'
    pub size : m'.buckets_size ≡ m.buckets_size
    pub grows : m'.entries ≤ suc m.entries
    pub finds :
        (q : A)
        → lookup ops m' q ≡ (if matches ops (full v) q then some (full v) else lookup ops m q)

  insert_at-grows : (m : HashMap A) (v : A) (r : ℕ) → (insert_at ops m v r).entries ≤ suc m.entries
  unfolding insert_at
  insert_at-grows m v r = ground arith

  pub insert_op-Inserted :
      (m : HashMap A) (v : A)
      → IsProbed ops key m
      → suc m.entries < m.buckets_size
      → (m' : HashMap A) × (insert_op ops m v ≡ some m') × Inserted m m' v
  unfolding insert_op insert_at
  insert_op-Inserted m v t room =
      let (r, e, p) = get_bucket-Placed ops key laws m v t in
      let t' = insert_at-IsProbed m v r t room p in
      (
        insert_at ops m v r,
        rw (insert_op, e) refl,
        record {
          probed = t';
          size = refl;
          grows = insert_at-grows m v r;
          finds = insert_at-lookup m v r t t' p;
        },
      )

  -- A value under a tombstone is not found any more, and every other key is answered as before.
  bury :
      (m : HashMap A) (v a : A) (r : ℕ)
      → IsProbed ops key m
      → bucket ops m r ≡ full a
      → r < m.buckets_size
      → key a ≡ key v
      → IsProbed ops key (record m { buckets = set m.buckets r tombstone })
        × ((q : A)
            → lookup ops (record m { buckets = set m.buckets r tombstone }) q
              ≡ (if matches ops (full v) q then some empty else lookup ops m q))
  bury m v a r t e inside k = (
    t',
    λ q. elim (Bool-cases (matches ops (full v) q)) [
      | inl y ↦ rw y (
          lookup-absent ops key laws m' q t' (λ i c e' k'.
            before i c e'
              (held_unique ops key laws m r i a c t e (kept i c e') (k ∙ laws.hit v q y ∙ sym k'))))
      | inr z ↦ rw z (says q z (x q).0 (x q).1)
    ],
  )
    where
      m' : HashMap A
      m' = record m { buckets = set m.buckets r tombstone }

      in_range : r < length m.buckets
      in_range = omega (arith, inside, t.size)

      before : (i : ℕ) (c : A) → bucket ops m' i ≡ full c → r ≢ i
      before i c e' o =
          let p : full c ≡ tombstone =
            sym e'
            ∙ ap (bucket ops m') (sym o)
            ∙ get_or-set_self m.buckets r tombstone empty in_range in
          absurd cc

      kept : (i : ℕ) (c : A) → bucket ops m' i ≡ full c → bucket ops m i ≡ full c
      kept i c e' = sym (get_or-set_ne m.buckets r i tombstone empty (before i c e')) ∙ e'

      t' : IsProbed ops key m'
      t' = record {
        size = length-set m.buckets r tombstone ∙ t.size;
        counted = omega (
          arith,
          used-set m.buckets r tombstone in_range refl
              ∙ (ap (λ b. if is_empty b then suc (used m.buckets) else used m.buckets) e),
          t.counted,
        );
        spare = t.spare;
        found = λ i c e'.
            way-set m tombstone m.entries m.freed c r i (ops.hash c % m.buckets_size) in_range
              (laws.stone c) (t.found i c (kept i c e'));
      }

      x : (q : A) → (x : Answer ops key m q) × (lookup ops m q ≡ some (answered ops key m q x))
      x q = lookup-Answer ops key laws m q t

      says :
          (q : A)
          → matches ops (full v) q ≡ false
          → (x : Answer ops key m q) → lookup ops m q ≡ some (answered ops key m q x)
          → lookup ops m' q ≡ lookup ops m q
      says q z (held i b e' k') f =
          lookup-held ops key laws m' q i b t'
            (get_or-set_ne m.buckets r i tombstone empty (λ o.
                let ab : a ≡ b = full_inj (sym e ∙ ap (bucket ops m) o ∙ e') in
                let y : matches ops (full v) q ≡ true = laws.same v q (sym k ∙ ap key ab ∙ k') in
                absurd cc)
              ∙ e')
            k'
          ∙ sym f
      says q z (absent none_held) f =
          lookup-absent ops key laws m' q t' (λ i c e'. none_held i c (kept i c e')) ∙ sym f

  -- What a deletion of a value that is there makes of a table.
  pub record Deleted (m m' : HashMap A) (v : A) : Type ℓ where
    pub probed : IsProbed ops key m'
    pub size : m'.buckets_size ≡ m.buckets_size
    pub kept : m'.entries ≡ m.entries
    pub finds :
        (q : A) → lookup ops m' q ≡ (if matches ops (full v) q then some empty else lookup ops m q)

  pub delete_value-Deleted :
      (m : HashMap A) (v a : A)
      → IsProbed ops key m
      → lookup ops m v ≡ some (full a)
      → (m' : HashMap A) × (delete_value ops m v ≡ some m') × Deleted m m' v
  unfolding delete_value
  delete_value-Deleted m v a t h =
      let (r, g, inside, e, k) = get_bucket-held ops key laws m v a t h in
      let b = bury m v a r t e inside k in
      let n : (m.buckets_size == 0) ≡ false = ground (arith, t.spare) in
      (
        record m { buckets = set m.buckets r tombstone },
        rw (n, g) refl,
        record { probed = b.0; size = refl; kept = refl; finds = b.1 },
      )
