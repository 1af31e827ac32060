-- ===== src/Kernel/HashMap/Table.antt =====
-- Tables in which every value is found: the lookup, and where a value is placed.
use petix.Prelude.{
  ℕ, ◌+◌, ◌*◌, ◌%◌, ◌≤◌, ◌<◌, ◌≡◌, ◌≢◌, refl, ◌∙◌, sym, ap, subst, true, false, ◌==◌, ◌⊎◌, inl, inr,
  [], none, some, length, arith, Bool-cases, some_inj,
}
use native.Mathlib.Nat.{mod-lt}
use petix.Kernel.HashMap.{
  Bucket, empty, tombstone, full, Callbacks, HashMap, get_bucket, is_empty, lookup,
}
use petix.Kernel.HashMap.Walk.{
  Trail-map, Trail-bound, matches, bucket, stops, Walk, Walk-unique, Finds, used, get_bucket-Finds,
}

-- What the callbacks have to keep: `cmp` compares keys, `hash` depends on the key, and no value has
-- the key that is read through a tombstone.
pub record IsLawful {ℓ} {A K : Type ℓ} (ops : Callbacks A) (key : A → K) : Type ℓ where
  pub hash_key : (a b : A) → key a ≡ key b → ops.hash a ≡ ops.hash b
  pub hit : (a b : A) → matches ops (full a) b ≡ true → key a ≡ key b
  pub same : (a b : A) → key a ≡ key b → matches ops (full a) b ≡ true
  pub stone : (b : A) → matches ops tombstone b ≡ false

pub full_inj {ℓ} : {A : Type ℓ} {a b : A} → full a ≡ full b → a ≡ b
full_inj {a = a} h = ap (λ t. elim t [ empty ↦ a | tombstone ↦ a | full c ↦ c ]) h

pub Bucket-cases {ℓ} :
    {A : Type ℓ} (b : Bucket A) → (b ≡ empty) ⊎ (b ≡ tombstone) ⊎ ((a : A) × (b ≡ full a))
Bucket-cases empty = inl refl
Bucket-cases tombstone = inr (inl refl)
Bucket-cases (full a) = inr (inr (a, refl))

-- A table as `hashmap_init` leaves it.
pub record IsFresh {ℓ} {A : Type ℓ} (m : HashMap A) : Type ℓ where
  pub no_buckets : m.buckets ≡ []
  pub no_size : m.buckets_size ≡ 0
  pub no_entries : m.entries ≡ 0

module _ {ℓ} {A K : Type ℓ} (ops : Callbacks A) (key : A → K) where
  pub record IsProbed (m : HashMap A) : Type ℓ where
    pub size : length m.buckets ≡ m.buckets_size
    pub counted : used m.buckets ≤ m.entries
    pub spare : m.entries < m.buckets_size
    pub found :
        (i : ℕ) (a : A) → bucket ops m i ≡ full a → Walk ops m a i (ops.hash a % m.buckets_size)

  -- A table whose load leaves room for one more.
  pub record IsLoaded (m : HashMap A) : Type ℓ where
    pub probed : IsProbed m
    pub large : 32 ≤ m.buckets_size
    pub load : 5 * m.entries ≤ 4 * m.buckets_size + 5

  abbrev pub IsTable : HashMap A → Type ℓ
  IsTable m = IsFresh m ⊎ IsLoaded m

  -- What the table says about a key.
  pub data Answer (m : HashMap A) (q : A) : Type ℓ where
    held : (i : ℕ) (a : A) → bucket ops m i ≡ full a → key a ≡ key q → Answer m q
    absent : ((i : ℕ) (a : A) → bucket ops m i ≡ full a → key a ≢ key q) → Answer m q

  abbrev pub answered : (m : HashMap A) (q : A) → Answer m q → Bucket A
  answered m q (held i a e k) = full a
  answered m q (absent no_one) = empty

  -- A place for a value: the way to it is taken, and it holds no value of another key.
  pub record Placed (m : HashMap A) (v : A) (r : ℕ) : Type ℓ where
    pub inside : r < m.buckets_size
    pub way : Walk ops m v r (ops.hash v % m.buckets_size)
    pub others : (i : ℕ) (a : A) → bucket ops m i ≡ full a → i ≢ r → key a ≢ key v
    pub old : (b : A) → bucket ops m r ≡ full b → key b ≡ key v

  module _ (laws : IsLawful ops key) where
    stops-full :
        (m : HashMap A) (a q : A) (i : ℕ)
        → bucket ops m i ≡ full a
        → key a ≡ key q
        → stops ops m q i ≡ true
    stops-full m a q i e k = rw e (laws.same a q k)

    full-matches :
        (m : HashMap A) (a q : A) (j : ℕ)
        → bucket ops m j ≡ full a
        → stops ops m q j ≡ true
        → matches ops (full a) q ≡ true
    full-matches m a q j e s =
        let p : stops ops m q j ≡ matches ops (full a) q = rw e refl in sym p ∙ s

    matches-key :
        (b : Bucket A) (a q : A)
        → is_empty b ≡ false
        → key a ≡ key q
        → matches ops b a ≡ false
        → matches ops b q ≡ false
    matches-key empty a q h k n = absurd cc
    matches-key tombstone a q h k n = laws.stone q
    matches-key (full c) a q h k n = elim (Bool-cases (matches ops (full c) q)) [
      | inl y ↦
          absurd
            (let t : matches ops (full c) a ≡ true = laws.same c a (laws.hit c q y ∙ sym k) in cc)
      | inr n' ↦ n'
    ]

    -- The way to a value is the way to every value of its key.
    found-key :
        (m : HashMap A) (a q : A) (i : ℕ)
        → key a ≡ key q
        → Walk ops m a i (ops.hash a % m.buckets_size)
        → Walk ops m q i (ops.hash q % m.buckets_size)
    found-key m a q i k w =
        subst (λ h. Walk ops m q i (h % m.buckets_size)) (laws.hash_key a q k)
          (Trail-map m.buckets_size (λ j. stops ops m a j ≡ false) (λ j. stops ops m q j ≡ false) i
            (ops.hash a % m.buckets_size)
            (λ j n.
              let e : is_empty (bucket ops m j) ≡ false = ground arith in
              rw (e, matches-key (bucket ops m j) a q e k (ground arith)) refl)
            w)

    -- Where the loop stops, it has found the value or there is none.
    stop-Answer :
        (m : HashMap A) (q : A) (j : ℕ)
        → IsProbed m
        → Walk ops m q j (ops.hash q % m.buckets_size)
        → stops ops m q j ≡ true
        → (x : Answer m q) × (answered m q x ≡ bucket ops m j)
    stop-Answer m q j t w s = elim (Bucket-cases (bucket ops m j)) [
      | inl e ↦ (
        absent (λ i a e' k.
            let p : j ≡ i =
              Walk-unique ops m q j i (ops.hash q % m.buckets_size) w
                (found-key m a q i k (t.found i a e')) s (stops-full m a q i e' k) in
            absurd cc),
        sym e,
      )
      | inr (inl e) ↦ absurd (let n : stops ops m q j ≡ false = rw (e, laws.stone q) refl in cc)
      | inr (inr (a, e)) ↦ (held j a e (laws.hit a q (full-matches m a q j e s)), sym e)
    ]

    -- `lookup` in such a table ends, and says what the table says.
    pub lookup-Answer :
        (m : HashMap A) (q : A)
        → IsProbed m
        → (x : Answer m q) × (lookup ops m q ≡ some (answered m q x))
    unfolding lookup
    lookup-Answer m q t =
        let g = get_bucket-Finds ops m q false t.size (omega (arith, t.counted, t.spare)) in
        let p : g.0 ≡ (g.2).end = elim ((g.2).place) [
          | inl e ↦ e
          | inr (no_ts, _, _) ↦ absurd cc
        ] in
        let x = stop-Answer m q (g.2).end t (g.2).ended (g.2).stopped in
        let n : (m.buckets_size == 0) ≡ false = ground (arith, t.spare) in
        (x.0, rw (n, g.1, p, x.1) refl)

    -- The bucket that `insert_op` takes is a place for the value.
    pub get_bucket-Placed :
        (m : HashMap A) (v : A)
        → IsProbed m
        → (r : ℕ) × (get_bucket ops m v true ≡ some r) × Placed m v r
    get_bucket-Placed m v t =
        let g = get_bucket-Finds ops m v true t.size (omega (arith, t.counted, t.spare)) in
        (
          g.0,
          g.1,
          record {
            inside =
                Trail-bound m.buckets_size (λ k. stops ops m v k ≡ false) g.0
                  (ops.hash v % m.buckets_size) (mod-lt (ops.hash v) (omega (arith, t.spare)))
                  (way g.0 g.2);
            way = way g.0 g.2;
            others = λ i a e n k.
                let p =
                  Walk-unique ops m v (g.2).end i (ops.hash v % m.buckets_size) (g.2).ended
                    (found-key m a v i k (t.found i a e)) (g.2).stopped (stops-full m a v i e k) in
                elim ((g.2).place) [ inl q ↦ n (sym p ∙ sym q) | inr (_, q, _) ↦ absurd cc ];
            old = λ b e. elim ((g.2).place) [
              | inl q ↦
                  laws.hit b v
                    (full-matches m b v (g.2).end (ap (bucket ops m) (sym q) ∙ e) (g.2).stopped)
              | inr (_, q, inl z) ↦ absurd cc
              | inr (_, q, inr z) ↦ absurd cc
            ];
          },
        )
      where
        way :
            (r : ℕ)
            → Finds ops m v true none (ops.hash v % m.buckets_size) r
            → Walk ops m v r (ops.hash v % m.buckets_size)
        way r f = elim (f.place) [
          | inl e ↦ subst (λ k. Walk ops m v k (ops.hash v % m.buckets_size)) (sym e) f.ended
          | inr (_, _, inl e) ↦ absurd cc
          | inr (_, _, inr w) ↦ w.0
        ]

    pub held_unique :
        (m : HashMap A) (i j : ℕ) (a b : A)
        → IsProbed m
        → bucket ops m i ≡ full a
        → bucket ops m j ≡ full b
        → key a ≡ key b
        → i ≡ j
    held_unique m i j a b t e e' k =
        Walk-unique ops m b i j (ops.hash b % m.buckets_size) (found-key m a b i k (t.found i a e))
          (t.found j b e') (stops-full m a b i e k) (stops-full m b b j e' refl)

    -- A value that the table holds is what `lookup` finds for its key.
    pub lookup-held :
        (m : HashMap A) (q : A) (i : ℕ) (a : A)
        → IsProbed m
        → bucket ops m i ≡ full a
        → key a ≡ key q
        → lookup ops m q ≡ some (full a)
    lookup-held m q i a t e k = says x.0 x.1
      where
        x : (x : Answer m q) × (lookup ops m q ≡ some (answered m q x))
        x = lookup-Answer m q t

        says :
            (x : Answer m q)
            → lookup ops m q ≡ some (answered m q x)
            → lookup ops m q ≡ some (full a)
        says (absent none_held) f = absurd (none_held i a e k)
        says (held j b e' k') f =
            let p : i ≡ j = held_unique m i j a b t e e' (k ∙ sym k') in
            f ∙ ap some (sym e' ∙ ap (bucket ops m) (sym p) ∙ e)

    pub lookup-absent :
        (m : HashMap A) (q : A)
        → IsProbed m
        → ((i : ℕ) (a : A) → bucket ops m i ≡ full a → key a ≢ key q)
        → lookup ops m q ≡ some empty
    lookup-absent m q t none_held = says x.0 x.1
      where
        x : (x : Answer m q) × (lookup ops m q ≡ some (answered m q x))
        x = lookup-Answer m q t

        says :
            (x : Answer m q) → lookup ops m q ≡ some (answered m q x) → lookup ops m q ≡ some empty
        says (absent none_held') f = f
        says (held j b e k) f = absurd (none_held j b e k)

    -- `lookup` looks at the bucket where `get_bucket` ends.
    lookup-bucket :
        (m : HashMap A) (q : A)
        → IsProbed m
        → (r : ℕ) × (get_bucket ops m q false ≡ some r)
          × (r < m.buckets_size)
          × (lookup ops m q ≡ some (bucket ops m r))
          × (stops ops m q r ≡ true)
    unfolding lookup
    lookup-bucket m q t =
        let g = get_bucket-Finds ops m q false t.size (omega (arith, t.counted, t.spare)) in
        let p : g.0 ≡ (g.2).end = elim ((g.2).place) [
          | inl e ↦ e
          | inr (no_ts, _, _) ↦ absurd cc
        ] in
        let n : (m.buckets_size == 0) ≡ false = ground (arith, t.spare) in
        (
          g.0,
          g.1,
          Trail-bound m.buckets_size (λ k. stops ops m q k ≡ false) g.0
              (ops.hash q % m.buckets_size) (mod-lt (ops.hash q) (omega (arith, t.spare)))
              (subst (λ k. Walk ops m q k (ops.hash q % m.buckets_size)) (sym p) (g.2).ended),
          rw (n, g.1) refl,
          subst (λ k. stops ops m q k ≡ true) (sym p) (g.2).stopped,
        )

    -- Where `lookup` finds a value, `get_bucket` gives its bucket.
    pub get_bucket-held :
        (m : HashMap A) (q a : A)
        → IsProbed m
        → lookup ops m q ≡ some (full a)
        → (r : ℕ) × (get_bucket ops m q false ≡ some r)
          × (r < m.buckets_size)
          × (bucket ops m r ≡ full a)
          × (key a ≡ key q)
    get_bucket-held m q a t h =
        let (r, g, inside, l, s) = lookup-bucket m q t in
        let e : bucket ops m r ≡ full a = some_inj (sym l ∙ h) in
        (r, g, inside, e, laws.hit a q (full-matches m a q r e s))

    pub get_bucket-empty :
        (m : HashMap A) (q : A)
        → IsProbed m
        → lookup ops m q ≡ some empty
        → (r : ℕ) × (get_bucket ops m q false ≡ some r)
          × (r < m.buckets_size)
          × (bucket ops m r ≡ empty)
    get_bucket-empty m q t h =
        let (r, g, inside, l, s) = lookup-bucket m q t in (r, g, inside, some_inj (sym l ∙ h))
