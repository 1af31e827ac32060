-- ===== src/Kernel/HashMap/Absent.antt =====
-- The deletion of a key that is not in the table.
use petix.Prelude.{
  ℕ, suc, zero, ◌+◌, ◌-◌, ◌≢◌, ◌%◌, ◌≤◌, ◌<◌, ◌≡◌, refl, ◌∙◌, sym, ap, Bool, false, ◌==◌, inl, inr,
  List, [], ◌∷◌, Option, none, some, get_or, set, length, arith, Bool-cases, if◌then◌else◌, ==→eq,
  ==→ne, length-set, get_or-set_self, get_or-set_ne,
}
use native.Mathlib.Nat.{mod-lt}
use petix.Kernel.HashMap.{
  Bucket, empty, tombstone, full, Callbacks, HashMap, probe, get_bucket, first_tombstone, is_empty,
  lookup, delete_value,
}
use petix.Kernel.HashMap.Walk.{bucket, stops, used}
use petix.Kernel.HashMap.Table.{
  IsLawful, IsProbed, lookup-held, lookup-absent, Bucket-cases, get_bucket-empty,
}
use petix.Kernel.HashMap.Insert.{used-set, other_key, way-set}

used-length {ℓ} : {A : Type ℓ} (bs : List (Bucket A)) → used bs ≤ length bs
used-length [] = omega arith
used-length (b ∷ bs) = ground (arith, used-length bs)

used-all {ℓ} :
    {A : Type ℓ} (bs : List (Bucket A)) (i : ℕ)
    → used bs ≡ length bs
    → i < length bs
    → is_empty (get_or bs i empty) ≡ false
used-all [] i h lt = absurd (omega arith)
used-all (b ∷ bs) zero h lt = ground (arith, used-length bs)
used-all (b ∷ bs) (suc i) h lt = used-all bs i (ground (arith, used-length bs)) (omega arith)

module _ {ℓ} {A K : Type ℓ} (ops : Callbacks A) (key : A → K) where
  probe-endless :
      (m : HashMap A) (q : A) (allow_ts : Bool) (fuel i : ℕ) (ts : Option ℕ)
      → i < m.buckets_size
      → ((j : ℕ) → j < m.buckets_size → stops ops m q j ≡ false)
      → probe ops m q allow_ts fuel i ts ≡ none
  unfolding probe
  probe-endless m q allow_ts zero i ts lt go = refl
  probe-endless m q allow_ts (suc fuel) i ts lt go =
      let s = go i lt in
      let ih =
        probe-endless m q allow_ts fuel (suc i % m.buckets_size)
          (first_tombstone (bucket ops m i) i ts) (mod-lt (suc i) (omega arith)) go in
      ground arith

  -- The same buckets under the number of those that are not empty.
  abbrev recount : HashMap A → HashMap A
  recount m = record m { entries = used m.buckets }

  -- The search does not look at `entries`.
  probe-recount :
      (m : HashMap A) (v : A) (allow_ts : Bool) (fuel i : ℕ) (ts : Option ℕ)
      → probe ops (recount m) v allow_ts fuel i ts ≡ probe ops m v allow_ts fuel i ts
  unfolding probe
  probe-recount m v allow_ts zero i ts = refl
  probe-recount m v allow_ts (suc fuel) i ts =
      let ih =
        probe-recount m v allow_ts fuel (suc i % m.buckets_size)
          (first_tombstone (bucket ops m i) i ts) in
      rw ih refl

  get_bucket-recount :
      (m : HashMap A) (v : A) (allow_ts : Bool)
      → get_bucket ops (recount m) v allow_ts ≡ get_bucket ops m v allow_ts
  unfolding get_bucket
  get_bucket-recount m v allow_ts =
      probe-recount m v allow_ts m.buckets_size (ops.hash v % m.buckets_size) none

  lookup-recount : (m : HashMap A) (v : A) → lookup ops (recount m) v ≡ lookup ops m v
  unfolding lookup
  lookup-recount m v = rw (get_bucket-recount m v false) refl

  -- `n` deletions of one key.
  abbrev pub deletions : ℕ → HashMap A → A → Option (HashMap A)
  deletions zero m v = some m
  deletions (suc n) m v = elim (delete_value ops m v) [ none ↦ none | some m' ↦ deletions n m' v ]

  -- A tombstone is put at `r`.
  abbrev buried : HashMap A → ℕ → HashMap A
  buried m r = record m { buckets = set m.buckets r tombstone }

  module _ (laws : IsLawful ops key) (m : HashMap A) (t : IsProbed ops key (recount m)) where
    delete-buried :
        (v : A)
        → lookup ops m v ≡ some empty
        → (r : ℕ) × (delete_value ops m v ≡ some (buried m r))
          × (r < m.buckets_size)
          × (bucket ops m r ≡ empty)
    unfolding delete_value
    delete-buried v h =
        let n : (m.buckets_size == 0) ≡ false = ground (arith, t.spare) in
        let (r, g, inside, e) =
          get_bucket-empty ops key laws (recount m) v t (lookup-recount m v ∙ h) in
        let g' = sym (get_bucket-recount m v false) ∙ g in (r, rw (n, g') refl, inside, e)

    -- The table holds no value with the key.
    not_held :
        (q : A)
        → lookup ops m q ≡ some empty
        → (j : ℕ) (a : A) → bucket ops m j ≡ full a
        → key a ≢ key q
    not_held q hq j a e k =
        let p : some empty ≡ some (full a) =
          sym (lookup-recount m q ∙ hq) ∙ lookup-held ops key laws (recount m) q j a t e k in
        absurd cc

    module _ (r : ℕ) (inside : r < m.buckets_size) (was : bucket ops m r ≡ empty) where
      in_range : r < length m.buckets
      in_range = omega (arith, inside, t.size)

      used-buried : used (buried m r).buckets ≡ suc (used m.buckets)
      used-buried =
          used-set m.buckets r tombstone in_range refl
          ∙ ap (λ b. if is_empty b then suc (used m.buckets) else used m.buckets) was

      kept : (i : ℕ) (c : A) → bucket ops (buried m r) i ≡ full c → bucket ops m i ≡ full c
      kept i c e = elim (Bool-cases (r == i)) [
        | inl y ↦ absurd (
            let p : full c ≡ tombstone =
              sym e
              ∙ ap (bucket ops (buried m r)) (sym (==→eq r i y))
              ∙ get_or-set_self m.buckets r tombstone empty in_range in
            cc)
        | inr z ↦ sym (get_or-set_ne m.buckets r i tombstone empty (==→ne r i z)) ∙ e
      ]

      buried-IsProbed :
          suc (used m.buckets) < m.buckets_size → IsProbed ops key (recount (buried m r))
      buried-IsProbed room = record {
        size = length-set m.buckets r tombstone ∙ t.size;
        counted = omega arith;
        spare = omega (arith, used-buried, room);
        found = λ i c e.
            way-set ops key laws m tombstone (used (buried m r).buckets) m.freed c r i
              (ops.hash c % m.buckets_size) in_range (laws.stone c) (t.found i c (kept i c e));
      }

      buried-lookup :
          (q : A)
          → suc (used m.buckets) < m.buckets_size
          → lookup ops m q ≡ some empty
          → lookup ops (buried m r) q ≡ some empty
      buried-lookup q room hq =
          sym (lookup-recount (buried m r) q)
          ∙ lookup-absent ops key laws (recount (buried m r)) q (buried-IsProbed room)
              (λ i c e. not_held q hq i c (kept i c e))

      -- Once the last empty bucket is buried, no bucket stops the search for an absent key.
      never_stops :
          (q : A)
          → lookup ops m q ≡ some empty
          → suc (used m.buckets) ≡ m.buckets_size
          → (j : ℕ) → j < m.buckets_size
          → stops ops (buried m r) q j ≡ false
      never_stops q hq last j h = elim (Bucket-cases (bucket ops (buried m r) j)) [
        | inl e ↦ absurd (
            let u : is_empty (bucket ops (buried m r) j) ≡ false =
              used-all (buried m r).buckets j
                (omega (arith, used-buried, last, length-set m.buckets r tombstone, t.size))
                (omega (arith, h, length-set m.buckets r tombstone, t.size)) in
            cc)
        | inr (inl e) ↦ rw e (laws.stone q)
        | inr (inr (a, e)) ↦ rw e (other_key ops key laws a q (not_held q hq j a (kept j a e)))
      ]

  module _ (laws : IsLawful ops key) where
    deletions-endless :
        (n : ℕ) (m : HashMap A) (v q : A) (allow_ts : Bool) (fuel i : ℕ)
        → IsProbed ops key (recount m)
        → lookup ops m v ≡ some empty
        → lookup ops m q ≡ some empty
        → used m.buckets + suc n ≡ m.buckets_size
        → i < m.buckets_size
        → (m' : HashMap A) × (deletions (suc n) m v ≡ some m')
          × (m'.entries ≡ m.entries)
          × (probe ops m' q allow_ts fuel i none ≡ none)
    deletions-endless zero m v q allow_ts fuel i t hv hq last lt =
        let (r, e, inside, was) = delete-buried laws m t v hv in
        (
          buried m r,
          rw (deletions, e) refl,
          refl,
          probe-endless (buried m r) q allow_ts fuel i none lt
              (never_stops laws m t r inside was q hq (omega (arith, last))),
        )
    deletions-endless (suc n) m v q allow_ts fuel i t hv hq last lt =
        let (r, e, inside, was) = delete-buried laws m t v hv in
        let room : suc (used m.buckets) < m.buckets_size = omega (arith, last) in
        let (m', e', same, endless) =
          deletions-endless n (buried m r) v q allow_ts fuel i
            (buried-IsProbed laws m t r inside was room)
            (buried-lookup laws m t r inside was v room hv)
            (buried-lookup laws m t r inside was q room hq)
            (omega (arith, last, used-buried laws m t r inside was)) lt in
        (m', rw (deletions, e) e', same, endless)

    -- In a table that is in order, where `v` and `q` are not in it, every deletion of `v` turns an
    -- empty bucket into a tombstone and counts nothing in `entries`, so that no insertion sees the
    -- load: after as many deletions of `v` as there were empty buckets, the number of entries is what
    -- it was, and the loop of `get_bucket` for `q` does not end in any number of rounds, wherever in
    -- the table it starts.
    pub delete_value-absent :
        (m : HashMap A) (v q : A) (allow_ts : Bool) (fuel i : ℕ)
        → IsProbed ops key m
        → lookup ops m v ≡ some empty
        → lookup ops m q ≡ some empty
        → i < m.buckets_size
        → (m' : HashMap A) × (deletions (m.buckets_size - used m.buckets) m v ≡ some m')
          × (m'.entries ≡ m.entries)
          × (probe ops m' q allow_ts fuel i none ≡ none)
    delete_value-absent m v q allow_ts fuel i t hv hq lt =
        let n = m.buckets_size - used m.buckets - 1 in
        let count : m.buckets_size - used m.buckets ≡ suc n = omega (arith, t.counted, t.spare) in
        let (m', e, same, endless) =
          deletions-endless n m v q allow_ts fuel i
            (record {
              size = t.size;
              counted = omega arith;
              spare = omega (arith, t.counted, t.spare);
              found = t.found;
            })
            hv hq (omega (arith, t.counted, t.spare)) lt in
        (m', ap (λ k. deletions k m v) count ∙ e, same, endless)
