-- ===== src/Kernel/HashMap/Rehash.antt =====
-- The growth of a full table, and insertion into any table.
use petix.Prelude.{
  ℕ, suc, zero, ◌+◌, ◌≤◌, ◌<◌, ◌≡◌, ◌≢◌, refl, ◌∙◌, sym, ap, ◌⊎◌, inl, inr, List, [], ◌∷◌, Option,
  some, get_or, arith, Bool-cases, if◌then◌else◌, replicate, length-replicate,
}
use petix.Kernel.HashMap.{
  Bucket, empty, tombstone, full, Callbacks, HashMap, lookup, reinsert, rehash, emptied,
}
use petix.Kernel.HashMap.Walk.{matches, bucket, used}
use petix.Kernel.HashMap.Table.{
  IsLawful, IsProbed, Answer, held, absent, answered, lookup-Answer, lookup-absent, held_unique,
  full_inj,
}
use petix.Kernel.HashMap.Insert.{insert_op-Inserted}

get_or-replicate {ℓ} : {A : Type ℓ} (n i : ℕ) (a : A) → get_or (replicate n a) i a ≡ a
get_or-replicate zero i a = refl
get_or-replicate (suc n) zero a = refl
get_or-replicate (suc n) (suc i) a = get_or-replicate n i a

used-replicate {ℓ} : (A : Type ℓ) (n : ℕ) → used {A = A} (replicate n empty) ≡ 0
used-replicate A zero = refl
used-replicate A (suc n) = used-replicate A n

module _ {ℓ} {A K : Type ℓ} (ops : Callbacks A) (key : A → K) (laws : IsLawful ops key) where
  -- The answers after the values of an array have gone in, one after the other.
  abbrev overlay : List (Bucket A) → (A → Option (Bucket A)) → A → Option (Bucket A)
  overlay [] look q = look q
  overlay (empty ∷ bs) look q = overlay bs look q
  overlay (tombstone ∷ bs) look q = overlay bs look q
  overlay (full a ∷ bs) look q =
      overlay bs (λ q'. if matches ops (full a) q' then some (full a) else look q') q

  overlay_congr :
      (bs : List (Bucket A)) (f g : A → Option (Bucket A)) (q : A)
      → ((q' : A) → f q' ≡ g q')
      → overlay bs f q ≡ overlay bs g q
  overlay_congr [] f g q h = h q
  overlay_congr (empty ∷ bs) f g q h = overlay_congr bs f g q h
  overlay_congr (tombstone ∷ bs) f g q h = overlay_congr bs f g q h
  overlay_congr (full a ∷ bs) f g q h =
      overlay_congr bs (λ q'. if matches ops (full a) q' then some (full a) else f q')
        (λ q'. if matches ops (full a) q' then some (full a) else g q') q
        (λ q'. ap (λ t. if matches ops (full a) q' then some (full a) else t) (h q'))

  overlay-absent :
      (bs : List (Bucket A)) (look : A → Option (Bucket A)) (q : A)
      → ((i : ℕ) (c : A) → get_or bs i empty ≡ full c → key c ≢ key q)
      → overlay bs look q ≡ look q
  overlay-absent [] look q h = refl
  overlay-absent (empty ∷ bs) look q h = overlay-absent bs look q (λ i. h (suc i))
  overlay-absent (tombstone ∷ bs) look q h = overlay-absent bs look q (λ i. h (suc i))
  overlay-absent (full a ∷ bs) look q h =
      overlay-absent bs (λ q'. if matches ops (full a) q' then some (full a) else look q') q
        (λ i. h (suc i))
      ∙ elim (Bool-cases (matches ops (full a) q)) [
        | inl y ↦ absurd (h 0 a refl (laws.hit a q y))
        | inr n ↦ rw n refl
      ]

  overlay-held :
      (bs : List (Bucket A)) (look : A → Option (Bucket A)) (q a : A)
      → ((i : ℕ) (c : A) → get_or bs i empty ≡ full c → key c ≡ key q → c ≡ a)
      → (look q ≡ some (full a)) ⊎ ((i : ℕ) × (get_or bs i empty ≡ full a))
      → key a ≡ key q
      → overlay bs look q ≡ some (full a)
  overlay-held [] look q a h (inl e) k = e
  overlay-held [] look q a h (inr (i, e)) k = absurd cc
  overlay-held (empty ∷ bs) look q a h (inl e) k =
      overlay-held bs look q a (λ i. h (suc i)) (inl e) k
  overlay-held (empty ∷ bs) look q a h (inr (zero, e)) k = absurd cc
  overlay-held (empty ∷ bs) look q a h (inr (suc i, e)) k =
      overlay-held bs look q a (λ j. h (suc j)) (inr (i, e)) k
  overlay-held (tombstone ∷ bs) look q a h (inl e) k =
      overlay-held bs look q a (λ i. h (suc i)) (inl e) k
  overlay-held (tombstone ∷ bs) look q a h (inr (zero, e)) k = absurd cc
  overlay-held (tombstone ∷ bs) look q a h (inr (suc i, e)) k =
      overlay-held bs look q a (λ j. h (suc j)) (inr (i, e)) k
  overlay-held (full c ∷ bs) look q a h (inr (suc i, e)) k =
      overlay-held bs (λ q'. if matches ops (full c) q' then some (full c) else look q') q a
        (λ j. h (suc j)) (inr (i, e)) k
  overlay-held (full c ∷ bs) look q a h (inr (zero, e)) k =
      overlay-held bs (λ q'. if matches ops (full c) q' then some (full c) else look q') q a
        (λ j. h (suc j)) (inl (rw (laws.same c q (ap key (full_inj e) ∙ k)) (ap some e))) k
  overlay-held (full c ∷ bs) look q a h (inl e) k =
      overlay-held bs (λ q'. if matches ops (full c) q' then some (full c) else look q') q a
        (λ j. h (suc j))
        (inl (elim (Bool-cases (matches ops (full c) q)) [
          | inl y ↦ rw y (ap (λ t. some (full t)) (h 0 c refl (laws.hit c q y)))
          | inr n ↦ rw n e
        ]))
        k

  -- The loop of `rehash` ends with the old values over what the table held.
  reinsert-lookup :
      (bs : List (Bucket A)) (m : HashMap A)
      → IsProbed ops key m
      → used bs + m.entries < m.buckets_size
      → (m' : HashMap A) × (reinsert ops bs m ≡ some m')
        × IsProbed ops key m'
        × (m'.buckets_size ≡ m.buckets_size)
        × (m'.entries ≤ used bs + m.entries)
        × ((q : A) → lookup ops m' q ≡ overlay bs (lookup ops m) q)
  unfolding reinsert
  reinsert-lookup [] m t room = (m, refl, t, refl, omega arith, λ q. refl)
  reinsert-lookup (empty ∷ bs) m t room = reinsert-lookup bs m t room
  reinsert-lookup (tombstone ∷ bs) m t room =
      let (m', e, t', s, g, f) = reinsert-lookup bs m t (omega arith) in
      (m', e, t', s, omega arith, f)
  reinsert-lookup (full a ∷ bs) m t room =
      let (m1, e1, i1) = insert_op-Inserted ops key laws m a t (omega arith) in
      let (m', e, t', s, g, f) =
        reinsert-lookup bs m1 i1.probed (omega (arith, i1.size, i1.grows)) in
      (
        m',
        rw (reinsert, e1) e,
        t',
        s ∙ i1.size,
        omega (arith, i1.grows),
        λ q.
            f q
            ∙ overlay_congr bs (lookup ops m1)
                (λ q'. if matches ops (full a) q' then some (full a) else lookup ops m q') q
                i1.finds,
      )

  -- An array of empty buckets is a table without values.
  pub emptied-IsProbed : (m : HashMap A) (n : ℕ) → 0 < n → IsProbed ops key (emptied m n)
  emptied-IsProbed m n h = record {
    size = length-replicate n empty;
    counted = omega (arith, used-replicate A n);
    spare = h;
    found = λ i a e. let z : full a ≡ empty = sym e ∙ get_or-replicate n i empty in absurd cc;
  }

  pub emptied-lookup :
      (m : HashMap A) (n : ℕ) (q : A) → 0 < n → lookup ops (emptied m n) q ≡ some empty
  emptied-lookup m n q h =
      lookup-absent ops key laws (emptied m n) q (emptied-IsProbed m n h)
        (λ i a e. let p : full a ≡ empty = sym e ∙ get_or-replicate n i empty in absurd cc)

  -- `rehash` ends, in a larger table that answers as the old one did.
  pub rehash-lookup :
      (m : HashMap A) (n : ℕ)
      → IsProbed ops key m
      → m.entries < n
      → (m' : HashMap A) × (rehash ops m n ≡ some m')
        × IsProbed ops key m'
        × (m'.buckets_size ≡ n)
        × (m'.entries ≤ m.entries)
        × ((q : A) → lookup ops m' q ≡ lookup ops m q)
  unfolding rehash
  rehash-lookup m n t h =
      let z = emptied-IsProbed m n (omega arith) in
      let (m', e, t', s, g, f) =
        reinsert-lookup m.buckets (emptied m n) z (omega (arith, t.counted)) in
      (m', e, t', s, omega (arith, t.counted), λ q. f q ∙ says z q (x q).0 (x q).1)
    where
      x : (q : A) → (x : Answer ops key m q) × (lookup ops m q ≡ some (answered ops key m q x))
      x q = lookup-Answer ops key laws m q t

      says :
          IsProbed ops key (emptied m n)
          → (q : A) (x : Answer ops key m q) → lookup ops m q ≡ some (answered ops key m q x)
          → overlay m.buckets (lookup ops (emptied m n)) q ≡ lookup ops m q
      says z q (held i a e k) f =
          overlay-held m.buckets (lookup ops (emptied m n)) q a
            (λ j c e' k'.
              let o = held_unique ops key laws m j i c a t e' e (k' ∙ sym k) in
              full_inj (sym e' ∙ ap (bucket ops m) o ∙ e))
            (inr (i, e)) k
          ∙ sym f
      says z q (absent none_held) f =
          overlay-absent m.buckets (lookup ops (emptied m n)) q none_held
          ∙ emptied-lookup m n q (omega (arith, z.spare))
          ∙ sym f
