-- ===== src/Kernel/HashMap/Walk.antt =====
-- The buckets that the loop of `get_bucket` looks at, one after the other.
use petix.Prelude.{
  ℕ, zero, suc, ◌+◌, ◌-◌, ◌%◌, ◌<◌, ◌≡◌, ◌≢◌, refl, ◌∙◌, sym, ap, subst, Bool, true, false, ◌||◌,
  ◌==◌, ◌⊎◌, inl, inr, List, [], ◌∷◌, Option, none, some, get_or, length, eqb_ℤ, pos, arith,
  Bool-cases, if◌then◌else◌, ==→eq, ==→ne,
}
use native.Mathlib.Nat.{mod-lt, mod_self, mod-eq_of_lt}
use native.Mathlib.Decide.{dec_lt}
use petix.Kernel.HashMap.{
  Bucket, empty, tombstone, full, Callbacks, HashMap, probe, get_bucket, is_empty, at_end,
  first_tombstone,
}

-- From `i` to `j` around a table of `n`, over places that are all `P`.
pub data Trail (n : ℕ) (P : ℕ → Type 0) (j : ℕ) : ℕ → Type 0 where
  here : Trail n P j j
  onward : (i : ℕ) → P i → Trail n P j (suc i % n) → Trail n P j i

pub Trail-map :
    (n : ℕ) (P Q : ℕ → Type 0) (j i : ℕ) → ((k : ℕ) → P k → Q k) → Trail n P j i → Trail n Q j i
Trail-map n P Q j _ f here = here
Trail-map n P Q j _ f (onward i p rest) = onward i (f i p) (Trail-map n P Q j (suc i % n) f rest)

-- A path can be cut where it first comes to its end.
pub Trail-first :
    (n : ℕ) (P : ℕ → Type 0) (j i : ℕ) → Trail n P j i → Trail n (λ k. P k × (k ≢ j)) j i
Trail-first n P j _ here = here
Trail-first n P j _ (onward i p rest) = elim (Bool-cases (i == j)) [
  | inl e ↦ subst (λ k. Trail n (λ k'. P k' × (k' ≢ j)) j k) (sym (==→eq i j e)) here
  | inr e ↦ onward i (p, ==→ne i j e) (Trail-first n P j (suc i % n) rest)
]

pub Trail-bound : (n : ℕ) (P : ℕ → Type 0) (j i : ℕ) → i < n → Trail n P j i → j < n
Trail-bound n P j _ h here = h
Trail-bound n P j _ h (onward i p rest) =
    Trail-bound n P j (suc i % n) (mod-lt (suc i) (omega arith)) rest

module _ {ℓ} {A : Type ℓ} (ops : Callbacks A) where
  abbrev pub matches : Bucket A → A → Bool
  matches b v = eqb_ℤ (ops.cmp b v) (pos 0)

  abbrev pub bucket : HashMap A → ℕ → Bucket A
  bucket m i = get_or m.buckets i empty

  -- The loop ends at the bucket.
  abbrev pub stops : HashMap A → A → ℕ → Bool
  stops m v i = is_empty (bucket m i) || matches (bucket m i) v

  abbrev pub Walk : HashMap A → A → ℕ → ℕ → Type 0
  Walk m v j i = Trail m.buckets_size (λ k. stops m v k ≡ false) j i

  pub Walk-unique :
      (m : HashMap A) (v : A) (j k i : ℕ)
      → Walk m v j i
      → Walk m v k i
      → stops m v j ≡ true
      → stops m v k ≡ true
      → j ≡ k
  Walk-unique m v j k i here here sj sk = refl
  Walk-unique m v j k i here (onward _ go rest) sj sk = absurd cc
  Walk-unique m v j k i (onward _ go rest) here sj sk = absurd cc
  Walk-unique m v j k i (onward _ go rest) (onward _ go' rest') sj sk =
      Walk-unique m v j k (suc i % m.buckets_size) rest rest' sj sk

  -- What the loop of `get_bucket` finds from `i` on: where it ended, and the place it returns.
  pub record Finds (m : HashMap A) (v : A) (allow_ts : Bool) (ts : Option ℕ) (i r : ℕ)
      : Type ℓ where
    pub end : ℕ
    pub ended : Walk m v end i
    pub stopped : stops m v end ≡ true
    pub place :
        (r ≡ end)
        ⊎ ((allow_ts ≡ true)
            × (is_empty (bucket m end) ≡ true)
            × ((ts ≡ some r) ⊎ (Walk m v r i × (bucket m r ≡ tombstone))))

  first_tombstone-some :
      (b : Bucket A) (i : ℕ) (ts : Option ℕ) (r : ℕ)
      → first_tombstone b i ts ≡ some r
      → (ts ≡ some r) ⊎ ((r ≡ i) × (b ≡ tombstone))
  first_tombstone-some empty i ts r h = inl h
  first_tombstone-some (full a) i ts r h = inl h
  first_tombstone-some tombstone i none r h = inr (cc, refl)
  first_tombstone-some tombstone i (some t) r h = inl h

  at_end-some :
      (allow_ts : Bool) (i : ℕ) (ts : Option ℕ) (r : ℕ)
      → at_end allow_ts i ts ≡ r
      → (r ≡ i) ⊎ ((allow_ts ≡ true) × (ts ≡ some r))
  at_end-some true i none r h = inl cc
  at_end-some true i (some t) r h = inr (refl, ap some h)
  at_end-some false i ts r h = inl cc

  probe-Finds :
      (m : HashMap A) (v : A) (allow_ts : Bool) (fuel i : ℕ) (ts : Option ℕ) (r : ℕ)
      → probe ops m v allow_ts fuel i ts ≡ some r
      → Finds m v allow_ts ts i r
  unfolding probe
  probe-Finds m v allow_ts zero i ts r h = absurd cc
  probe-Finds m v allow_ts (suc fuel) i ts r h = elim (Bool-cases (is_empty (bucket m i))) [
    | inl e ↦ record {
      end = i;
      ended = here;
      stopped = ground arith;
      place = elim (at_end-some allow_ts i ts r (ground arith)) [
        | inl p ↦ inl p
        | inr p ↦ inr (p.0, e, inl p.1)
      ];
    }
    | inr e ↦ elim (Bool-cases (matches (bucket m i) v)) [
      | inl e' ↦ record {
        end = i;
        ended = here;
        stopped = ground arith;
        place = inl (ground arith);
      }
      | inr e' ↦
          let ih =
            probe-Finds m v allow_ts fuel (suc i % m.buckets_size)
              (first_tombstone (bucket m i) i ts) r ground arith in
          record {
            end = ih.end;
            ended = onward i (ground arith) ih.ended;
            stopped = ih.stopped;
            place = elim (ih.place) [
              | inl p ↦ inl p
              | inr (al, q, inl p) ↦ elim (first_tombstone-some (bucket m i) i ts r p) [
                | inl p' ↦ inr (al, q, inl p')
                | inr (p', t) ↦
                    inr (al, q, inr (subst (λ k. Walk m v k i) (sym p') here, ap (bucket m) p' ∙ t))
              ]
              | inr (al, q, inr (w, t)) ↦ inr (al, q, inr (onward i (ground arith) w, t))
            ];
          }
    ]
  ]

-- The place `d` steps behind `i`.
abbrev steps : ℕ → ℕ → ℕ → ℕ
steps n zero i = i
steps n (suc d) i = steps n d (suc i % n)

steps_lem : (n d i e : ℕ) → i < n → e < n → (i + d ≡ e) ⊎ (i + d ≡ n + e) → steps n d i ≡ e
steps_lem n zero i e hi he (inl h) = omega arith
steps_lem n zero i e hi he (inr h) = absurd (omega arith)
steps_lem n (suc d) i e hi he h = elim (dec_lt (suc i) n) [
  | yes lt ↦
      ap (steps n d) (mod-eq_of_lt lt)
      ∙ steps_lem n d (suc i) e lt he
          (elim h [ inl p ↦ inl (omega arith) | inr p ↦ inr (omega arith) ])
  | no ge ↦
      let wraps : suc i % n ≡ 0 = ap (λ k. k % n) (omega arith) ∙ mod_self n in
      ap (steps n d) wraps
      ∙ steps_lem n d 0 e (omega arith) he
          (elim h [ inl p ↦ absurd (omega arith) | inr p ↦ inl (omega arith) ])
]

-- Around the table every place comes within one turn.
steps-all : (n i e : ℕ) → i < n → e < n → (d : ℕ) × (d < n) × (steps n d i ≡ e)
steps-all n i e hi he = elim (dec_lt e i) [
  | yes lt ↦ (n - i + e, omega arith, steps_lem n (n - i + e) i e hi he (inr (omega arith)))
  | no ge ↦ (e - i, omega arith, steps_lem n (e - i) i e hi he (inl (omega arith)))
]

module _ {ℓ} {A : Type ℓ} where
  -- The buckets that are not empty.
  abbrev pub used : List (Bucket A) → ℕ
  used [] = 0
  used (b ∷ bs) = if is_empty b then used bs else suc (used bs)

  used-empty :
      (bs : List (Bucket A))
      → used bs < length bs
      → (e : ℕ) × (e < length bs) × (is_empty (get_or bs e empty) ≡ true)
  used-empty [] h = absurd (omega arith)
  used-empty (b ∷ bs) h = elim (Bool-cases (is_empty b)) [
    | inl y ↦ (0, omega arith, y)
    | inr n ↦ let ih = used-empty bs (ground (arith, h, n)) in (suc ih.0, omega (arith, ih.1), ih.2)
  ]

  probe-steps :
      (ops : Callbacks A) (m : HashMap A) (v : A) (allow_ts : Bool) (e fuel d i : ℕ) (ts : Option ℕ)
      → is_empty (bucket ops m e) ≡ true
      → steps m.buckets_size d i ≡ e
      → d < fuel
      → (r : ℕ) × (probe ops m v allow_ts fuel i ts ≡ some r)
  unfolding probe
  probe-steps ops m v allow_ts e zero d i ts he hs hd = absurd (omega arith)
  probe-steps ops m v allow_ts e (suc fuel) zero i ts he hs hd =
      (at_end allow_ts i ts, rw (hs, he) refl)
  probe-steps ops m v allow_ts e (suc fuel) (suc d) i ts he hs hd =
      let ih =
        probe-steps ops m v allow_ts e fuel d (suc i % m.buckets_size)
          (first_tombstone (bucket ops m i) i ts) he hs (omega arith) in
      elim (Bool-cases (is_empty (bucket ops m i))) [
        | inl y ↦ (at_end allow_ts i ts, rw y refl)
        | inr n ↦ elim (Bool-cases (matches ops (bucket ops m i) v)) [
          | inl y' ↦ (i, rw (n, y') refl)
          | inr n' ↦ (ih.0, rw (n, n', ih.1) refl)
        ]
      ]

  -- With an empty bucket in the table the loop of `get_bucket` ends, after a turn at the most.
  pub get_bucket-Finds :
      (ops : Callbacks A) (m : HashMap A) (v : A) (allow_ts : Bool)
      → length m.buckets ≡ m.buckets_size
      → used m.buckets < m.buckets_size
      → (r : ℕ) × (get_bucket ops m v allow_ts ≡ some r)
        × Finds ops m v allow_ts none (ops.hash v % m.buckets_size) r
  unfolding get_bucket
  get_bucket-Finds ops m v allow_ts size spare =
      let e = used-empty m.buckets (omega (arith, size, spare)) in
      let h : ops.hash v % m.buckets_size < m.buckets_size = mod-lt (ops.hash v) (omega arith) in
      let d =
        steps-all m.buckets_size (ops.hash v % m.buckets_size) e.0 h (omega (arith, e.1, size)) in
      let p =
        probe-steps ops m v allow_ts e.0 m.buckets_size d.0 (ops.hash v % m.buckets_size) none e.2
          d.2 d.1 in
      (
        p.0,
        p.1,
        probe-Finds ops m v allow_ts m.buckets_size (ops.hash v % m.buckets_size) none p.0 p.1,
      )
