-- ===== src/Kernel/HashMap/Tests.antt =====
-- Tables of pointers, which are their own keys.
use petix.Prelude.{
  ℕ, zero, suc, ◌+◌, ◌%◌, ◌≡◌, refl, ap, subst, false, inl, List, [], ◌∷◌, none, some, arith, sym,
  ◌∙◌, replicate, get_or,
}
use petix.Kernel.HashMap.{
  Bucket, empty, full, HashMap, probe, lookup, hashmap_init, ptr_value, get_bucket,
}
use petix.Kernel.HashMap.Walk.{here, bucket, Walk}
use petix.Kernel.HashMap.Table.{IsLawful, IsProbed, IsTable, full_inj}
use petix.Kernel.HashMap.Refines.{
  MapOp, put, del, run, replay, DeletesHeld, Represents, run-refines,
}
use petix.Kernel.HashMap.Absent.{deletions, delete_value-absent}

ptr_value-IsLawful : IsLawful ptr_value (λ k. k)
unfolding ptr_value
ptr_value-IsLawful = record {
  hash_key = λ a b e. ap (λ k. k + 2) e;
  hit = λ a b h. ground (arith, h);
  same = λ a b e. ground (arith, e);
  stone = λ b. ground arith;
}

-- 5 and 37 have the same place in a table of 32.
abbrev colliding : List (MapOp ℕ)
colliding = put 5 ∷ put 37 ∷ del 5 ∷ []

hashmap_init-IsTable : IsTable ptr_value (λ k. k) hashmap_init
unfolding hashmap_init
hashmap_init-IsTable = inl (record { no_buckets = refl; no_size = refl; no_entries = refl })

hashmap_init-Represents : Represents ptr_value hashmap_init (λ q. none)
unfolding hashmap_init lookup
hashmap_init-Represents q = refl

colliding-DeletesHeld : DeletesHeld ptr_value colliding (λ q. none)
unfolding ptr_value
colliding-DeletesHeld = ((5, refl), refl)

run-refines_example :
    (m' : HashMap ℕ) × (run ptr_value colliding hashmap_init ≡ some m')
    × IsTable ptr_value (λ k. k) m'
    × Represents ptr_value m' (replay ptr_value colliding (λ q. none))
run-refines_example =
    run-refines ptr_value (λ k. k) ptr_value-IsLawful colliding hashmap_init (λ q. none)
      hashmap_init-IsTable hashmap_init-Represents colliding-DeletesHeld

abbrev no_value : Bucket ℕ
no_value = empty

-- One value in a table of 32.
abbrev one_value : HashMap ℕ
one_value = record {
  buckets = full 30 ∷ replicate 31 no_value;
  buckets_size = 32;
  entries = 1;
  freed = [];
}

all_empty : (n i : ℕ) → get_or (replicate n no_value) i no_value ≡ no_value
all_empty zero i = refl
all_empty (suc n) zero = refl
all_empty (suc n) (suc i) = all_empty n i

one_value-found :
    (i a : ℕ) → bucket ptr_value one_value i ≡ full a → Walk ptr_value one_value a i ((a + 2) % 32)
unfolding ptr_value
one_value-found zero a e =
    subst (λ b. Walk ptr_value one_value b 0 ((b + 2) % 32)) (full_inj e) here
one_value-found (suc i) a e = absurd (let p : no_value ≡ full a = sym (all_empty 31 i) ∙ e in cc)

one_value-IsProbed : IsProbed ptr_value (λ k. k) one_value
unfolding ptr_value
one_value-IsProbed = record {
  size = refl;
  counted = omega arith;
  spare = omega arith;
  found = one_value-found;
}

one_value-lookup : lookup ptr_value one_value 5 ≡ some empty
unfolding lookup get_bucket probe ptr_value
one_value-lookup = refl

delete_value-absent_example :
    (m' : HashMap ℕ) × (deletions ptr_value (λ k. k) 31 one_value 5 ≡ some m')
    × (m'.entries ≡ 1)
    × (probe ptr_value m' 5 false 100 0 none ≡ none)
delete_value-absent_example =
    delete_value-absent ptr_value (λ k. k) ptr_value-IsLawful one_value 5 5 false 100 0
      one_value-IsProbed one_value-lookup one_value-lookup (omega arith)
