-- ===== src/Kernel/HashMap.antt =====
-- kernel/container/hashmap.c: open addressing with linear probing and tombstones.
pub mod Walk
pub mod Table
pub mod Insert
pub mod Rehash
pub mod Refines
pub mod Absent
mod Tests
use petix.Prelude.{
  ℕ, zero, suc, ◌+◌, ◌*◌, ◌%◌, Bool, true, false, List, [], ◌∷◌, ◌++◌, Option, none, some, leb, ltb,
  ◌-◌, ◌^◌, ◌==◌, ◌||◌, if◌then◌else◌, get_or, set, replicate, ℤ, pos, sub_ℕ, eqb_ℤ,
}

-- A pointer in the table: NULL, the address 1, or the address of a value.
pub data Bucket {ℓ} (A : Type ℓ) : Type ℓ where
  empty : Bucket A
  tombstone : Bucket A
  full : A → Bucket A

-- The callbacks of `hashmap_init`. `cmp` reads what it is given as a value, a tombstone too;
-- `frees` tells whether `free` is there.
pub record Callbacks {ℓ} (A : Type ℓ) : Type ℓ where
  pub hash : A → ℕ
  pub cmp : Bucket A → A → ℤ
  pub frees : Bool

-- `struct hashmap`, with the pointers that `free` was given, in order.
pub record HashMap {ℓ} (A : Type ℓ) : Type ℓ where
  pub buckets : List (Bucket A)
  pub buckets_size : ℕ
  pub entries : ℕ
  pub freed : List (Bucket A)

abbrev pub min_buckets : ℕ
min_buckets = 32

abbrev pub at_end : Bool → ℕ → Option ℕ → ℕ
at_end true index (some i) = i
at_end true index none = index
at_end false index ts = index

module _ {ℓ} {A : Type ℓ} where
  abbrev pub is_empty : Bucket A → Bool
  is_empty empty = true
  is_empty tombstone = false
  is_empty (full a) = false

  abbrev pub first_tombstone : Bucket A → ℕ → Option ℕ → Option ℕ
  first_tombstone tombstone index none = some index
  first_tombstone tombstone index (some i) = some i
  first_tombstone empty index ts = ts
  first_tombstone (full a) index ts = ts

  -- The loop of `get_bucket` from `index` on; `none` is a loop that has not ended.
  unfoldable pub probe : Callbacks A → HashMap A → A → Bool → ℕ → ℕ → Option ℕ → Option ℕ
  probe ops m v allow_ts zero index ts = none
  probe ops m v allow_ts (suc fuel) index ts =
      let b = get_or m.buckets index empty in
      let rest =
        probe ops m v allow_ts fuel (suc index % m.buckets_size) (first_tombstone b index ts) in
      if is_empty b
      then some (at_end allow_ts index ts)
      else if eqb_ℤ (ops.cmp b v) (pos 0)
      then some index
      else rest

  unfoldable pub get_bucket : Callbacks A → HashMap A → A → Bool → Option ℕ
  get_bucket ops m v allow_ts =
      probe ops m v allow_ts m.buckets_size (ops.hash v % m.buckets_size) none

  -- What `insert_op` does with the bucket it found.
  unfoldable pub insert_at : Callbacks A → HashMap A → A → ℕ → HashMap A
  insert_at ops m v index =
      let b = get_or m.buckets index empty in
      record m {
        buckets = set m.buckets index (full v);
        entries = if is_empty b then suc m.entries else m.entries;
        freed = if is_empty b then m.freed else if ops.frees then m.freed ++ b ∷ [] else m.freed;
      }

  unfoldable pub insert_op : Callbacks A → HashMap A → A → Option (HashMap A)
  insert_op ops m v = elim (get_bucket ops m v true) [
    | none ↦ none
    | some index ↦ some (insert_at ops m v index)
  ]

  -- The loop of `rehash` over the old buckets.
  unfoldable pub reinsert : Callbacks A → List (Bucket A) → HashMap A → Option (HashMap A)
  reinsert ops [] m = some m
  reinsert ops (empty ∷ bs) m = reinsert ops bs m
  reinsert ops (tombstone ∷ bs) m = reinsert ops bs m
  reinsert ops (full a ∷ bs) m = elim (insert_op ops m a) [
    | none ↦ none
    | some m' ↦ reinsert ops bs m'
  ]

  abbrev pub emptied : HashMap A → ℕ → HashMap A
  emptied m n = record m { buckets = replicate n empty; buckets_size = n; entries = 0 }

  unfoldable pub rehash : Callbacks A → HashMap A → ℕ → Option (HashMap A)
  rehash ops m new_buckets = reinsert ops m.buckets (emptied m new_buckets)

  -- `lf > rehash_factor`: an empty table has the load factor infinity, and entries over buckets is
  -- above 0.8 by more than the quotient's error where it is above it at all.
  -- The load with 10^-11 entries more is above 0.8.
  unfoldable pub is_loaded : HashMap A → Bool
  is_loaded m = (m.buckets_size == 0) || leb (4 * m.buckets_size) (5 * m.entries)

  unfoldable pub insert_value : Callbacks A → HashMap A → A → Option (HashMap A)
  insert_value ops m v =
      elim (if is_loaded m
        then rehash ops m (if m.buckets_size == 0 then min_buckets else 2 * m.buckets_size)
        else some m) [ none ↦ none | some m' ↦ insert_op ops m' v ]

  -- The test `ptr != empty` is on the bucket's address, which is never NULL.
  unfoldable pub delete_value : Callbacks A → HashMap A → A → Option (HashMap A)
  delete_value ops m v = if m.buckets_size == 0 then some m else elim (get_bucket ops m v false) [
    | none ↦ none
    | some index ↦ some (record m { buckets = set m.buckets index tombstone })
  ]

  -- The bucket that `hashmap_get` and `hashmap_has_value` look at.
  unfoldable pub lookup : Callbacks A → HashMap A → A → Option (Bucket A)
  lookup ops m v = if m.buckets_size == 0 then some empty else elim (get_bucket ops m v false) [
    | none ↦ none
    | some index ↦ some (get_or m.buckets index empty)
  ]

  unfoldable pub has_value : Callbacks A → HashMap A → A → Option Bool
  has_value ops m v = elim (lookup ops m v) [
    | none ↦ none
    | some empty ↦ some false
    | some tombstone ↦ some true
    | some (full a) ↦ some true
  ]

  unfoldable pub hashmap_init : HashMap A
  hashmap_init = record { buckets = []; buckets_size = 0; entries = 0; freed = [] }

  -- `hashmap_free` gives `free` every bucket that is no tombstone, the empty ones too.
  abbrev pub not_tombstones : List (Bucket A) → List (Bucket A)
  not_tombstones [] = []
  not_tombstones (empty ∷ bs) = empty ∷ not_tombstones bs
  not_tombstones (tombstone ∷ bs) = not_tombstones bs
  not_tombstones (full a ∷ bs) = full a ∷ not_tombstones bs

  unfoldable pub hashmap_free : Callbacks A → HashMap A → HashMap A
  hashmap_free ops m = record {
    buckets = [];
    buckets_size = 0;
    entries = 0;
    freed = if ops.frees then m.freed ++ not_tombstones m.buckets else m.freed;
  }

  -- An iterator is the rest of the table from its bucket on. `none` is a read behind the table.
  unfoldable pub real_entry : List (Bucket A) → Option (List (Bucket A))
  real_entry [] = none
  real_entry (empty ∷ bs) = real_entry bs
  real_entry (tombstone ∷ bs) = real_entry bs
  real_entry (full a ∷ bs) = some (full a ∷ bs)

  -- The iterator NULL of a table without buckets stands for its end.
  unfoldable pub hashmap_begin : HashMap A → Option (List (Bucket A))
  hashmap_begin m = if m.buckets_size == 0 then some [] else real_entry m.buckets

  unfoldable pub hashmap_next : List (Bucket A) → Option (List (Bucket A))
  hashmap_next [] = none
  hashmap_next (b ∷ bs) = real_entry bs

-- A `char` added to a `size_t` of 32 bits: the signed byte wraps around.
abbrev pub signed_char : ℕ → ℕ
signed_char c = if ltb c 128 then c else c + 2 ^ 32 - 256

-- The loop of `string_value_hash` over the bytes of a string up to its zero.
unfoldable pub string_hash_from : ℕ → List ℕ → ℕ
string_hash_from hash [] = hash
string_hash_from hash (c ∷ cs) =
    let rest = string_hash_from ((7 * hash + signed_char c) % 2 ^ 32) cs in
    if c == 0 then hash else rest

unfoldable pub string_value_hash : List ℕ → ℕ
string_value_hash str = string_hash_from 0 str

-- `ptr_value_hash` and `ptr_value_cmp`. A pointer that is neither NULL nor 1 is k + 2 for some k.
unfoldable pub ptr_value : Callbacks ℕ
ptr_value = record { hash = λ k. k + 2; cmp = λ b k. sub_ℕ (address b) (k + 2); frees = false }
  where
    address : Bucket ℕ → ℕ
    address empty = 0
    address tombstone = 1
    address (full k) = k + 2

-- `struct hashmap_entry`.
pub record HashEntry : Type 0 where
  pub key : ℕ
  pub value : ℕ

-- `ptr_key_hash` and `ptr_key_cmp`, where `at_one` is the word at the address 1.
unfoldable pub ptr_key : ℕ → Callbacks HashEntry
ptr_key at_one = record { hash = λ e. e.key; cmp = λ b e. sub_ℕ (key_of b) e.key; frees = true }
  where
    key_of : Bucket HashEntry → ℕ
    key_of empty = 0
    key_of tombstone = at_one
    key_of (full e) = e.key

unfoldable pub hashmap_insert :
    Callbacks HashEntry → HashMap HashEntry → ℕ → ℕ → Option (HashMap HashEntry)
hashmap_insert ops m key value =
    if ops.frees then insert_value ops m (record { key = key; value = value }) else none

unfoldable pub hashmap_delete :
    Callbacks HashEntry → HashMap HashEntry → ℕ → Option (HashMap HashEntry)
hashmap_delete ops m key = delete_value ops m (record { key = key; value = 0 })

-- `hashmap_get`: NULL is the value 0. `none` is a read behind a tombstone, or no answer.
unfoldable pub hashmap_get : Callbacks HashEntry → HashMap HashEntry → ℕ → Option ℕ
hashmap_get ops m key = elim (lookup ops m (record { key = key; value = 0 })) [
  | none ↦ none
  | some empty ↦ some 0
  | some tombstone ↦ none
  | some (full e) ↦ some e.value
]
