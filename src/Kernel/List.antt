-- ===== src/Kernel/List.antt =====
-- kernel/container/list.c: the growing array. An element is an item of `item_size` bytes.
pub mod Items
mod Tests
use petix.Prelude.{
  ℕ, zero, suc, ◌+◌, ◌-◌, ◌*◌, Bool, true, false, List, [], ◌∷◌, ◌++◌, Option, none, some, ltb,
  ◌==◌, if◌then◌else◌, get_elem?, set, replicate,
}

-- `struct list`: `data` holds `cap` items.
pub record GrowList {ℓ} (A : Type ℓ) : Type ℓ where
  pub size : ℕ
  pub cap : ℕ
  pub data_items : List A

module _ {ℓ} {A : Type ℓ} where
  unfoldable pub list_init : GrowList A
  list_init = record { size = 0; cap = 0; data_items = [] }

  -- `list_release` hands the array over and leaves the list empty.
  unfoldable pub list_release : GrowList A → List A × GrowList A
  list_release l = (l.data_items, record { size = 0; cap = 0; data_items = [] })

  -- The growth of `list_append`; `garbage` is what `krealloc_sync` leaves in the new room.
  unfoldable pub grow : A → GrowList A → GrowList A
  grow garbage l =
      let cap = if l.cap == 0 then 32 else 2 * l.cap in
      if l.size == l.cap
      then record l { cap = cap; data_items = l.data_items ++ replicate (cap - l.cap) garbage }
      else l

  -- `list_append`; `none` is a failed assertion.
  unfoldable pub list_append : A → A → GrowList A → Option (GrowList A)
  list_append garbage item l =
      let g = grow garbage l in
      if ltb l.cap l.size
      then none
      else some (record g { size = suc l.size; data_items = set g.data_items l.size item })

  -- `list_release_nt` ends the array with an item of zeros.
  unfoldable pub list_release_nt : A → A → GrowList A → Option (List A × GrowList A)
  list_release_nt garbage zeros l = elim (list_append garbage zeros l) [
    | none ↦ none
    | some l' ↦ some (list_release l')
  ]

  unfoldable pub list_pop : GrowList A → Option (GrowList A)
  list_pop l = if l.size == 0 then none else some (record l { size = l.size - 1 })

  unfoldable pub list_at : GrowList A → ℕ → Option A
  list_at l index = if ltb index l.size then get_elem? l.data_items index else none
