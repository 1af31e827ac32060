-- ===== src/Kernel/List/Tests.antt =====
-- A list with one item in room for two.
use petix.Prelude.{ℕ, ◌≡◌, refl, [], ◌∷◌, ◌++◌, some, arith}
use petix.Kernel.List.{GrowList, list_append, list_pop}
use petix.Kernel.List.Items.{IsList, items, list_append-items}

abbrev one_item : GrowList ℕ
one_item = record { size = 1; cap = 2; data_items = 7 ∷ 0 ∷ [] }

one_item-IsList : IsList one_item
one_item-IsList = record { room = omega arith; held = refl }

list_append-items_example :
    (l' : GrowList ℕ) × (list_append 0 8 one_item ≡ some l')
    × IsList l'
    × (items l' ≡ items one_item ++ 8 ∷ [])
    × (l'' : GrowList ℕ) × (list_pop l' ≡ some l'')
    × IsList l''
    × (items l'' ≡ items one_item)
list_append-items_example = list_append-items 0 8 one_item one_item-IsList
