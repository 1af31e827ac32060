-- ===== src/Kernel/List/Items.antt =====
-- The growing array against the list of its items.
use petix.Prelude.{
  ℕ, zero, suc, ◌-◌, ◌*◌, ◌≤◌, ◌<◌, ◌≡◌, refl, ◌∙◌, ap, List, [], ◌∷◌, ◌++◌, some, ◌==◌,
  if◌then◌else◌, set, replicate, arith, Bool-cases, inl, inr, length, length-append,
  length-replicate, length-set, take, ==→ne,
}
use petix.Kernel.List.{
  GrowList, list_init, list_release, grow, list_append, list_release_nt, list_pop,
}

module _ {ℓ} {A : Type ℓ} where
  pub record IsList (l : GrowList A) : Type 0 where
    pub room : l.size ≤ l.cap
    pub held : length l.data_items ≡ l.cap

  abbrev pub items : GrowList A → List A
  items l = take l.size l.data_items

  take-set :
      (xs : List A) (n : ℕ) (x : A)
      → n < length xs
      → take (suc n) (set xs n x) ≡ take n xs ++ x ∷ []
  take-set [] n x h = absurd (omega arith)
  take-set (y ∷ xs) zero x h = refl
  take-set (y ∷ xs) (suc n) x h = ap (λ t. y ∷ t) (take-set xs n x (omega arith))

  take-set_front : (xs : List A) (n : ℕ) (x : A) → take n (set xs n x) ≡ take n xs
  take-set_front [] zero x = refl
  take-set_front [] (suc n) x = refl
  take-set_front (y ∷ xs) zero x = refl
  take-set_front (y ∷ xs) (suc n) x = ap (λ t. y ∷ t) (take-set_front xs n x)

  take-front : (xs ys : List A) (n : ℕ) → n ≤ length xs → take n (xs ++ ys) ≡ take n xs
  take-front [] ys zero h = refl
  take-front [] ys (suc n) h = absurd (omega arith)
  take-front (x ∷ xs) ys zero h = refl
  take-front (x ∷ xs) ys (suc n) h = ap (λ t. x ∷ t) (take-front xs ys n (omega arith))

  grow-IsList :
      (garbage : A) (l : GrowList A)
      → IsList l
      → (l.size < length (grow garbage l).data_items)
        × (length (grow garbage l).data_items ≡ (grow garbage l).cap)
        × (take l.size (grow garbage l).data_items ≡ items l)
  unfolding grow
  grow-IsList garbage l v = elim (Bool-cases (l.size == l.cap)) [
    | inl full ↦ rw full (
      ground (
        arith,
        v.held,
        v.room,
        length-append l.data_items (replicate (new_cap - l.cap) garbage),
        length-replicate (new_cap - l.cap) garbage,
      ),
      ground (
        arith,
        v.held,
        length-append l.data_items (replicate (new_cap - l.cap) garbage),
        length-replicate (new_cap - l.cap) garbage,
      ),
      take-front l.data_items (replicate (new_cap - l.cap) garbage) l.size
          (omega (arith, v.room, v.held)),
    )
    | inr other ↦ rw other (omega (arith, v.room, v.held, ==→ne l.size l.cap other), v.held, refl)
  ]
    where
      new_cap : ℕ
      new_cap = if l.cap == 0 then 32 else 2 * l.cap

  abbrev appended : A → A → GrowList A → GrowList A
  appended garbage item l = record (grow garbage l) {
    size = suc l.size;
    data_items = set (grow garbage l).data_items l.size item;
  }

  append_run :
      (garbage item : A) (l : GrowList A)
      → IsList l
      → list_append garbage item l ≡ some (appended garbage item l)
  unfolding list_append
  append_run garbage item l v = ground (arith, v.room)

  -- `list_append` on a list in order fails no assertion and keeps the order. It adds the item behind
  -- the others, growing the array where there is no room, and `list_pop` takes it back.
  pub list_append-items :
      (garbage item : A) (l : GrowList A)
      → IsList l
      → (l' : GrowList A) × (list_append garbage item l ≡ some l')
        × IsList l'
        × (items l' ≡ items l ++ item ∷ [])
        × (l'' : GrowList A) × (list_pop l' ≡ some l'')
        × IsList l''
        × (items l'' ≡ items l)
  unfolding list_pop
  list_append-items garbage item l v = (
    appended garbage item l,
    append_run garbage item l v,
    record {
      room = omega (arith, g.0, g.1);
      held = length-set (grow garbage l).data_items l.size item ∙ g.1;
    },
    take-set (grow garbage l).data_items l.size item g.0 ∙ ap (λ t. t ++ item ∷ []) g.2,
    record (appended garbage item l) { size = l.size },
    ground arith,
    record {
      room = omega (arith, g.0, g.1);
      held = length-set (grow garbage l).data_items l.size item ∙ g.1;
    },
    take-set_front (grow garbage l).data_items l.size item ∙ g.2,
  )
    where
      g :
          (l.size < length (grow garbage l).data_items)
          × (length (grow garbage l).data_items ≡ (grow garbage l).cap)
          × (take l.size (grow garbage l).data_items ≡ items l)
      g = grow-IsList garbage l v

  -- `list_release_nt` on a list in order hands over the items with one of zeros behind them, and
  -- leaves the list as `list_init` does.
  pub list_release_nt-items :
      (garbage zeros : A) (l : GrowList A)
      → IsList l
      → (array : List A) × (list_release_nt garbage zeros l ≡ some (array, list_init))
        × (take (suc l.size) array ≡ items l ++ zeros ∷ [])
  unfolding list_release_nt list_release list_init
  list_release_nt-items garbage zeros l v =
      let g = grow-IsList garbage l v in
      (
        (appended garbage zeros l).data_items,
        rw (list_release_nt, append_run garbage zeros l v) refl,
        take-set (grow garbage l).data_items l.size zeros g.0 ∙ ap (λ t. t ++ zeros ∷ []) g.2,
      )
