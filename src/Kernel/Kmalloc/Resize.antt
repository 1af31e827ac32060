-- ===== src/Kernel/Kmalloc/Resize.antt =====
-- `krealloc` keeps the blocks apart.
use petix.Prelude.{
  ℕ, ◌+◌, ◌-◌, ◌≤◌, ◌<◌, ◌≡◌, ◌≢◌, refl, ◌∙◌, ap, sym, subst, true, not, ◌&&◌, ◌||◌, Option, List,
  [], ◌∷◌, some, ltb, leb, ◌==◌, arith, Bool-cases, inl, inr, ==→eq, ==→ne,
}
use petix.Kernel.Kmalloc.{
  header, min_split_size, Block, Heap, shrink_block, Resized, absent, in_place, moves, resize_top,
  resize_under, keep_above, resize_below, resize, krealloc, kfree, free_old,
}
use petix.Kernel.Kmalloc.Chain.{IsChain, IsHeap, lives, IsChain-raise, lives_below}
use petix.Kernel.Kmalloc.Alloc.{Takes, kmalloc-Takes, shrink_block-IsChain}
use petix.Kernel.Kmalloc.Free.{lives-has_block, kfree-Frees}

-- Of the blocks `bs`, in order below `limit`, one at `addr` is resized.
abbrev pub IsResized : ℕ → ℕ → ℕ → List Block → Resized → Type 0
IsResized limit addr size bs absent = (a n : ℕ) → lives a n bs ≡ true → a ≢ addr
IsResized limit addr size bs (in_place bs' up) =
    IsChain (limit + up) bs'
    × ((a n : ℕ) → a ≢ addr → lives a n bs' ≡ lives a n bs)
    × ((m : ℕ) → lives addr m bs ≡ true → (n : ℕ) × (size ≤ n) × (lives addr n bs' ≡ true))
IsResized limit addr size bs moves = Unit

-- The same below another block, where the break stays.
abbrev pub IsStill : Resized → Type 0
IsStill absent = Unit
IsStill (in_place bs up) = up ≡ 0
IsStill moves = Unit

-- Shrinking a block leaves those at other addresses.
shrink_block-others :
    (limit size a n : ℕ) (b : Block) (below : List Block)
    → a ≢ b.addr
    → lives a n (shrink_block b size below) ≡ lives a n (b ∷ below)
unfolding shrink_block
shrink_block-others limit size a n b below d = ground (arith, d)

-- Where a block in use has the address of the first block, that one is it.
own_used :
    (limit addr m : ℕ) (b : Block) (below : List Block)
    → IsChain limit (b ∷ below)
    → b.addr ≡ addr
    → lives addr m (b ∷ below) ≡ true
    → b.used ≡ true
own_used limit addr m b below c e l = ground (arith, lives_below b.addr below addr m c.2)

shrink_block-fits :
    (size addr : ℕ) (b : Block) (below : List Block)
    → size ≤ b.len
    → b.addr ≡ addr
    → b.used ≡ true
    → (n : ℕ) × (size ≤ n) × (lives addr n (shrink_block b size below) ≡ true)
unfolding shrink_block
shrink_block-fits size addr b below h e u = elim (Bool-cases (leb min_split_size (b.len - size))) [
  | inl split ↦ rw split (size, omega arith, ground (arith, e, u))
  | inr whole ↦ rw whole (b.len, h, ground (arith, e, u))
]

resize_top-IsResized :
    (limit addr size : ℕ) (b : Block) (below : List Block)
    → IsChain limit (b ∷ below)
    → b.addr ≡ addr
    → IsResized limit addr size (b ∷ below) (resize_top size b below)
unfolding resize_top
resize_top-IsResized limit addr size b below c e = elim (Bool-cases (ltb size b.len)) [
  | inl less ↦ rw less (
    IsChain-raise limit (limit + 0) (shrink_block b size below) (omega arith)
        (shrink_block-IsChain limit size b below (ground arith) c),
    λ a n d. shrink_block-others limit size a n b below (omega (arith, d, e)),
    λ m l.
        shrink_block-fits size addr b below (ground arith) e (own_used limit addr m b below c e l),
  )
  | inr more ↦ rw more (
    (c.0, ground (arith, c.1), c.2),
    λ a n d. ground (arith, d, e),
    λ m l. (size, omega arith, ground (arith, e, own_used limit addr m b below c e l)),
  )
]

resize_under-IsResized :
    (limit addr size : ℕ) (next b : Block) (below : List Block)
    → IsChain limit (next ∷ b ∷ below)
    → b.addr ≡ addr
    → IsResized limit addr size (next ∷ b ∷ below) (resize_under size next b below)
unfolding resize_under
resize_under-IsResized limit addr size next b below c e = elim (Bool-cases (ltb size b.len)) [
  | inl less ↦ rw less (
    (c.0, omega (arith, c.1), shrink_block-IsChain next.addr size b below (ground arith) c.2),
    λ a n d.
        ap (λ l. (next.used && (next.addr == a && next.len == n)) || l)
          (shrink_block-others limit size a n b below (omega (arith, d, e))),
    λ m l.
        let (n, h, k) = shrink_block-fits size addr b below (ground arith) e (used m l) in
        (n, h, ground (arith, k)),
  )
  | inr more ↦ elim (Bool-cases (not next.used && leb size (next.addr - b.addr + next.len))) [
    | inl merge ↦
        rw (more, merge)
          (
            (c.2.0, omega (arith, c.1, c.2.1), c.2.2),
            λ a n d. ground (arith, d, e, merge),
            λ m l.
                (next.addr - b.addr + next.len, ground (arith, merge), ground (arith, e, used m l)),
          )
    | inr other ↦ rw (more, other) tt
  ]
]
  where
    used : (m : ℕ) → lives addr m (next ∷ b ∷ below) ≡ true → b.used ≡ true
    used m l = own_used next.addr addr m b below c.2 e (ground (arith, l, e, c.2.1))

resize_under-IsStill :
    (size : ℕ) (next b : Block) (below : List Block) → IsStill (resize_under size next b below)
unfolding resize_under
resize_under-IsStill size next b below = elim (Bool-cases (ltb size b.len)) [
  | inl less ↦ rw less refl
  | inr more ↦ elim (Bool-cases (not next.used && leb size (next.addr - b.addr + next.len))) [
    | inl merge ↦ rw (more, merge) refl
    | inr other ↦ rw (more, other) tt
  ]
]

keep_above-IsStill : (next : Block) (r : Resized) → IsStill r → IsStill (keep_above next r)
keep_above-IsStill next absent h = tt
keep_above-IsStill next (in_place bs up) h = h
keep_above-IsStill next moves h = tt

keep_above-IsResized :
    (limit addr size : ℕ) (next : Block) (below : List Block) (r : Resized)
    → IsChain limit (next ∷ below)
    → next.addr ≢ addr
    → IsStill r
    → IsResized next.addr addr size below r
    → IsResized limit addr size (next ∷ below) (keep_above next r)
keep_above-IsResized limit addr size next below absent c d still h =
    λ a n l e. ground (arith, h a n)
keep_above-IsResized limit addr size next below (in_place bs up) c d still h = (
  (c.0, omega (arith, c.1), IsChain-raise (next.addr + up) next.addr bs (omega arith) h.0),
  λ a n e. ap (λ l. (next.used && (next.addr == a && next.len == n)) || l) (h.1 a n e),
  λ m l. let (n, k, j) = h.2 m (ground (arith, l, d)) in (n, k, ground (arith, j)),
)
keep_above-IsResized limit addr size next below moves c d still h = tt

resize_below-IsResized :
    (limit addr size : ℕ) (next : Block) (below : List Block)
    → IsChain limit (next ∷ below)
    → next.addr ≢ addr
    → IsStill (resize_below addr size next below)
      × IsResized limit addr size (next ∷ below) (resize_below addr size next below)
unfolding resize_below
resize_below-IsResized limit addr size next [] c d = (tt, λ a n l e. ground arith)
resize_below-IsResized limit addr size next (b ∷ below) c d = elim (Bool-cases (b.addr == addr)) [
  | inl e ↦ rw e (
    resize_under-IsStill size next b below,
    resize_under-IsResized limit addr size next b below c (==→eq b.addr addr e),
  )
  | inr n ↦
      let (still, h) =
        resize_below-IsResized next.addr addr size b below c.2 (==→ne b.addr addr n) in
      rw n (
        keep_above-IsStill next (resize_below addr size b below) still,
        keep_above-IsResized limit addr size next (b ∷ below) (resize_below addr size b below) c d
            still h,
      )
]

resize-IsResized :
    (limit addr size : ℕ) (bs : List Block)
    → IsChain limit bs
    → IsResized limit addr size bs (resize addr size bs)
unfolding resize
resize-IsResized limit addr size [] c = λ a n l e. cc
resize-IsResized limit addr size (b ∷ below) c = elim (Bool-cases (b.addr == addr)) [
  | inl e ↦ rw e (resize_top-IsResized limit addr size b below c (==→eq b.addr addr e))
  | inr n ↦ rw n ((resize_below-IsResized limit addr size b below c (==→ne b.addr addr n)).1)
]

-- After `krealloc` the block at `new` is in use with at least `size` bytes; the others in use,
-- but for the one at `addr`, stay, at other addresses.
pub record Moves (size addr new : ℕ) (h h' : Heap) : Type 0 where
  pub valid : IsHeap h'
  pub fits : (n : ℕ) × (size ≤ n) × (lives new n h'.blocks ≡ true)
  pub kept :
      (a n : ℕ) → a ≢ addr → lives a n h.blocks ≡ true → (lives a n h'.blocks ≡ true) × (a ≢ new)

-- The old block is freed once the new one was taken.
freed-Moves :
    (addr m size new : ℕ) (h h' : Heap)
    → lives addr m h.blocks ≡ true
    → IsHeap h'
    → Takes size new h.blocks h'.blocks
    → (h'' : Heap) × (kfree (some (addr + header)) h' ≡ some h'') × Moves size addr new h h''
freed-Moves addr m size new h h' l c' t =
    let (h'', e, f, same, _) =
      kfree-Frees addr h' c' (lives-has_block addr m h'.blocks (t.kept addr m l).0) in
    let (n, large, at_new) = t.fits in
    let apart : addr ≢ new = (t.kept addr m l).1 in
    (
      h'',
      e,
      record {
        valid = subst (λ k. IsChain k h''.blocks) (sym same) f.0;
        fits = (n, large, f.1 new n ∙ ground (arith, apart, at_new));
        kept = λ a k d j. (f.1 a k ∙ ground (arith, d, (t.kept a k j).0), (t.kept a k j).1);
      },
    )

free_old-kfree :
    (ptr : ℕ) (new : Option ℕ) (h h' : Heap)
    → kfree (some ptr) h ≡ some h'
    → free_old ptr (new, h) ≡ some (new, h')
unfolding free_old
free_old-kfree ptr new h h' e = rw (free_old, e) refl

-- In a heap whose blocks are in order and apart, `krealloc` of a block in use to more than zero bytes
-- never fails. It returns the memory of a block with at least the new size, the same one or another;
-- the other blocks in use keep their places and sizes, and no two blocks overlap afterwards.
pub krealloc-Moves :
    (addr m size : ℕ) (h : Heap)
    → IsHeap h
    → lives addr m h.blocks ≡ true
    → 0 < size
    → (new : ℕ) × (h' : Heap) × (krealloc (some (addr + header)) size h
        ≡ some (some (new + header), h'))
      × Moves size addr new h h'
unfolding krealloc
krealloc-Moves addr m size h c l positive =
    by_result (resize addr size h.blocks) (ap (λ a. resize a size h.blocks) same)
      (resize-IsResized h.brk addr size h.blocks c)
  where
    same : addr + header - header ≡ addr
    same = omega arith

    by_result :
        (r : Resized)
        → resize (addr + header - header) size h.blocks ≡ r
        → IsResized h.brk addr size h.blocks r
        → (new : ℕ) × (h' : Heap) × (krealloc (some (addr + header)) size h
            ≡ some (some (new + header), h'))
          × Moves size addr new h h'
    by_result absent e f = absurd (f addr m l refl)
    by_result (in_place bs up) e (f0, f1, f2) = (
      addr,
      record { blocks = bs; brk = h.brk + up },
      rw (krealloc, e) refl,
      record { valid = f0; fits = f2 m l; kept = λ a n d j. (f1 a n d ∙ j, d) },
    )
    by_result moves e f = elim (kmalloc-Takes size h c) [
      | inl (z, _) ↦ absurd (omega arith)
      | inr (_, new, h', k, al, c', t) ↦
          let (h'', freed, v) = freed-Moves addr m size new h h' l c' t in
          (
            new,
            h'',
            rw (krealloc, e)
                (ap (free_old (addr + header)) k
                  ∙ free_old-kfree (addr + header) (some (new + header)) h' h'' freed),
            v,
          )
    ]
