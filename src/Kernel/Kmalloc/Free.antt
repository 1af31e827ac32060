-- ===== src/Kernel/Kmalloc/Free.antt =====
-- `kfree` takes a block out of use and joins it to its neighbours.
use petix.Prelude.{
  subst, ℕ, ◌+◌, ◌-◌, ◌≡◌, ◌≢◌, refl, true, false, not, ◌&&◌, List, [], ◌∷◌, none, some, ◌==◌,
  arith, Bool-cases, inl, inr, ==→eq, ==→ne,
}
use petix.Kernel.Kmalloc.{
  header, Block, Heap, block_merge_next, merge_prev, free_under, free_below, free_block, has_block,
  kfree,
}
use petix.Kernel.Kmalloc.Chain.{IsChain, IsHeap, lives, lives_below}

-- The blocks do not overlap, and in use are those that were, but for the address `addr`.
abbrev pub Frees : ℕ → ℕ → List Block → List Block → Type 0
Frees limit addr bs bs' =
    IsChain limit bs' × ((a n : ℕ) → lives a n bs' ≡ (not (a == addr) && lives a n bs))

merge_prev-Frees :
    (limit addr : ℕ) (b : Block) (below : List Block)
    → IsChain limit (b ∷ below)
    → b.addr ≡ addr
    → b.used ≡ false
    → Frees limit addr (b ∷ below) (merge_prev b below)
unfolding merge_prev
merge_prev-Frees limit addr b [] c e u = (c, λ a n. ground arith)
merge_prev-Frees limit addr b (prev ∷ below) c e u = elim (Bool-cases prev.used) [
  | inl used ↦
      subst (Frees limit addr (b ∷ prev ∷ below)) (kept used)
        (c, λ a n. ground (arith, c.2.1, lives_below prev.addr below a n c.2.2))
  | inr free ↦ subst (Frees limit addr (b ∷ prev ∷ below)) (joined free) (
    (c.2.0, omega (arith, c.1, c.2.1), c.2.2),
    λ a n. ground (arith, c.2.1, lives_below prev.addr below a n c.2.2),
  )
]
  where
    kept : prev.used ≡ true → b ∷ prev ∷ below ≡ merge_prev b (prev ∷ below)
    kept used = rw used refl

    joined : prev.used ≡ false → block_merge_next prev b ∷ below ≡ merge_prev b (prev ∷ below)
    joined free = rw free refl

free_under-Frees :
    (limit addr : ℕ) (next b : Block) (below : List Block)
    → IsChain limit (next ∷ b ∷ below)
    → b.addr ≡ addr
    → Frees limit addr (next ∷ b ∷ below) (free_under next b below)
unfolding free_under
free_under-Frees limit addr next b below c e = elim (Bool-cases next.used) [
  | inl used ↦
      let (c', l) = merge_prev-Frees next.addr addr (record b { used = false }) below c.2 e refl in
      subst (Frees limit addr (next ∷ b ∷ below)) (kept used)
        ((c.0, c.1, c'), λ a n. ground (arith, l a n, c.2.1, lives_below b.addr below a n c.2.2))
  | inr free ↦
      let (c', l) =
        merge_prev-Frees limit addr (block_merge_next (record b { used = false }) next) below
          (c.2.0, omega (arith, c.1, c.2.1), c.2.2) e refl in
      subst (Frees limit addr (next ∷ b ∷ below)) (joined free)
        (c', λ a n. ground (arith, l a n, c.2.1, lives_below b.addr below a n c.2.2))
]
  where
    kept :
        next.used ≡ true
        → next ∷ merge_prev (record b { used = false }) below ≡ free_under next b below
    kept used = rw used refl

    joined :
        next.used ≡ false
        → merge_prev (block_merge_next (record b { used = false }) next) below
          ≡ free_under next b below
    joined free = rw free refl

free_below-Frees :
    (limit addr : ℕ) (next : Block) (below : List Block)
    → IsChain limit (next ∷ below)
    → next.addr ≢ addr
    → Frees limit addr (next ∷ below) (free_below addr next below)
unfolding free_below
free_below-Frees limit addr next [] c d = (c, λ a n. ground arith)
free_below-Frees limit addr next (b ∷ below) c d = elim (Bool-cases (b.addr == addr)) [
  | inl e ↦ rw e (free_under-Frees limit addr next b below c (==→eq b.addr addr e))
  | inr n ↦
      let (c', l) = free_below-Frees next.addr addr b below c.2 (==→ne b.addr addr n) in
      rw n ((c.0, c.1, c'), λ a m. ground (arith, l a m))
]

free_block-Frees :
    (limit addr : ℕ) (bs : List Block) → IsChain limit bs → Frees limit addr bs (free_block addr bs)
unfolding free_block
free_block-Frees limit addr [] c = (tt, λ a n. ground arith)
free_block-Frees limit addr (b ∷ below) c = elim (Bool-cases (b.addr == addr)) [
  | inl e ↦ rw e (free_own limit b below addr c (==→eq b.addr addr e))
  | inr n ↦ rw n (free_below-Frees limit addr b below c (==→ne b.addr addr n))
]
  where
    free_own :
        (limit : ℕ) (b : Block) (below : List Block) (addr : ℕ)
        → IsChain limit (b ∷ below)
        → b.addr ≡ addr
        → Frees limit addr (b ∷ below) (merge_prev (record b { used = false }) below)
    free_own limit b below addr c e =
        let (c', l) = merge_prev-Frees limit addr (record b { used = false }) below c e refl in
        (c', λ a n. ground (arith, l a n))

-- A block in use is in the list.
pub lives-has_block :
    (addr n : ℕ) (bs : List Block) → lives addr n bs ≡ true → has_block addr bs ≡ true
unfolding has_block
lives-has_block addr n [] l = absurd cc
lives-has_block addr n (b ∷ below) l = ground (arith, lives-has_block addr n below)

-- In a heap whose blocks are in order and apart, `kfree` of the pointer to a block of its list takes
-- exactly that block out of use: every other keeps its place and size, and the blocks still do not
-- overlap, joined or not. Where the block is not in use any more, nothing is taken out of use.
-- `kfree` of NULL changes nothing.
pub kfree-Frees :
    (addr : ℕ) (h : Heap)
    → IsHeap h
    → has_block addr h.blocks ≡ true
    → (h' : Heap) × (kfree (some (addr + header)) h ≡ some h')
      × Frees h.brk addr h.blocks h'.blocks
      × (h'.brk ≡ h.brk)
      × (kfree none h ≡ some h)
unfolding kfree
kfree-Frees addr h c there =
    let same : addr + header - header ≡ addr = omega arith in
    (
      record h { blocks = free_block addr h.blocks },
      rw (same, there) refl,
      free_block-Frees h.brk addr h.blocks c,
      refl,
      refl,
    )
