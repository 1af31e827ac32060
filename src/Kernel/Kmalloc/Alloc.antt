-- ===== src/Kernel/Kmalloc/Alloc.antt =====
-- `kmalloc` hands out memory that no block in use has.
use petix.Prelude.{
  ℕ, ◌+◌, ◌-◌, ◌%◌, ◌≤◌, ◌<◌, ◌≡◌, ◌≢◌, refl, true, false, not, ◌&&◌, List, [], ◌∷◌, none, some,
  leb, ◌==◌, arith, Bool-cases, inl, inr, ◌⊎◌, ==→eq,
}
use petix.Kernel.Kmalloc.{
  header, min_split_size, align8, Block, Heap, push_block, shrink_block, get_free_block, kmalloc,
}
use petix.Kernel.Kmalloc.Chain.{IsChain, IsHeap, lives, IsChain-raise, lives_below, lives_aligned}

-- From the blocks `bs` to `bs'` the block at `addr` came into use, with at least `size` bytes. The
-- others in use stay, at other addresses.
pub record Takes (size addr : ℕ) (bs bs' : List Block) : Type 0 where
  pub fits : (n : ℕ) × (size ≤ n) × (lives addr n bs' ≡ true)
  pub kept : (a n : ℕ) → lives a n bs ≡ true → (lives a n bs' ≡ true) × (a ≢ addr)

pub shrink_block-IsChain :
    (limit size : ℕ) (b : Block) (below : List Block)
    → size ≤ b.len
    → IsChain limit (b ∷ below)
    → IsChain limit (shrink_block b size below)
unfolding shrink_block
shrink_block-IsChain limit size b below h c = ground (arith, c.0, c.1, c.2)

shrink_block-Takes :
    (limit size : ℕ) (b : Block) (below : List Block)
    → size ≤ b.len
    → b.used ≡ false
    → IsChain limit (b ∷ below)
    → Takes size b.addr (b ∷ below) (shrink_block (record b { used = true }) size below)
unfolding shrink_block
shrink_block-Takes limit size b below h u c =
    elim (Bool-cases (leb min_split_size (b.len - size))) [
      | inl split ↦ rw split record {
        fits = (size, omega arith, ground arith);
        kept = λ a n l. ground (arith, lives_below b.addr below a n c.2);
      }
      | inr whole ↦ rw whole record {
        fits = (b.len, h, ground arith);
        kept = λ a n l. ground (arith, lives_below b.addr below a n c.2);
      }
    ]

-- A block below one that stays.
Takes-below :
    (limit size addr : ℕ) (b : Block) (below below' : List Block)
    → IsChain limit (b ∷ below)
    → IsChain b.addr below'
    → Takes size addr below below'
    → Takes size addr (b ∷ below) (b ∷ below')
Takes-below limit size addr b below below' c c' t =
    let (n, large, l) = t.fits in
    record {
      fits = (n, large, ground arith);
      kept = λ a m k. ground (arith, lives_below b.addr below' addr n c' l, t.kept a m);
    }

pub get_free_block-Takes :
    (limit size : ℕ) (bs : List Block)
    → IsChain limit bs
    → (get_free_block size bs ≡ none)
      ⊎ ((addr : ℕ) × (bs' : List Block) × (get_free_block size bs ≡ some (addr, bs'))
          × IsChain limit bs'
          × Takes size addr bs bs')
unfolding get_free_block
get_free_block-Takes limit size [] c = inl refl
get_free_block-Takes limit size (b ∷ below) c = elim (Bool-cases (not b.used && leb size b.len)) [
  | inl free ↦ inr (
    b.addr,
    shrink_block (record b { used = true }) size below,
    rw free refl,
    shrink_block-IsChain limit size (record b { used = true }) below (ground arith) c,
    shrink_block-Takes limit size b below (ground arith) (ground arith) c,
  )
  | inr other ↦ elim (get_free_block-Takes b.addr size below c.2) [
    | inl e ↦ inl (rw (other, e) refl)
    | inr (addr, below', e, c', t) ↦ inr (
      addr,
      b ∷ below',
      rw (other, e) refl,
      (c.0, c.1, c'),
      Takes-below limit size addr b below below' c c' t,
    )
  ]
]

push_block-Takes :
    (size : ℕ) (h : Heap)
    → IsHeap h
    → IsHeap (push_block size h).1
      × Takes size (push_block size h).0 h.blocks (push_block size h).1.blocks
unfolding push_block
push_block-Takes size h c = (
  (omega arith, omega arith, IsChain-raise h.brk (h.brk + align8 h.brk) h.blocks (omega arith) c),
  record {
    fits = (size, omega arith, ground arith);
    kept = λ a n l. (ground (arith, l), omega (arith, lives_below h.brk h.blocks a n c l));
  },
)

-- In a heap whose blocks are in order and apart, `kmalloc` of at least one byte never fails. It
-- returns the memory of a block of at least that size that was not in use, aligned to 8 bytes; every
-- other block in use keeps its place and size, and the blocks do not overlap afterwards either. Of no
-- bytes it returns NULL and changes nothing.
pub kmalloc-Takes :
    (size : ℕ) (h : Heap)
    → IsHeap h
    → ((size ≡ 0) × (kmalloc size h ≡ (none, h)))
      ⊎ ((0 < size)
          × (addr : ℕ) × (h' : Heap) × (kmalloc size h ≡ (some (addr + header), h'))
          × ((addr + header) % 8 ≡ 0)
          × IsHeap h'
          × Takes size addr h.blocks h'.blocks)
unfolding kmalloc
kmalloc-Takes size h c = elim (Bool-cases (size == 0)) [
  | inl zero_size ↦ inl (==→eq size 0 zero_size, rw zero_size refl)
  | inr positive ↦ elim (get_free_block-Takes h.brk size h.blocks c) [
    | inr (addr, bs, e, c', t) ↦ inr (
      ground (arith, positive),
      addr,
      record h { blocks = bs },
      rw (positive, e) refl,
      aligned h.brk bs addr c' t,
      c',
      t,
    )
    | inl e ↦
        let (c', t) = push_block-Takes size h c in
        inr (
          ground (arith, positive),
          (push_block size h).0,
          (push_block size h).1,
          rw (positive, e) refl,
          aligned (push_block size h).1.brk (push_block size h).1.blocks (push_block size h).0 c' t,
          c',
          t,
        )
  ]
]
  where
    aligned :
        (limit : ℕ) (bs : List Block) (addr : ℕ)
        → IsChain limit bs
        → Takes size addr h.blocks bs
        → (addr + header) % 8 ≡ 0
    aligned limit bs addr c' t = omega (arith, lives_aligned limit bs addr t.fits.0 c' t.fits.2)
