-- ===== src/Kernel/Kmalloc/Chain.antt =====
-- The blocks of the heap do not overlap.
use petix.Prelude.{
  ℕ, ◌+◌, ◌%◌, ◌≤◌, ◌≡◌, ◌≢◌, Bool, true, false, ◌&&◌, ◌||◌, List, [], ◌∷◌, ◌==◌, arith, ◌⊎◌,
}
use petix.Kernel.Kmalloc.{header, Block, Heap}

-- Below a limit, each block ends at the next one or before it, and is aligned.
abbrev pub IsChain : ℕ → List Block → Type 0
IsChain limit [] = Unit
IsChain limit (b ∷ below) =
    (b.addr % 8 ≡ 0) × (b.addr + header + b.len ≤ limit) × IsChain b.addr below

abbrev pub IsHeap : Heap → Type 0
IsHeap h = IsChain h.brk h.blocks

-- Whether a block in use has the address and the length.
abbrev pub lives : ℕ → ℕ → List Block → Bool
lives a n [] = false
lives a n (b ∷ below) = (b.used && (b.addr == a && b.len == n)) || lives a n below

pub IsChain-raise :
    (limit limit' : ℕ) (bs : List Block) → limit ≤ limit' → IsChain limit bs → IsChain limit' bs
IsChain-raise limit limit' [] h c = tt
IsChain-raise limit limit' (b ∷ below) h c = (c.0, omega (arith, c.1), c.2)

pub lives_below :
    (limit : ℕ) (bs : List Block) (a n : ℕ)
    → IsChain limit bs
    → lives a n bs ≡ true
    → a + header + n ≤ limit
lives_below limit [] a n c h = cc
lives_below limit (b ∷ below) a n c h = ground (arith, c.1, lives_below b.addr below a n c.2)

-- Two blocks in use at different addresses do not overlap.
pub lives_apart :
    (limit : ℕ) (bs : List Block) (a n a' n' : ℕ)
    → IsChain limit bs
    → lives a n bs ≡ true
    → lives a' n' bs ≡ true
    → a ≢ a'
    → (a + header + n ≤ a') ⊎ (a' + header + n' ≤ a)
lives_apart limit [] a n a' n' c h h' d = cc
lives_apart limit (b ∷ below) a n a' n' c h h' d = ground (
  arith,
  lives_below b.addr below a n c.2,
  lives_below b.addr below a' n' c.2,
  lives_apart b.addr below a n a' n' c.2,
)

pub lives_aligned :
    (limit : ℕ) (bs : List Block) (a n : ℕ) → IsChain limit bs → lives a n bs ≡ true → a % 8 ≡ 0
lives_aligned limit [] a n c h = cc
lives_aligned limit (b ∷ below) a n c h = ground (arith, c.0, lives_aligned b.addr below a n c.2)
