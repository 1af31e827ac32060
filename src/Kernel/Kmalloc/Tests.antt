-- ===== src/Kernel/Kmalloc/Tests.antt =====
-- Two blocks: the lower one is free and is large enough to be split.
use petix.Prelude.{ℕ, ◌+◌, ◌%◌, ◌<◌, ◌≡◌, refl, ◌⊎◌, [], ◌∷◌, true, false, some, none, arith}
use petix.Kernel.Kmalloc.{
  header, Heap, kmalloc, kfree, krealloc, has_block, get_free_block, shrink_block,
}
use petix.Kernel.Kmalloc.Chain.{IsHeap}
use petix.Kernel.Kmalloc.Alloc.{Takes, kmalloc-Takes}
use petix.Kernel.Kmalloc.Free.{Frees, kfree-Frees}
use petix.Kernel.Kmalloc.Resize.{Moves, krealloc-Moves}

abbrev two_blocks : Heap
two_blocks = record {
  blocks =
      record { addr = 1024; len = 40; used = true }
      ∷ record { addr = 512; len = 488; used = false }
      ∷ [];
  brk = 1100;
}

two_blocks-IsHeap : IsHeap two_blocks
two_blocks-IsHeap = (omega arith, omega arith, (omega arith, omega arith, tt))

kmalloc-split : kmalloc 10 two_blocks ≡ (
  some 536,
  record {
    blocks =
        record { addr = 1024; len = 40; used = true }
        ∷ record { addr = 552; len = 448; used = false }
        ∷ record { addr = 512; len = 10; used = true }
        ∷ [];
    brk = 1100;
  },
)
unfolding kmalloc get_free_block shrink_block
kmalloc-split = refl

kmalloc-Takes_example :
    ((◌≡◌ {A = ℕ} 10 0) × (kmalloc 10 two_blocks ≡ (none, two_blocks)))
    ⊎ ((0 < 10)
        × (addr : ℕ) × (h' : Heap) × (kmalloc 10 two_blocks ≡ (some (addr + header), h'))
        × ((addr + header) % 8 ≡ 0)
        × IsHeap h'
        × Takes 10 addr two_blocks.blocks h'.blocks)
kmalloc-Takes_example = kmalloc-Takes 10 two_blocks two_blocks-IsHeap

two_blocks-has_block : has_block 1024 two_blocks.blocks ≡ true
unfolding has_block
two_blocks-has_block = refl

kfree-Frees_example :
    (h' : Heap) × (kfree (some (1024 + header)) two_blocks ≡ some h')
    × Frees 1100 1024 two_blocks.blocks h'.blocks
    × (h'.brk ≡ two_blocks.brk)
    × (kfree none two_blocks ≡ some two_blocks)
kfree-Frees_example = kfree-Frees 1024 two_blocks two_blocks-IsHeap two_blocks-has_block

krealloc-Moves_example :
    (new : ℕ) × (h' : Heap) × (krealloc (some (1024 + header)) 2000 two_blocks
      ≡ some (some (new + header), h'))
    × Moves 2000 1024 new two_blocks h'
krealloc-Moves_example = krealloc-Moves 1024 40 2000 two_blocks two_blocks-IsHeap refl (omega arith)
