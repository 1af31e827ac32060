-- ===== src/Kernel/Kmalloc.antt =====
-- kernel/kmalloc.c: the heap of the kernel. The links `prev` and `next` of the blocks are the order
-- of a list, which begins with `base`, the block that is highest in memory.
pub mod Chain
pub mod Alloc
pub mod Free
pub mod Resize
mod Tests
use petix.Prelude.{
  ℕ, zero, suc, ◌+◌, ◌-◌, ◌%◌, Bool, true, false, not, ◌&&◌, ◌||◌, List, [], ◌∷◌, Option, none,
  some, leb, ltb, ◌==◌, if◌then◌else◌,
}

-- `sizeof(struct block)`, for pointers of four bytes.
abbrev pub header : ℕ
header = 24

abbrev pub min_split_size : ℕ
min_split_size = 128

-- `struct block`, at its address. `pos_mag` is right in every block of the list.
pub record Block : Type 0 where
  pub addr : ℕ
  pub len : ℕ
  pub used : Bool

-- The blocks, and the break of kernel/mem.c.
pub record Heap : Type 0 where
  pub blocks : List Block
  pub brk : ℕ

abbrev pub align8 : ℕ → ℕ
align8 i = (8 - i % 8) % 8

-- `push_block`; the pointer that `kmalloc` returns for a block is `header` behind its address.
unfoldable pub push_block : ℕ → Heap → ℕ × Heap
push_block size h =
    let addr = h.brk + align8 h.brk in
    (
      addr,
      record {
        blocks = record { addr = addr; len = size; used = true } ∷ h.blocks;
        brk = addr + header + size;
      },
    )

-- `shrink_block` on a block of at least `size`, in front of those below it.
unfoldable pub shrink_block : Block → ℕ → List Block → List Block
shrink_block b size below =
    let addr = b.addr + header + size + align8 (b.addr + header + size) in
    if leb min_split_size (b.len - size)
    then record { addr = addr; len = b.addr + b.len - addr; used = false }
      ∷ record b { len = size }
      ∷ below
    else b ∷ below

-- `get_free_block`: the address of the first block from `base` on that is free and large enough.
unfoldable pub get_free_block : ℕ → List Block → Option (ℕ × List Block)
get_free_block size [] = none
get_free_block size (b ∷ below) =
    let later = get_free_block size below in
    if not b.used && leb size b.len
    then some (b.addr, shrink_block (record b { used = true }) size below)
    else elim later [ none ↦ none | some (addr, below') ↦ some (addr, b ∷ below') ]

-- `kmalloc`, where `none` is NULL.
unfoldable pub kmalloc : ℕ → Heap → Option ℕ × Heap
kmalloc size h = if size == 0 then (none, h) else elim (get_free_block size h.blocks) [
  | some (addr, blocks) ↦ (some (addr + header), record h { blocks = blocks })
  | none ↦ let (addr, h') = push_block size h in (some (addr + header), h')
]

-- `block_merge_next` on a block and the one above it.
abbrev pub block_merge_next : Block → Block → Block
block_merge_next b next = record b { len = next.addr - b.addr + next.len }

-- The end of `kfree`: a block that was freed is joined to the one below it, if that is free.
unfoldable pub merge_prev : Block → List Block → List Block
merge_prev b [] = b ∷ []
merge_prev b (prev ∷ below) =
    if prev.used then b ∷ prev ∷ below else block_merge_next prev b ∷ below

-- A block is freed and joined to the one above it, if that is free.
unfoldable pub free_under : Block → Block → List Block → List Block
free_under next b below =
    if next.used
    then next ∷ merge_prev (record b { used = false }) below
    else merge_prev (block_merge_next (record b { used = false }) next) below

-- The block with the address is freed, among those below `next`.
unfoldable pub free_below : ℕ → Block → List Block → List Block
free_below addr next [] = next ∷ []
free_below addr next (b ∷ below) =
    let rest = free_below addr b below in
    if b.addr == addr then free_under next b below else next ∷ rest

unfoldable pub free_block : ℕ → List Block → List Block
free_block addr [] = []
free_block addr (b ∷ below) =
    let rest = free_below addr b below in
    if b.addr == addr then merge_prev (record b { used = false }) below else rest

-- The list has a block at the address.
unfoldable pub has_block : ℕ → List Block → Bool
has_block addr [] = false
has_block addr (b ∷ below) = b.addr == addr || has_block addr below

-- `kfree`. `none` is a pointer that is not to a block of the list: what then happens depends on the
-- memory before it, where a block that was merged away leaves a header with its magic number.
unfoldable pub kfree : Option ℕ → Heap → Option Heap
kfree none h = some h
kfree (some ptr) h =
    if has_block (ptr - header) h.blocks
    then some (record h { blocks = free_block (ptr - header) h.blocks })
    else none

-- What `krealloc` finds at a pointer: no block; a block that it resizes where it is, with the other
-- blocks and how far the break goes up; or one whose contents must move.
pub data Resized : Type 0 where
  absent : Resized
  in_place : List Block → ℕ → Resized
  moves : Resized

-- The block is `base`, with none above it, or has the block `next` above it.
unfoldable pub resize_top : ℕ → Block → List Block → Resized
resize_top size b below =
    if ltb size b.len
    then in_place (shrink_block b size below) 0
    else in_place (record b { len = size } ∷ below) (size - b.len)

unfoldable pub resize_under : ℕ → Block → Block → List Block → Resized
resize_under size next b below =
    if ltb size b.len
    then in_place (next ∷ shrink_block b size below) 0
    else if not next.used && leb size (next.addr - b.addr + next.len)
    then in_place (block_merge_next b next ∷ below) 0
    else moves

abbrev pub keep_above : Block → Resized → Resized
keep_above b absent = absent
keep_above b (in_place bs up) = in_place (b ∷ bs) up
keep_above b moves = moves

unfoldable pub resize_below : ℕ → ℕ → Block → List Block → Resized
resize_below addr size next [] = absent
resize_below addr size next (b ∷ below) =
    let rest = resize_below addr size b below in
    if b.addr == addr then resize_under size next b below else keep_above next rest

unfoldable pub resize : ℕ → ℕ → List Block → Resized
resize addr size [] = absent
resize addr size (b ∷ below) =
    let rest = resize_below addr size b below in
    if b.addr == addr then resize_top size b below else rest

-- The old memory of `krealloc` is freed, once the new one was taken.
unfoldable pub free_old : ℕ → Option ℕ × Heap → Option (Option ℕ × Heap)
free_old ptr (new, h) = elim (kfree (some ptr) h) [ none ↦ none | some h' ↦ some (new, h') ]

-- `krealloc`, where the outer `none` is as in `kfree`. Where the contents move, they are copied
-- between the two steps.
unfoldable pub krealloc : Option ℕ → ℕ → Heap → Option (Option ℕ × Heap)
krealloc none size h = some (kmalloc size h)
krealloc (some ptr) size h = elim (resize (ptr - header) size h.blocks) [
  | absent ↦ none
  | in_place blocks up ↦ some (some ptr, record { blocks = blocks; brk = h.brk + up })
  | moves ↦ free_old ptr (kmalloc size h)
]
