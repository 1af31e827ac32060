-- ===== src/Kernel/Mem.antt =====
-- kernel/mem.c: the allocator of page frames.
pub mod Search
pub mod Frames
pub mod Free
mod Tests
use petix.Prelude.{
  ℕ, zero, suc, ◌+◌, ◌-◌, ◌*◌, ◌/◌, ◌%◌, ◌^◌, Bool, true, false, not, ◌&&◌, List, [], ◌∷◌, Option,
  none, some, ltb, ◌==◌, if◌then◌else◌, length,
}

abbrev pub page_size : ℕ
page_size = 4096

abbrev pub free_stack_size : ℕ
free_stack_size = 128

abbrev pub word_bits : ℕ
word_bits = 32

-- The static variables. `used i` is bit `i` of the array `frames`, whose words hold 32 bits each.
-- `free_stack` holds page numbers, its top first, and `base` is `mem_base / PAGE_SIZE`.
pub record Mem : Type 0 where
  pub base : ℕ
  pub nframes : ℕ
  pub used : ℕ → Bool
  pub free_stack : List ℕ
  pub breakptr : ℕ

abbrev pub set_bit : (ℕ → Bool) → ℕ → Bool → ℕ → Bool
set_bit bits i v j = if j == i then v else bits j

-- `mem_init`, with `length` the size of the memory: the bitmap is taken from the heap and cleared.
unfoldable pub mem_init : ℕ → ℕ → ℕ → Mem
mem_init base initbrk size = record {
  base = base / page_size;
  nframes = size / page_size;
  used = λ _. false;
  free_stack = [];
  breakptr = initbrk + 4 * ((size / page_size + word_bits - 1) / word_bits);
}

-- `ksbrk` returns the old break.
unfoldable pub ksbrk : ℕ → Mem → Mem × ℕ
ksbrk increment m = (record m { breakptr = m.breakptr + increment }, m.breakptr)

-- What an allocation ends with: a page, a failed assertion, or a search that has left the bitmap at
-- its lower end. The test `i >= 0` of that loop never fails, so the panic behind it is not reached.
pub data Alloc : Type 0 where
  page : ℕ → Mem → Alloc
  failed : Alloc
  out_of_bitmap : Alloc

-- `__builtin_ctzl` of the inverted word at `bit`: the index of its first clear bit, among `n` bits.
unfoldable pub first_clear : ℕ → (ℕ → Bool) → ℕ → Option ℕ
first_clear zero used bit = none
first_clear (suc n) used bit =
    let later = first_clear n used (bit + 1) in if used bit then later else some bit

-- The search from word `i - 1` downwards for a word that is not full.
unfoldable pub scan_words : ℕ → (ℕ → Bool) → Option ℕ
scan_words zero used = none
scan_words (suc i) used = elim (first_clear word_bits used (i * word_bits)) [
  | some bit ↦ some bit
  | none ↦ scan_words i used
]

-- `frame - mem_base/PAGE_SIZE`, in 32 bits.
abbrev pub frame_bit : Mem → ℕ → ℕ
frame_bit m frame = (frame + 2 ^ 32 - m.base) % 2 ^ 32

-- A frame is marked as used and returned, unless it is page 0.
unfoldable pub take_frame : ℕ → List ℕ → Mem → Alloc
take_frame frame stack m =
    if frame == 0
    then failed
    else page frame
        (record m { used = set_bit m.used (frame_bit m frame) true; free_stack = stack })

-- A machine has at least one frame: with none, the first index of the search would wrap around.
unfoldable pub alloc_from : List ℕ → Mem → Alloc
alloc_from (frame ∷ stack) m =
    if m.used (frame_bit m frame) then failed else take_frame frame stack m
alloc_from [] m = elim (scan_words ((m.nframes - 1) / word_bits + 1) m.used) [
  | some bit ↦ take_frame (bit + m.base) [] m
  | none ↦ out_of_bitmap
]

unfoldable pub alloc_page : Mem → Alloc
alloc_page m = alloc_from m.free_stack m

-- `free_page`; `none` is the failed assertion on a page that is not in use.
unfoldable pub free_page : ℕ → Mem → Option Mem
free_page frame m =
    if frame == 0
    then some m
    else if m.used (frame_bit m frame)
    then some (record m {
      used = set_bit m.used (frame_bit m frame) false;
      free_stack =
          if ltb (length m.free_stack) free_stack_size then frame ∷ m.free_stack else m.free_stack;
    })
    else none
