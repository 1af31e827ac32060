-- ===== src/Kernel/Mem/Tests.antt =====
-- A memory of ten frames behind frame 256, which is less than a word of the bitmap.
use petix.Prelude.{ℕ, ◌+◌, ◌<◌, ◌≡◌, refl, ◌⊎◌, true, [], arith, ltb}
use petix.Kernel.Mem.{
  Mem, page, out_of_bitmap, alloc_page, scan_words, first_clear, take_frame, alloc_from,
}
use petix.Kernel.Mem.Frames.{IsMem, Allocated, alloc_page-Allocated}
use petix.Kernel.Mem.Free.{alloc_page-outside}

-- The first two frames are in use, and 256 was taken first.
abbrev ten_frames : Mem
ten_frames = record { base = 256; nframes = 10; used = λ i. ltb i 2; free_stack = []; breakptr = 0 }

ten_frames-IsMem : IsMem ten_frames
ten_frames-IsMem = record { based = omega arith; small = omega arith; stack_free = tt }

alloc_page-ten_frames : (m : Mem) × (alloc_page ten_frames ≡ page 258 m)
unfolding alloc_page alloc_from scan_words first_clear take_frame
alloc_page-ten_frames = (_, refl)

alloc_page-Allocated_example :
    ((frame : ℕ) × (m' : Mem) × (alloc_page ten_frames ≡ page frame m')
      × Allocated ten_frames frame m')
    ⊎ ((alloc_page ten_frames ≡ out_of_bitmap)
        × (ten_frames.free_stack ≡ [])
        × ((i : ℕ) → i < ten_frames.nframes → ten_frames.used i ≡ true))
alloc_page-Allocated_example = alloc_page-Allocated ten_frames ten_frames-IsMem

abbrev full : Mem
full = record ten_frames { used = λ i. ltb i 10 }

full-IsMem : IsMem full
full-IsMem = record { based = omega arith; small = omega arith; stack_free = tt }

alloc_page-outside_example : (m' : Mem) × (alloc_page full ≡ page (10 + 256) m')
alloc_page-outside_example =
    alloc_page-outside full 0 10 full-IsMem refl (omega arith) (omega arith) (omega arith)
      (λ i lo hi. ground arith) refl
