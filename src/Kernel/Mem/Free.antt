-- ===== src/Kernel/Mem/Free.antt =====
-- `free_page`, and the frame that `alloc_page` can find outside the memory.
use petix.Prelude.{
  ℕ, suc, ◌+◌, ◌-◌, ◌*◌, ◌/◌, ◌^◌, ◌≤◌, ◌<◌, ◌≡◌, refl, ◌∙◌, ap, Bool, true, false, List, [], ◌∷◌,
  none, some, ltb, ◌==◌, if◌then◌else◌, length, arith, Bool-cases, Option-cases, inl, inr, ==→eq,
}
use native.Mathlib.Decide.{dec_lt}
use petix.Kernel.Mem.{
  Mem, page, word_bits, free_stack_size, set_bit, frame_bit, first_clear, scan_words, take_frame,
  alloc_from, alloc_page, free_page,
}
use petix.Kernel.Mem.Search.{first_clear_lem, scan_words-some}
use petix.Kernel.Mem.Frames.{is_on, AreFree, IsMem, take_frame-page}

AreFree-unmark :
    (m : Mem) (stack stack' : List ℕ) (frame : ℕ)
    → AreFree m stack
    → AreFree
        (record m { used = set_bit m.used (frame_bit m frame) false; free_stack = stack' })
        stack
AreFree-unmark m [] stack' frame h = tt
AreFree-unmark m (a ∷ stack) stack' frame h =
    (h.0, h.1, ground (arith, h.2), h.3, AreFree-unmark m stack stack' frame h.4)

-- A page that is in use is not on the free stack.
not_on_stack :
    (m : Mem) (stack : List ℕ) (frame : ℕ)
    → AreFree m stack
    → m.used (frame_bit m frame) ≡ true
    → is_on frame stack ≡ false
not_on_stack m [] frame h u = refl
not_on_stack m (a ∷ stack) frame h u = elim (Bool-cases (frame == a)) [
  | inl e ↦ absurd (used_unused (ap (λ b. m.used (frame_bit m b)) (==→eq frame a e)) u h.2)
  | inr e ↦ rw e (not_on_stack m stack frame h.4 u)
]
  where
    used_unused : {b c : Bool} → b ≡ c → b ≡ true → c ≡ false → ⊥
    used_unused p q r = cc

-- `free_page` on a frame that is in use keeps the allocator valid, marks that frame alone as unused
-- and puts it on the stack while that has room; on a page that is not in use its assertion fails,
-- which catches a double free; page 0 is ignored.
pub free_page_lem :
    (m : Mem) (frame : ℕ)
    → IsMem m
    → m.base ≤ frame
    → frame < 2 ^ 32
    → (m.used (frame_bit m frame) ≡ true
        → (m' : Mem) × (free_page frame m ≡ some m')
          × IsMem m'
          × ((i : ℕ) → m'.used i ≡ (if i == frame_bit m frame then false else m.used i))
          × (length m.free_stack < free_stack_size → m'.free_stack ≡ frame ∷ m.free_stack))
      × (m.used (frame_bit m frame) ≡ false → free_page frame m ≡ none)
      × (free_page 0 m ≡ some m)
unfolding free_page
free_page_lem m frame v lo hi = (
  λ u. elim (Bool-cases (ltb (length m.free_stack) free_stack_size)) [
    | inl room ↦ (
      freed (frame ∷ m.free_stack),
      ground (arith, v.based),
      record {
        based = v.based;
        small = v.small;
        stack_free = (
          lo,
          hi,
          ground arith,
          not_on_stack m m.free_stack frame v.stack_free u,
          AreFree-unmark m m.free_stack (frame ∷ m.free_stack) frame v.stack_free,
        );
      },
      λ i. refl,
      λ _. refl,
    )
    | inr full ↦ (
      freed m.free_stack,
      ground (arith, v.based),
      record {
        based = v.based;
        small = v.small;
        stack_free = AreFree-unmark m m.free_stack m.free_stack frame v.stack_free;
      },
      λ i. refl,
      λ h. absurd (ground arith),
    )
  ],
  λ u. ground (arith, v.based),
  refl,
)
  where
    freed : List ℕ → Mem
    freed stack = record m { used = set_bit m.used (frame_bit m frame) false; free_stack = stack }

-- Where the memory does not end at a word of the bitmap, and all its frames in the last word are in
-- use but the next bit is clear, `alloc_page` with an empty stack hands out the frame just behind
-- the end of the memory.
pub alloc_page-outside :
    (m : Mem) (k r : ℕ)
    → IsMem m
    → m.free_stack ≡ []
    → m.nframes ≡ k * word_bits + r
    → 0 < r
    → r < word_bits
    → ((i : ℕ) → k * word_bits ≤ i → i < m.nframes → m.used i ≡ true)
    → m.used m.nframes ≡ false
    → (m' : Mem) × (alloc_page m ≡ page (m.nframes + m.base) m')
unfolding alloc_page alloc_from
alloc_page-outside m k r v e n lo hi full clear = (
  record m { used = set_bit m.used (frame_bit m (m.nframes + m.base)) true; free_stack = [] },
  ap (λ stack. alloc_from stack m) e
      ∙ alloc_from-some m m.nframes (
          ap (λ i. scan_words i m.used) {y = suc k} (omega arith)
          ∙ scan_words-some k m.used m.nframes found)
      ∙ take_frame-page m (m.nframes + m.base) [] (omega (arith, v.based)),
)
  where
    alloc_from-some :
        (m : Mem) (bit : ℕ)
        → scan_words ((m.nframes - 1) / word_bits + 1) m.used ≡ some bit
        → alloc_from [] m ≡ take_frame (bit + m.base) [] m
    alloc_from-some m bit h = ground arith

    clash : {b : Bool} → b ≡ true → b ≡ false → ⊥
    clash h h' = cc

    found : first_clear word_bits m.used (k * word_bits) ≡ some m.nframes
    found =
        let f = first_clear_lem word_bits m.used (k * word_bits) in
        elim (Option-cases (first_clear word_bits m.used (k * word_bits))) [
          | inl none_clear ↦
              absurd (clash (f.1 none_clear m.nframes (omega arith) (omega arith)) clear)
          | inr (bit, is_bit) ↦
              let r' = f.0 bit is_bit in
              is_bit
              ∙ ap some (elim (dec_lt bit m.nframes) [
                | yes below ↦ absurd (clash (full bit r'.0 below) r'.2)
                | no above ↦ elim (dec_lt m.nframes bit) [
                  | yes over ↦ absurd (clash (r'.3 m.nframes (omega arith) over) clear)
                  | no same ↦ omega arith
                ]
              ])
        ]
