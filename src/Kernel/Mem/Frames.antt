-- ===== src/Kernel/Mem/Frames.antt =====
-- `alloc_page`: no frame is handed out twice.
use petix.Prelude.{
  ℕ, ◌+◌, ◌-◌, ◌/◌, ◌^◌, ◌≤◌, ◌<◌, ◌≡◌, ◌≢◌, refl, ◌∙◌, ap, sym, Bool, true, false, List, [], ◌∷◌,
  ◌==◌, if◌then◌else◌, arith, Option-cases, inl, inr, ◌⊎◌, subst,
}
use petix.Kernel.Mem.{
  Mem, page, out_of_bitmap, word_bits, set_bit, frame_bit, scan_words, take_frame, alloc_from,
  alloc_page,
}
use petix.Kernel.Mem.Search.{scan_words_lem}

abbrev pub is_on : ℕ → List ℕ → Bool
is_on a [] = false
is_on a (b ∷ bs) = if a == b then true else is_on a bs

-- The pages on the free stack are frames of the memory that are not in use, each once.
abbrev pub AreFree : Mem → List ℕ → Type 0
AreFree m [] = Unit
AreFree m (a ∷ stack) =
    (m.base ≤ a)
    × (a < 2 ^ 32)
    × (m.used (frame_bit m a) ≡ false)
    × (is_on a stack ≡ false)
    × AreFree m stack

-- `small` says that every frame has a 32-bit page number.
pub record IsMem (m : Mem) : Type 0 where
  pub based : 0 < m.base
  pub small : m.base + m.nframes + word_bits ≤ 2 ^ 32
  pub stack_free : AreFree m m.free_stack

-- What an allocation does: it hands out a frame that was not in use, marks that one alone, keeps
-- the invariant, and takes the frame from the free stack if that is not empty.
pub record Allocated (m : Mem) (frame : ℕ) (m' : Mem) : Type 0 where
  pub valid : IsMem m'
  pub fresh : m.used (frame_bit m frame) ≡ false
  pub marked : (i : ℕ) → m'.used i ≡ (if i == frame_bit m frame then true else m.used i)
  pub not_null : frame ≢ 0
  pub from_stack : (a : ℕ) (stack : List ℕ) → m.free_stack ≡ a ∷ stack → frame ≡ a

AreFree-mark :
    (m : Mem) (stack stack' : List ℕ) (frame : ℕ)
    → m.base ≤ frame
    → frame < 2 ^ 32
    → m.base + m.nframes + word_bits ≤ 2 ^ 32
    → is_on frame stack ≡ false
    → AreFree m stack
    → AreFree
        (record m { used = set_bit m.used (frame_bit m frame) true; free_stack = stack' })
        stack
AreFree-mark m [] stack' frame lo hi small off h = tt
AreFree-mark m (a ∷ stack) stack' frame lo hi small off h = (
  h.0,
  h.1,
  ground (arith, h.2),
  h.3,
  AreFree-mark m stack stack' frame lo hi small (ground arith) h.4,
)

pub take_frame-page :
    (m : Mem) (frame : ℕ) (stack : List ℕ)
    → frame ≢ 0
    → take_frame frame stack m
      ≡ page frame (record m { used = set_bit m.used (frame_bit m frame) true; free_stack = stack })
unfolding take_frame
take_frame-page m frame stack h = ground arith

-- The frame of bit `i` has the bit `i`.
frame_bit_of : (m : Mem) (i : ℕ) → m.base + i < 2 ^ 32 → frame_bit m (i + m.base) ≡ i
frame_bit_of m i h = omega arith

alloc_from-Allocated :
    (m : Mem) (stack : List ℕ)
    → IsMem m
    → m.free_stack ≡ stack
    → ((frame : ℕ) × (m' : Mem) × (alloc_from stack m ≡ page frame m') × Allocated m frame m')
      ⊎ ((alloc_from stack m ≡ out_of_bitmap)
          × (stack ≡ [])
          × ((i : ℕ) → i < m.nframes → m.used i ≡ true))
unfolding alloc_from
alloc_from-Allocated m (a ∷ stack) v e =
    let s : AreFree m (a ∷ stack) = subst (AreFree m) e v.stack_free in
    let nz : a ≢ 0 = omega (arith, v.based, s.0) in
    inl (
      a,
      record m { used = set_bit m.used (frame_bit m a) true; free_stack = stack },
      rw s.2 (take_frame-page m a stack nz),
      record {
        valid = record {
          based = v.based;
          small = v.small;
          stack_free = AreFree-mark m stack stack a s.0 s.1 v.small s.3 s.4;
        };
        fresh = s.2;
        marked = λ i. refl;
        not_null = nz;
        from_stack = λ b rest h. head_eq (sym e ∙ h);
      },
    )
  where
    head_eq : {a b : ℕ} {s t : List ℕ} → a ∷ s ≡ b ∷ t → a ≡ b
    head_eq h = cc
alloc_from-Allocated m [] v e =
    let top = (m.nframes - 1) / word_bits + 1 in
    let w = scan_words_lem top m.used in
    elim (Option-cases (scan_words top m.used)) [
      | inl f ↦ inr (ground (arith, f), refl, λ i h. w.1 f i (omega arith))
      | inr (bit, f) ↦
          let r = w.0 bit f in
          let low : m.base + bit < 2 ^ 32 = omega (arith, r.0, v.small) in
          let nz : bit + m.base ≢ 0 = omega (arith, v.based) in
          inl (
            bit + m.base,
            record m { used = set_bit m.used (frame_bit m (bit + m.base)) true; free_stack = [] },
            ground (arith, f, take_frame-page m (bit + m.base) [] nz),
            record {
              valid = record { based = v.based; small = v.small; stack_free = tt };
              fresh = ap m.used (frame_bit_of m bit low) ∙ r.1;
              marked = λ i. refl;
              not_null = nz;
              from_stack = λ b rest h. cc (e, h);
            },
          )
    ]

-- `alloc_page` on a valid allocator either hands out a frame that was not in use, marks it and
-- nothing else as used and keeps the allocator valid, or finds every frame of the memory in use.
-- None of its assertions fails, and a page that was freed to the stack is the next to be handed out.
pub alloc_page-Allocated :
    (m : Mem)
    → IsMem m
    → ((frame : ℕ) × (m' : Mem) × (alloc_page m ≡ page frame m') × Allocated m frame m')
      ⊎ ((alloc_page m ≡ out_of_bitmap)
          × (m.free_stack ≡ [])
          × ((i : ℕ) → i < m.nframes → m.used i ≡ true))
unfolding alloc_page
alloc_page-Allocated m v = alloc_from-Allocated m m.free_stack v refl
