-- ===== src/Kernel/Mem/Search.antt =====
-- The search of `alloc_page` over the words of the bitmap.
use petix.Prelude.{
  ℕ, zero, suc, ◌+◌, ◌*◌, ◌≤◌, ◌<◌, ◌≡◌, ◌∙◌, ap, sym, Bool, true, false, none, some, ◌==◌, arith,
  Bool-cases, Option-cases, inl, inr, some_inj, ==→eq,
}
use native.Mathlib.Decide.{dec_lt}
use petix.Kernel.Mem.{word_bits, first_clear, scan_words}

pub first_clear_lem :
    (n : ℕ) (used : ℕ → Bool) (bit : ℕ)
    → ((found : ℕ)
        → first_clear n used bit ≡ some found
        → (bit ≤ found)
          × (found < bit + n)
          × (used found ≡ false)
          × ((i : ℕ) → bit ≤ i → i < found → used i ≡ true))
      × (first_clear n used bit ≡ none → (i : ℕ) → bit ≤ i → i < bit + n → used i ≡ true)
unfolding first_clear
first_clear_lem zero used bit = (λ found e. cc, λ e i h k. absurd (omega arith))
first_clear_lem (suc n) used bit =
    let ih = first_clear_lem n used (bit + 1) in
    elim (Bool-cases (used bit)) [
      | inl u ↦ rw u (
        λ found e.
            let f = ih.0 found e in (omega arith, omega arith, f.2, λ i h k. here u i f.3 h k),
        λ e i h k. here u i (λ j a b. ih.1 e j a (omega arith)) h k,
      )
      | inr u ↦ rw u (
        λ found e.
            let same : bit ≡ found = some_inj e in
            (omega arith, omega arith, sym (ap used same) ∙ u, λ i h k. absurd (omega arith)),
        λ e. cc,
      )
    ]
  where
    here :
        {top : ℕ} (u : used bit ≡ true) (i : ℕ)
        → ((i : ℕ) → bit + 1 ≤ i → i < top → used i ≡ true)
        → bit ≤ i
        → i < top
        → used i ≡ true
    here u i rest h k = elim (Bool-cases (i == bit)) [
      | inl e ↦ ap used (==→eq i bit e) ∙ u
      | inr e ↦ rest i (ground arith) k
    ]

scan_words-none :
    (i : ℕ) (used : ℕ → Bool)
    → first_clear word_bits used (i * word_bits) ≡ none
    → scan_words (suc i) used ≡ scan_words i used
unfolding scan_words
scan_words-none i used e = ground arith

pub scan_words-some :
    (i : ℕ) (used : ℕ → Bool) (bit : ℕ)
    → first_clear word_bits used (i * word_bits) ≡ some bit
    → scan_words (suc i) used ≡ some bit
unfolding scan_words
scan_words-some i used bit e = ground arith

-- The search from word `i - 1` downwards finds a clear bit of those words, or all are set.
pub scan_words_lem :
    (i : ℕ) (used : ℕ → Bool)
    → ((found : ℕ)
        → scan_words i used ≡ some found
        → (found < i * word_bits) × (used found ≡ false))
      × (scan_words i used ≡ none → (j : ℕ) → j < i * word_bits → used j ≡ true)
unfolding scan_words
scan_words_lem zero used = (λ found e. cc, λ e j h. absurd (omega arith))
scan_words_lem (suc i) used =
    let ih = scan_words_lem i used in
    let f = first_clear_lem word_bits used (i * word_bits) in
    elim (Option-cases (first_clear word_bits used (i * word_bits))) [
      | inl e ↦
          let same = scan_words-none i used e in
          (
            λ found h. let r = ih.0 found (sym same ∙ h) in (omega (arith, r.0), r.1),
            λ h j k. elim (dec_lt j (i * word_bits)) [
              | yes p ↦ ih.1 (sym same ∙ h) j p
              | no p ↦ f.1 e j (omega arith) (omega arith)
            ],
          )
      | inr (bit, e) ↦
          let r = f.0 bit e in
          let same = scan_words-some i used bit e in
          (
            λ found h.
                let b : bit ≡ found = some_inj (sym same ∙ h) in
                (omega (arith, r.1), sym (ap used b) ∙ r.2),
            λ h. absurd (some_ne_none (sym same ∙ h)),
          )
    ]
  where
    some_ne_none : {bit : ℕ} → some bit ≡ none → ⊥
    some_ne_none h = cc
