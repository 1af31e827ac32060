-- ===== src/Kernel/Fd/Leak.antt =====
-- The descriptors of a pipe.
use petix.Prelude.{
  ℕ, ◌<◌, ◌≡◌, ◌≢◌, refl, ◌∙◌, ap, sym, false, Option, none, some, ◌==◌, arith, Bool-cases, inl,
  inr, get_or, set, ==→eq, ==→ne, eq→==, get_or-set_self, get_or-set_ne,
}
use petix.Kernel.Errno.{ok, err, emfile}
use petix.Kernel.Fd.{max_fds, Slot, closed, Fds, State, set_fds, alloc_fd, second_fd, pipe_fds}
use petix.Kernel.Fd.Balance.{IsBalanced, alloc_fd_lem}
use petix.Kernel.Proc.{ptable_size}

-- `sys_pipe` where exactly one entry is NULL takes it, fails for want of a second one, and does not
-- give it back: the file that it made stays allocated, with one use.
pub pipe_fds-leak :
    (fresh₁ fresh₂ p i : ℕ) (s : State)
    → IsBalanced s
    → p < ptable_size
    → s.files fresh₁ ≡ none
    → s.files fresh₂ ≡ none
    → fresh₁ ≢ fresh₂
    → i < max_fds
    → (get_or (s.fds p) i closed).file ≡ none
    → ((j : ℕ) → j < max_fds → j ≢ i → (get_or (s.fds p) j closed).file ≢ none)
    → (s' : State) × (pipe_fds fresh₁ fresh₂ p s ≡ (s', none))
      × (s'.files fresh₁ ≡ some 1)
      × ((get_or (s'.fds p) i closed).file ≡ some fresh₁)
unfolding pipe_fds
pipe_fds-leak fresh₁ fresh₂ p i s v pb new₁ new₂ apart ib null full =
    elim (alloc_fd_lem fresh₁ p s v pb new₁) [
      | inr (e, all) ↦ absurd (no_file null (all i ib))
      | inl (k, t, e, kb, k_null, one, tables, rest, balanced) ↦
          let row = row_of t p k fresh₁ s (tables) in
          let k_is : k ≡ i = only k kb k_null in
          elim (alloc_fd_lem fresh₂ p t balanced pb (rest fresh₂ (λ h. apart (sym h)) ∙ new₂)) [
            | inr (e', all) ↦ (
              t,
              ground (arith, e, second_fd_err fresh₂ p t k e'),
              one,
              ap (λ l. (get_or l i closed).file) row
                  ∙ ap
                      (λ j.
                        (get_or (set (s.fds p) j (record { file = some fresh₁; cloexec = false })) i
                          closed).file)
                      k_is
                  ∙ ap (λ (x : Slot). x.file)
                      (get_or-set_self (s.fds p) i (record { file = some fresh₁; cloexec = false })
                        closed (omega (arith, v.sized p pb))),
            )
            | inl (m, t', e', mb, m_null, one', tab', rest', bal') ↦
                absurd (full_now t k row kb k_is m mb m_null)
          ]
    ]
  where
    no_file : {c : Option ℕ} → c ≡ none → (f : ℕ) × (c ≡ some f) → ⊥
    no_file h (f, k) = cc

    only : (k : ℕ) → k < max_fds → (get_or (s.fds p) k closed).file ≡ none → k ≡ i
    only k kb h = elim (Bool-cases (k == i)) [
      | inl y ↦ ==→eq k i y
      | inr n ↦ absurd (full k kb (==→ne k i n) h)
    ]

    entry : Slot
    entry = record { file = some fresh₁; cloexec = false }

    row_of :
        (t : State) (p k fresh : ℕ) (s : State)
        → t.fds ≡ set_fds s.fds p (set (s.fds p) k (record { file = some fresh; cloexec = false }))
        → t.fds p ≡ set (s.fds p) k (record { file = some fresh; cloexec = false })
    row_of t p k fresh s h = ap (λ (tab : ℕ → Fds). tab p) h ∙ rw (eq→== p p refl) refl

    second_fd_err :
        (fresh p : ℕ) (t : State) (k : ℕ)
        → alloc_fd fresh p t ≡ (t, err emfile)
        → second_fd fresh p (t, ok k) ≡ (t, none)
    second_fd_err fresh p t k h = ground (arith, h)

    some_none : {f : ℕ} → some f ≡ none → ⊥
    some_none h = cc

    full_now :
        (t : State)
        → (k : ℕ) → t.fds p ≡ set (s.fds p) k entry
        → k < max_fds
        → k ≡ i
        → (m : ℕ) → m < max_fds
        → (get_or (t.fds p) m closed).file ≡ none
        → ⊥
    full_now t k row kb same m mb h = elim (Bool-cases (k == m)) [
      | inl y ↦ some_none (
          sym (
            ap (λ l. (get_or l m closed).file) row
            ∙ ap (λ j. (get_or (set (s.fds p) j entry) m closed).file) (==→eq k m y)
            ∙ ap (λ (x : Slot). x.file)
                (get_or-set_self (s.fds p) m entry closed (omega (arith, v.sized p pb))))
          ∙ h)
      | inr n ↦
          full m mb (λ e. ==→ne k m n (same ∙ sym e))
            (sym
                (ap (λ (x : Slot). x.file) (get_or-set_ne (s.fds p) k m entry closed (==→ne k m n)))
              ∙ sym (ap (λ l. (get_or l m closed).file) row)
              ∙ h)
    ]
