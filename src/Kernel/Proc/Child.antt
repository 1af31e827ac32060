-- ===== src/Kernel/Proc/Child.antt =====
-- `proc_get_terminated_child`, against the children of the process.
use petix.Prelude.{
  ℕ, zero, suc, ◌+◌, ◌≤◌, ◌<◌, ◌≡◌, ◌≢◌, refl, ◌∙◌, ap, sym, Bool, true, false, ◌&&◌, ◌||◌, arith,
  Bool-cases, inl, inr, ◌⊎◌, ℤ, pos, ◌==◌, ==→eq, subst,
}
use petix.Kernel.Proc.{
  ptable_size, Pcb, Procs, is_terminated, is_wanted, Waited, found, running, echild, child_walk,
  note_child, get_terminated_child,
}

-- What the search of the slots from `i` to `top` has found.
abbrev pub Finds : (ℕ → Pcb) → ℕ → ℤ → ℕ → ℕ → Bool → Waited → Type 0
Finds table parent pid i top child (found k) =
    (i ≤ k)
    × (k < top)
    × (is_wanted parent pid (table k) ≡ true)
    × (is_terminated (table k).rs ≡ true)
    × ((j : ℕ)
        → i ≤ j
        → j < k
        → is_wanted parent pid (table j) && is_terminated (table j).rs ≡ false)
Finds table parent pid i top child running =
    ((child ≡ true) ⊎ ((k : ℕ) × (i ≤ k) × (k < top) × (is_wanted parent pid (table k) ≡ true)))
    × ((j : ℕ)
        → i ≤ j
        → j < top
        → is_wanted parent pid (table j) && is_terminated (table j).rs ≡ false)
Finds table parent pid i top child echild =
    (child ≡ false) × ((j : ℕ) → i ≤ j → j < top → is_wanted parent pid (table j) ≡ false)

module _ (table : ℕ → Pcb) (parent : ℕ) (pid : ℤ) where
  -- The slot `i` was passed, and the rest of the search ended as it did.
  passed :
      (i top : ℕ) (child : Bool) (w : Waited)
      → i < top
      → is_wanted parent pid (table i) && is_terminated (table i).rs ≡ false
      → Finds table parent pid (i + 1) top (child || is_wanted parent pid (table i)) w
      → Finds table parent pid i top child w
  passed i top child (found k) b no_child f = (
    omega (arith, f.0),
    f.1,
    f.2,
    f.3,
    λ j h k'. elim (Bool-cases (j == i)) [
      | inl e ↦
          ap (λ l. is_wanted parent pid (table l) && is_terminated (table l).rs) (==→eq j i e)
          ∙ no_child
      | inr e ↦ f.4 j (ground arith) k'
    ],
  )
  passed i top child running b no_child f = (
    seen f.0,
    λ j h k'. elim (Bool-cases (j == i)) [
      | inl e ↦
          ap (λ l. is_wanted parent pid (table l) && is_terminated (table l).rs) (==→eq j i e)
          ∙ no_child
      | inr e ↦ f.1 j (ground arith) k'
    ],
  )
    where
      seen :
          ((child || is_wanted parent pid (table i)) ≡ true)
            ⊎ ((k : ℕ) × (i + 1 ≤ k) × (k < top) × (is_wanted parent pid (table k) ≡ true))
          → (child ≡ true)
            ⊎ ((k : ℕ) × (i ≤ k) × (k < top) × (is_wanted parent pid (table k) ≡ true))
      seen (inr (k, lo, hi, w)) = inr (k, omega arith, hi, w)
      seen (inl e) = elim (Bool-cases child) [
        | inl c ↦ inl c
        | inr c ↦ inr (i, omega arith, b, ground arith)
      ]
  passed i top child echild b no_child f = (
    ground (arith, f.0),
    λ j h k'. elim (Bool-cases (j == i)) [
      | inl e ↦ ap (λ l. is_wanted parent pid (table l)) (==→eq j i e) ∙ ground (arith, f.0)
      | inr e ↦ f.1 j (ground arith) k'
    ],
  )

  child_walk-Finds :
      (rounds i top : ℕ) (child : Bool)
      → i + rounds ≡ top
      → Finds table parent pid i top child (child_walk rounds i child table parent pid)
  unfolding child_walk
  child_walk-Finds zero i top true e = (inl refl, λ j h k. absurd (omega arith))
  child_walk-Finds zero i top false e = (refl, λ j h k. absurd (omega arith))
  child_walk-Finds (suc rounds) i top child e =
      elim (Bool-cases (is_wanted parent pid (table i) && is_terminated (table i).rs)) [
        | inl y ↦
            rw y
              (omega arith, omega arith, ground arith, ground arith, λ j h k. absurd (omega arith))
        | inr n ↦ rw n (
            passed i top child _ (omega arith) n (
              child_walk-Finds rounds (i + 1) top (child || is_wanted parent pid (table i))
                (omega arith)))
      ]

note_child_lem :
    (me : ℕ) (s : Procs) (w : Waited)
    → let (w', s') = note_child me s w in
      (w' ≡ w)
      × ((k : ℕ)
          → w' ≡ found k
          → ((s'.table me).wait_pid ≡ pos (s.table k).pid)
            × ((i : ℕ) → i ≢ me → s'.table i ≡ s.table i))
      × (((w' ≡ running) ⊎ (w' ≡ echild)) → s' ≡ s)
unfolding note_child
note_child_lem me s (found j) =
    (refl, λ k e. (ground arith, λ i h. ground arith), λ e. absurd (ground arith))
note_child_lem me s running = (refl, λ k e. cc, λ e. refl)
note_child_lem me s echild = (refl, λ k e. cc, λ e. refl)

-- `proc_get_terminated_child` finds the first slot that holds a terminated child that the call asks
-- for, and notes that child's pid in the caller alone; it returns -1 if there are such children and
-- none has terminated, and -ECHILD if there are none. In these two cases it changes nothing.
pub get_terminated_child_lem :
    (me : ℕ) (pid : ℤ) (s : Procs)
    → let (w, s') = get_terminated_child me pid s in
      Finds s.table (s.table me).pid pid 0 ptable_size false w
      × ((k : ℕ)
          → w ≡ found k
          → ((s'.table me).wait_pid ≡ pos (s.table k).pid)
            × ((i : ℕ) → i ≢ me → s'.table i ≡ s.table i))
      × (((w ≡ running) ⊎ (w ≡ echild)) → s' ≡ s)
unfolding get_terminated_child
get_terminated_child_lem me pid s =
    let w = child_walk ptable_size 0 false s.table (s.table me).pid pid in
    let n = note_child_lem me s w in
    (
      subst (Finds s.table (s.table me).pid pid 0 ptable_size false) (sym n.0) (
          child_walk-Finds s.table (s.table me).pid pid ptable_size 0 ptable_size false
            (omega arith)),
      n.1,
      n.2,
    )
