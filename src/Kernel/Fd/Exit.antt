-- ===== src/Kernel/Fd/Exit.antt =====
-- The loops that release descriptors.
use petix.Prelude.{
  ℕ, zero, suc, ◌+◌, ◌≤◌, ◌<◌, ◌≡◌, ◌≢◌, refl, ◌∙◌, ap, sym, subst, Bool, true, false, [], ◌∷◌,
  none, some, ◌==◌, arith, Bool-cases, Option-cases, inl, inr, get_or, set, length, replicate,
  ==→eq, ==→ne, eq→==, ne→==, get_or-set_self, get_or-set_ne, length-replicate,
}
use petix.Kernel.Fd.{max_fds, Slot, closed, Fds, State, set_fds, release_from, exit_fds, exec_fds}
use petix.Kernel.Fd.Counts.{names, refs, refs-closed, total-set}
use petix.Kernel.Fd.Balance.{IsBalanced, release_fd-Released}
use petix.Kernel.Proc.{ptable_size}

-- What the loop from entry `i` leaves: the balance, the entries that it passed, and of the others
-- those that `which` does not choose.
abbrev pub IsKept : (Slot → Bool) → Slot → Slot → Type 0
IsKept which old new = (which old ≡ true → new.file ≡ none) × (which old ≡ false → new ≡ old)

pub record ReleasedFrom (which : Slot → Bool) (i p : ℕ) (s s' : State) : Type 0 where
  pub balanced : IsBalanced s'
  pub passed : (j : ℕ) → j < i → get_or (s'.fds p) j closed ≡ get_or (s.fds p) j closed
  pub chosen :
      (j : ℕ)
      → i ≤ j
      → j < max_fds
      → IsKept which (get_or (s.fds p) j closed) (get_or (s'.fds p) j closed)
  pub others : (q : ℕ) → q ≢ p → s'.fds q ≡ s.fds q

module _ (which : Slot → Bool) (p : ℕ) (pb : p < ptable_size) where
  -- One entry was dealt with, and the loop goes on from the next.
  joins :
      (i : ℕ) (s t s' : State)
      → ((j : ℕ) → j ≢ i → get_or (t.fds p) j closed ≡ get_or (s.fds p) j closed)
      → IsKept which (get_or (s.fds p) i closed) (get_or (t.fds p) i closed)
      → ((q : ℕ) → q ≢ p → t.fds q ≡ s.fds q)
      → ReleasedFrom which (i + 1) p t s'
      → ReleasedFrom which i p s s'
  joins i s t s' rest here tables r = record {
    balanced = r.balanced;
    passed = λ j h. r.passed j (omega arith) ∙ rest j (omega arith);
    chosen = λ j h b. elim (Bool-cases (j == i)) [
      | inl y ↦
          let e = ==→eq j i y in
          subst (λ k. IsKept which (get_or (s.fds p) k closed) (get_or (s'.fds p) k closed)) (sym e)
            (subst (IsKept which (get_or (s.fds p) i closed)) (sym (r.passed i (omega arith))) here)
      | inr n ↦
          subst (λ o. IsKept which o (get_or (s'.fds p) j closed)) (rest j (==→ne j i n))
            (r.chosen j (omega (arith, ==→ne j i n)) b)
    ];
    others = λ q h. r.others q h ∙ tables q h;
  }

  release_from-ReleasedFrom :
      (rounds i : ℕ) (s : State)
      → i + rounds ≡ max_fds
      → IsBalanced s
      → (s' : State) × (release_from which rounds i p s ≡ some s') × ReleasedFrom which i p s s'
  unfolding release_from
  release_from-ReleasedFrom zero i s e v = (
    s,
    refl,
    record {
      balanced = v;
      passed = λ j h. refl;
      chosen = λ j h b. absurd (omega arith);
      others = λ q h. refl;
    },
  )
  release_from-ReleasedFrom (suc rounds) i s e v =
      elim (Option-cases (get_or (s.fds p) i closed).file) [
        | inl null ↦
            let (s', run, r) = release_from-ReleasedFrom rounds (i + 1) s (omega arith) v in
            (
              s',
              rw (null, release_from) run,
              joins i s s s' (λ j h. refl) (λ _. null, λ _. refl) (λ q h. refl) r,
            )
        | inr (f, open_i) ↦ elim (Bool-cases (which (get_or (s.fds p) i closed))) [
          | inr skip ↦
              let (s', run, r) = release_from-ReleasedFrom rounds (i + 1) s (omega arith) v in
              (
                s',
                ground (arith, open_i, skip, run),
                joins i s s s' (λ j h. refl) (λ h. absurd (clash h skip), λ _. refl) (λ q h. refl)
                    r,
              )
          | inl take ↦
              let (t, run_t, rel) = release_fd-Released p i f s v pb (omega arith) open_i in
              let (s', run, r) =
                release_from-ReleasedFrom rounds (i + 1) t (omega arith) rel.balanced in
              let row : t.fds p ≡ set (s.fds p) i closed =
                ap (λ (tab : ℕ → Fds). tab p) rel.tables ∙ rw (eq→== p p refl) refl in
              (
                s',
                ground (arith, open_i, take, run_t, run),
                joins i s t s'
                    (λ j h.
                      ap (λ l. get_or l j closed) row
                      ∙ get_or-set_ne (s.fds p) i j closed closed (λ e. h (sym e)))
                    (
                      λ _.
                          ap (λ (l : Fds). (get_or l i closed).file) row
                          ∙ ap (λ (e : Slot). e.file)
                              (get_or-set_self (s.fds p) i closed closed
                                (omega (arith, v.sized p pb))),
                      λ h. absurd (clash take h),
                    )
                    (λ q h. ap (λ (tab : ℕ → Fds). tab q) rel.tables ∙ ground arith) r,
              )
        ]
      ]
    where
      clash : {b : Bool} → b ≡ true → b ≡ false → ⊥
      clash h k = cc

refs-none :
    (fds : Fds) (a : ℕ)
    → ((j : ℕ) → j < length fds → (get_or fds j closed).file ≡ none)
    → refs a fds ≡ 0
refs-none [] a h = refl
refs-none (e ∷ fds) a h =
    omega
      (arith, ap (names a) (h 0 (omega arith)), refs-none fds a (λ j b. h (suc j) (omega arith)))

-- `sys_exit` on a balanced state fails no assertion: it releases every descriptor of the process,
-- leaves those of the others, and keeps the balance, so that a file which no other process names is
-- freed.
pub exit_fds_lem :
    (p : ℕ) (s : State)
    → IsBalanced s
    → p < ptable_size
    → (s' : State) × (exit_fds p s ≡ some s')
      × IsBalanced s'
      × (s'.fds p ≡ replicate max_fds closed)
      × ((q : ℕ) → q ≢ p → s'.fds q ≡ s.fds q)
unfolding exit_fds
exit_fds_lem p s v pb =
    let (t, run, r) = release_from-ReleasedFrom (λ _. true) p pb max_fds 0 s refl v in
    let tables = set_fds t.fds p (replicate max_fds closed) in
    (
      record t { fds = tables },
      ground (arith, run),
      record {
        sized = λ q qb. elim (Bool-cases (q == p)) [
          | inl y ↦ rw y (length-replicate max_fds closed)
          | inr n ↦ rw n (r.balanced.sized q qb)
        ];
        exact = record {
          counted = λ a. omega (
            arith,
            r.balanced.exact.counted a,
            total-set ptable_size t.fds p (replicate max_fds closed) a pb,
            refs-closed a max_fds,
            refs-none (t.fds p) a
                (λ j b. (r.chosen j (omega arith) (omega (arith, r.balanced.sized p pb))).0 refl),
          );
          nonzero = r.balanced.exact.nonzero;
        };
      },
      rw (eq→== p p refl) refl,
      λ q h. rw (ne→== q p h) (r.others q h),
    )

-- `sys_exec` on a balanced state fails no assertion: it releases exactly the descriptors of the
-- process that are marked `cloexec`, and keeps the balance.
pub exec_fds_lem :
    (p : ℕ) (s : State)
    → IsBalanced s
    → p < ptable_size
    → (s' : State) × (exec_fds p s ≡ some s')
      × IsBalanced s'
      × ((j : ℕ)
          → j < max_fds
          → ((get_or (s.fds p) j closed).cloexec ≡ true → (get_or (s'.fds p) j closed).file ≡ none)
            × ((get_or (s.fds p) j closed).cloexec ≡ false
                → get_or (s'.fds p) j closed ≡ get_or (s.fds p) j closed))
      × ((q : ℕ) → q ≢ p → s'.fds q ≡ s.fds q)
unfolding exec_fds
exec_fds_lem p s v pb =
    let (t, run, r) = release_from-ReleasedFrom (λ (e : Slot). e.cloexec) p pb max_fds 0 s refl v in
    (t, run, r.balanced, λ j b. r.chosen j (omega arith) b, r.others)
