-- ===== src/Kernel/Fd/Tests.antt =====
-- A process with fifteen descriptors of one file and one entry that is NULL.
use petix.Prelude.{
  ℕ, zero, suc, ◌<◌, ◌≡◌, ◌≢◌, refl, false, [], ◌∷◌, ◌++◌, none, some, ◌==◌, arith, Bool-cases, inl,
  inr, get_or, replicate, ne→==,
}
use petix.Kernel.Fd.{
  max_fds, Slot, closed, Fds, set_file, State, set_fds, release_fd, pipe_fds, fork_fds,
}
use petix.Kernel.Fd.Counts.{refs, total}
use petix.Kernel.Fd.Balance.{IsBalanced, Released, release_fd-Released}
use petix.Kernel.Fd.Calls.{fork_fds_lem}
use petix.Kernel.Fd.Leak.{pipe_fds-leak}

abbrev on_seven : Slot
on_seven = record { file = some 7; cloexec = false }

abbrev fifteen : Fds
fifteen = replicate 15 on_seven ++ closed ∷ []

abbrev shell : State
shell = record {
  files = set_file (λ _. none) 7 (some 15);
  fds = set_fds (λ _. replicate max_fds closed) 0 fifteen;
}

shell-others : (n a : ℕ) → refs a (shell.fds (suc n)) ≡ 0
shell-others n a = rw (ne→== (suc n) 0 (omega arith)) refl

shell-total : (n a : ℕ) → total (suc n) shell.fds a ≡ refs a fifteen
unfolding total
shell-total zero a = omega arith
shell-total (suc n) a = omega (arith, shell-total n a, shell-others n a)

shell-counted : (a : ℕ) → shell.files a ≢ some 0
shell-counted a = ground arith

shell-IsBalanced : IsBalanced shell
shell-IsBalanced = record {
  sized = λ p h. elim (Bool-cases (p == 0)) [ inl e ↦ rw e refl | inr n ↦ rw n refl ];
  exact = record {
    counted = λ a. elim (Bool-cases (a == 7)) [
      | inl e ↦ ground (arith, shell-total 1023 a)
      | inr n ↦ ground (arith, shell-total 1023 a)
    ];
    nonzero = shell-counted;
  };
}

get_or-fifteen :
    (n j : ℕ) (e : Slot) (rest : Fds) → j < n → get_or (replicate n e ++ rest) j closed ≡ e
get_or-fifteen zero j e rest h = absurd (omega arith)
get_or-fifteen (suc n) zero e rest h = refl
get_or-fifteen (suc n) (suc j) e rest h = get_or-fifteen n j e rest (omega arith)

fifteen_open : (j : ℕ) → j < max_fds → j ≢ 15 → (get_or (shell.fds 0) j closed).file ≢ none
fifteen_open j h n e = cc (get_or-fifteen 15 j on_seven (closed ∷ []) (omega arith), e)

release_fd-Released_example :
    (s' : State) × (release_fd 0 3 shell ≡ some s') × Released 0 3 7 shell s'
release_fd-Released_example =
    release_fd-Released 0 3 7 shell shell-IsBalanced (omega arith) (omega arith) refl

fork_fds_lem_example : IsBalanced (fork_fds 0 1 shell) × ((fork_fds 0 1 shell).fds 1 ≡ shell.fds 0)
fork_fds_lem_example =
    fork_fds_lem 0 1 shell shell-IsBalanced (omega arith) (omega arith) (λ a. refl)

pipe_fds-leak_example :
    (s' : State) × (pipe_fds 8 9 0 shell ≡ (s', none))
    × (s'.files 8 ≡ some 1)
    × ((get_or (s'.fds 0) 15 closed).file ≡ some 8)
pipe_fds-leak_example =
    pipe_fds-leak 8 9 0 15 shell shell-IsBalanced (omega arith) refl refl (omega arith)
      (omega arith) refl fifteen_open
