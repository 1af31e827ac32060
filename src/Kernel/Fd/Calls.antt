-- ===== src/Kernel/Fd/Calls.antt =====
-- The system calls on descriptors keep every file's reference count exact.
use petix.Prelude.{
  ℕ, ◌+◌, ◌≤◌, ◌<◌, ◌≡◌, ◌≢◌, refl, ◌∙◌, ap, sym, false, [], ◌∷◌, none, some, leb, ◌==◌, arith,
  Bool-cases, Option-cases, inl, inr, ◌⊎◌, ◌↔◌, get_or, set, length, ==→eq, ==→ne, some_inj, eq→==,
  get_or-set_self, get_or-set_ne, ℤ, pos, negsuc,
}
use petix.Kernel.Errno.{ok, err, ebadf}
use petix.Kernel.Fd.{
  max_fds, Slot, closed, Fds, Files, State, set_fds, add_ref, dup_fd, valid_fd, sys_close, sys_dup2,
  share_fd, add_refs, fork_fds,
}
use petix.Kernel.Fd.Counts.{names, refs, total, total-set}
use petix.Kernel.Fd.Balance.{
  IsCounted, IsBalanced, add_ref-IsCounted, sized-set, Released, release_fd-Released,
  total-set_entry,
}
use petix.Kernel.Proc.{ptable_size}

-- A descriptor passes the test exactly if it is an entry of the table that is open.
pub valid_fd_lem :
    (fd : ℤ) (fds : Fds) (i : ℕ)
    → (valid_fd fd fds ≡ some i)
      ↔ ((fd ≡ pos i) × (i < max_fds) × (f : ℕ) × ((get_or fds i closed).file ≡ some f))
unfolding valid_fd
valid_fd_lem (negsuc n) fds i = (λ h. cc, λ h. cc)
valid_fd_lem (pos n) fds i = elim (Bool-cases (leb max_fds n)) [
  | inl big ↦ (λ h. absurd (ground arith), λ h. absurd (ground arith))
  | inr small ↦ elim (Option-cases (get_or fds n closed).file) [
    | inl e ↦ (
      λ h. absurd (ground arith),
      λ h. absurd (ground (arith, ap (λ k. (get_or fds k closed).file) (pos_inj h.0))),
    )
    | inr (f, e) ↦ (
      λ h.
          let same : n ≡ i = some_inj (sym (open_lem n f fds small e) ∙ h) in
          (
            ap pos same,
            omega (arith, ltb_of_leb n small),
            f,
            ap (λ k. (get_or fds k closed).file) (sym same) ∙ e,
          ),
      λ h. open_lem n f fds small e ∙ ap some (pos_inj h.0),
    )
  ]
]
  where
    pos_inj : {a b : ℕ} → pos a ≡ pos b → a ≡ b
    pos_inj h = cc

    open_lem :
        (n f : ℕ) (fds : Fds)
        → leb max_fds n ≡ false
        → (get_or fds n closed).file ≡ some f
        → valid_fd (pos n) fds ≡ some n
    open_lem n f fds small e = ground arith

    ltb_of_leb : (n : ℕ) → leb max_fds n ≡ false → n < max_fds
    ltb_of_leb n h = ground arith

-- `sys_close` on a balanced state never fails an assertion. On an open descriptor it releases that
-- one and returns 0; on any other it returns -EBADF and changes nothing.
pub sys_close_lem :
    (p : ℕ) (fd : ℤ) (s : State)
    → IsBalanced s
    → p < ptable_size
    → ((i f : ℕ) × (s' : State) × (valid_fd fd (s.fds p) ≡ some i)
        × (sys_close p fd s ≡ some (s', ok 0))
        × Released p i f s s')
      ⊎ ((valid_fd fd (s.fds p) ≡ none) × (sys_close p fd s ≡ some (s, err ebadf)))
unfolding sys_close
sys_close_lem p fd s v pb = elim (Option-cases (valid_fd fd (s.fds p))) [
  | inl e ↦ inr (e, rw (e, sys_close))
  | inr (i, e) ↦
      let (at, b, f, open_i) = (valid_fd_lem fd (s.fds p) i).0 e in
      let (s', r, rel) = release_fd-Released p i f s v pb b open_i in
      inl (i, f, s', e, rw (e, r, sys_close), rel)
]

-- Two descriptors share a file: the second, which is closed, gets the file of the first.
share_fd-IsBalanced :
    (p i j f : ℕ) (s : State)
    → IsBalanced s
    → p < ptable_size
    → j < max_fds
    → (get_or (s.fds p) i closed).file ≡ some f
    → (get_or (s.fds p) j closed).file ≡ none
    → IsBalanced (share_fd p i j s)
unfolding share_fd dup_fd
share_fd-IsBalanced p i j f s v pb jb open_i closed_j =
    let entry : Slot = record (get_or (s.fds p) j closed) {
      file = (get_or (s.fds p) i closed).file;
    } in
    record {
      sized = λ q qb. sized-set s p j entry q (v.sized q qb);
      exact =
          add_ref-IsCounted entry.file s.files (total ptable_size s.fds)
            (total ptable_size (set_fds s.fds p (set (s.fds p) j entry))) v.exact
            (λ a. omega (arith, total-set_entry s p j entry a v pb jb, ap (names a) closed_j));
    }

share_fd-file :
    (p i j : ℕ) (s : State)
    → j < length (s.fds p)
    → (get_or ((share_fd p i j s).fds p) j closed).file ≡ (get_or (s.fds p) i closed).file
unfolding share_fd dup_fd
share_fd-file p i j s b = rw (eq→== p p refl) (
    ap (λ (e : Slot). e.file)
      (get_or-set_self (s.fds p) j
        (record (get_or (s.fds p) j closed) { file = (get_or (s.fds p) i closed).file }) closed b))

-- What `sys_dup2` leaves where it returns the second descriptor.
pub record Shared (p i j : ℕ) (s s' : State) : Type 0 where
  pub balanced : IsBalanced s'
  pub shares : (get_or (s'.fds p) j closed).file ≡ (get_or (s.fds p) i closed).file

-- The two branches past the tests.
share_closed :
    (p i j f : ℕ) (s : State)
    → IsBalanced s
    → p < ptable_size
    → j < max_fds
    → (get_or (s.fds p) i closed).file ≡ some f
    → (get_or (s.fds p) j closed).file ≡ none
    → Shared p i j s (share_fd p i j s)
share_closed p i j f s v pb jb open_i closed_j = record {
  balanced = share_fd-IsBalanced p i j f s v pb jb open_i closed_j;
  shares = share_fd-file p i j s (omega (arith, v.sized p pb));
}

share_open :
    (p i j f g : ℕ) (s s' : State)
    → IsBalanced s
    → p < ptable_size
    → j < max_fds
    → i ≢ j
    → (get_or (s.fds p) i closed).file ≡ some f
    → Released p j g s s'
    → Shared p i j s (share_fd p i j s')
share_open p i j f g s s' v pb jb ne open_i r =
    let size : j < length (s.fds p) = omega (arith, v.sized p pb) in
    let row : s'.fds p ≡ set (s.fds p) j closed =
      ap (λ (t : ℕ → Fds). t p) r.tables ∙ rw (eq→== p p refl) refl in
    let same : get_or (s'.fds p) i closed ≡ get_or (s.fds p) i closed =
      ap (λ l. get_or l i closed) row
      ∙ get_or-set_ne (s.fds p) j i closed closed (λ e. ne (sym e)) in
    let null : (get_or (s'.fds p) j closed).file ≡ none =
      ap (λ l. (get_or l j closed).file) row
      ∙ ap (λ (e : Slot). e.file) (get_or-set_self (s.fds p) j closed closed size) in
    let t =
      share_closed p i j f s' r.balanced pb jb (ap (λ (e : Slot). e.file) same ∙ open_i) null in
    record { balanced = t.balanced; shares = t.shares ∙ ap (λ (e : Slot). e.file) same }

-- `sys_dup2` on a balanced state never fails an assertion and keeps the balance. Where the first
-- descriptor is not open or the second is out of range it returns -EBADF and changes nothing; else
-- it returns the second, which then names the file of the first.
pub sys_dup2_lem :
    (p : ℕ) (fd : ℤ) (j : ℕ) (s : State)
    → IsBalanced s
    → p < ptable_size
    → (((valid_fd fd (s.fds p) ≡ none) ⊎ (max_fds ≤ j))
        × (sys_dup2 p fd (pos j) s ≡ some (s, err ebadf)))
      ⊎ ((i : ℕ) × (s' : State) × (valid_fd fd (s.fds p) ≡ some i)
          × (j < max_fds)
          × (sys_dup2 p fd (pos j) s ≡ some (s', ok j))
          × Shared p i j s s')
unfolding sys_dup2
sys_dup2_lem p fd j s v pb = elim (Option-cases (valid_fd fd (s.fds p))) [
  | inl e ↦ inl (inl e, rw (e, sys_dup2))
  | inr (i, e) ↦
      let (at, b, f, open_i) = (valid_fd_lem fd (s.fds p) i).0 e in
      elim (Bool-cases (leb max_fds j)) [
        | inl big ↦ inl (inr (ground arith), ground (arith, e, big))
        | inr small ↦ elim (Bool-cases (i == j)) [
          | inl same ↦ inr (
            i,
            s,
            e,
            ground arith,
            ground (arith, e, small, same),
            record {
              balanced = v;
              shares = ap (λ k. (get_or (s.fds p) k closed).file) (sym (==→eq i j same));
            },
          )
          | inr other ↦
              let jb : j < max_fds = ground arith in
              elim (Option-cases (get_or (s.fds p) j closed).file) [
                | inl null ↦ inr (
                  i,
                  share_fd p i j s,
                  e,
                  jb,
                  ground (arith, e, small, other, null),
                  share_closed p i j f s v pb jb open_i null,
                )
                | inr (g, open_j) ↦
                    let (s', r, rel) = release_fd-Released p j g s v pb jb open_j in
                    inr (
                      i,
                      share_fd p i j s',
                      e,
                      jb,
                      ground (arith, e, small, other, open_j, r),
                      share_open p i j f g s s' v pb jb (==→ne i j other) open_i rel,
                    )
              ]
        ]
      ]
]

add_refs-IsCounted :
    (fds : Fds) (files : Files) (t t' : ℕ → ℕ)
    → IsCounted files t
    → ((a : ℕ) → t' a ≡ t a + refs a fds)
    → IsCounted (add_refs fds files) t'
unfolding add_refs
add_refs-IsCounted [] files t t' v e = record {
  counted = λ a. omega (arith, v.counted a, e a);
  nonzero = v.nonzero;
}
add_refs-IsCounted (s ∷ fds) files t t' v e =
    add_refs-IsCounted fds (add_ref s.file files) (λ a. t a + names a s.file) t'
      (add_ref-IsCounted s.file files t (λ a. t a + names a s.file) v (λ a. refl))
      (λ a. omega (arith, e a))

-- `sys_fork` gives the new process, whose table named no file, the descriptors of the old one, and
-- counts each file once more for each descriptor: the balance is kept.
pub fork_fds_lem :
    (p q : ℕ) (s : State)
    → IsBalanced s
    → p < ptable_size
    → q < ptable_size
    → ((a : ℕ) → refs a (s.fds q) ≡ 0)
    → IsBalanced (fork_fds p q s) × ((fork_fds p q s).fds q ≡ s.fds p)
unfolding fork_fds
fork_fds_lem p q s v pb qb empty = (
  record {
    sized = λ r rb. elim (Bool-cases (r == q)) [
      | inl y ↦ rw y (v.sized p pb)
      | inr n ↦ rw n (v.sized r rb)
    ];
    exact =
        add_refs-IsCounted (s.fds p) s.files (total ptable_size s.fds)
          (total ptable_size (set_fds s.fds q (s.fds p))) v.exact
          (λ a. omega (arith, total-set ptable_size s.fds q (s.fds p) a qb, empty a));
  },
  rw (eq→== q q refl) refl,
)
