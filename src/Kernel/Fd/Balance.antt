-- ===== src/Kernel/Fd/Balance.antt =====
-- The reference count of a file is the number of descriptors that name it: the steps.
use petix.Prelude.{
  ℕ, zero, suc, ◌+◌, ◌<◌, ◌≡◌, ◌≢◌, refl, ◌∙◌, ap, sym, false, [], ◌∷◌, Option, none, some, ◌==◌,
  arith, Bool-cases, Option-cases, inl, inr, ◌⊎◌, ◌↔◌, get_or, set, length, ==→eq, length-set,
}
use petix.Kernel.Errno.{ok, err, emfile}
use petix.Kernel.Fd.{
  max_fds, Slot, closed, Fds, Files, set_file, State, set_fds, free_fd, alloc_fd, drop_ref,
  release_fd, add_ref,
}
use petix.Kernel.Fd.Counts.{names, total, refs-set, names-le-refs, total-set, refs-le-total}
use petix.Kernel.Proc.{ptable_size}

abbrev pub uses : Option ℕ → ℕ
uses none = 0
uses (some c) = c

-- A file is allocated exactly while a descriptor names it, and its count is how many do.
pub record IsCounted (files : Files) (t : ℕ → ℕ) : Type 0 where
  pub counted : (a : ℕ) → uses (files a) ≡ t a
  pub nonzero : (a : ℕ) → files a ≢ some 0

pub record IsBalanced (s : State) : Type 0 where
  pub sized : (p : ℕ) → p < ptable_size → length (s.fds p) ≡ max_fds
  pub exact : IsCounted s.files (total ptable_size s.fds)

-- A use that is counted can be dropped; no assertion fails.
pub drop_ref-IsCounted :
    (f : ℕ) (files : Files) (t t' : ℕ → ℕ)
    → IsCounted files t
    → 0 < t f
    → ((a : ℕ) → t' a + names a (some f) ≡ t a)
    → (files' : Files) × (drop_ref (some f) files ≡ some files') × IsCounted files' t'
unfolding drop_ref
drop_ref-IsCounted f files t t' v h e = by_count f files t t' (files f) refl v h e
  where
    by_count :
        (f : ℕ) (files : Files) (t t' : ℕ → ℕ) (c : Option ℕ)
        → files f ≡ c
        → IsCounted files t
        → 0 < t f
        → ((a : ℕ) → t' a + names a (some f) ≡ t a)
        → (files' : Files) × (drop_ref (some f) files ≡ some files') × IsCounted files' t'
    by_count f files t t' none at v h e = absurd (omega (arith, v.counted f, ap uses at))
    by_count f files t t' (some zero) at v h e = absurd (v.nonzero f at)
    by_count f files t t' (some (suc zero)) at v h e = (
      set_file files f none,
      rw (at, drop_ref),
      record {
        counted = λ a. elim (Bool-cases (a == f)) [
          | inl y ↦ ground (arith, v.counted a, e a, ap files (==→eq a f y), at)
          | inr n ↦ ground (arith, v.counted a, e a)
        ];
        nonzero = λ a. ground (arith, v.nonzero a);
      },
    )
    by_count f files t t' (some (suc (suc c))) at v h e = (
      set_file files f (some (suc c)),
      rw (at, drop_ref),
      record {
        counted = λ a. elim (Bool-cases (a == f)) [
          | inl y ↦ ground (arith, v.counted a, e a, ap files (==→eq a f y), at)
          | inr n ↦ ground (arith, v.counted a, e a)
        ];
        nonzero = λ a. ground (arith, v.nonzero a);
      },
    )

pub add_ref-IsCounted :
    (f : Option ℕ) (files : Files) (t t' : ℕ → ℕ)
    → IsCounted files t
    → ((a : ℕ) → t' a ≡ t a + names a f)
    → IsCounted (add_ref f files) t'
unfolding add_ref
add_ref-IsCounted none files t t' v e = record {
  counted = λ a. omega (arith, v.counted a, e a);
  nonzero = v.nonzero;
}
add_ref-IsCounted (some f) files t t' v e = record {
  counted = λ a. elim (Bool-cases (a == f)) [
    | inl y ↦ ground (arith, v.counted a, e a, ap files (==→eq a f y))
    | inr n ↦ ground (arith, v.counted a, e a)
  ];
  nonzero = λ a. ground (arith, v.nonzero a);
}

-- A change of one entry of one table.
pub total-set_entry :
    (s : State) (p i : ℕ) (e : Slot) (a : ℕ)
    → IsBalanced s
    → p < ptable_size
    → i < max_fds
    → total ptable_size (set_fds s.fds p (set (s.fds p) i e)) a
        + names a (get_or (s.fds p) i closed).file
      ≡ total ptable_size s.fds a + names a e.file
total-set_entry s p i e a v pb ib = omega (
  arith,
  total-set ptable_size s.fds p (set (s.fds p) i e) a pb,
  refs-set a i (s.fds p) e (omega (arith, v.sized p pb)),
)

pub sized-set :
    (s : State) (p i : ℕ) (e : Slot) (q : ℕ)
    → length (s.fds q) ≡ max_fds
    → length (set_fds s.fds p (set (s.fds p) i e) q) ≡ max_fds
sized-set s p i e q h = elim (Bool-cases (q == p)) [
  | inl y ↦ rw y (length-set (s.fds p) i e ∙ ap (λ r. length (s.fds r)) (sym (==→eq q p y)) ∙ h)
  | inr n ↦ rw n h
]

-- `release_fd` on an open descriptor of a balanced state meets no failed assertion, closes that
-- entry, leaves the other tables and entries, and keeps the balance: the file is freed exactly when
-- no other descriptor names it.
pub record Released (p i f : ℕ) (s s' : State) : Type 0 where
  pub balanced : IsBalanced s'
  pub tables : s'.fds ≡ set_fds s.fds p (set (s.fds p) i closed)
  pub freed : (s'.files f ≡ none) ↔ (total ptable_size s'.fds f ≡ 0)

none_iff : (files : Files) (t : ℕ → ℕ) (f : ℕ) → IsCounted files t → (files f ≡ none) ↔ (t f ≡ 0)
none_iff files t f v = (λ e. omega (arith, v.counted f, ap uses e), λ e. zero_none (files f) refl e)
  where
    zero_none : (c : Option ℕ) → files f ≡ c → t f ≡ 0 → files f ≡ none
    zero_none none at e = at
    zero_none (some zero) at e = absurd (v.nonzero f at)
    zero_none (some (suc c)) at e = absurd (omega (arith, v.counted f, ap uses at))

-- `release_fd` on an open descriptor, where the counts of all files are the numbers of descriptors
-- that name them, fails no assertion. It makes that entry NULL and no other, the counts are right
-- afterwards, and the file is freed exactly when no descriptor names it any more.
pub release_fd-Released :
    (p i f : ℕ) (s : State)
    → IsBalanced s
    → p < ptable_size
    → i < max_fds
    → (get_or (s.fds p) i closed).file ≡ some f
    → (s' : State) × (release_fd p i s ≡ some s') × Released p i f s s'
unfolding release_fd
release_fd-Released p i f s v pb ib open_i =
    let tables = set_fds s.fds p (set (s.fds p) i closed) in
    let used : 0 < total ptable_size s.fds f = omega (
      arith,
      ap (names f) open_i,
      names_self f,
      names-le-refs f i (s.fds p),
      refs-le-total ptable_size s.fds p f pb,
    ) in
    let (files, e, c) =
      drop_ref-IsCounted f s.files (total ptable_size s.fds) (total ptable_size tables) v.exact used
        (λ a. omega (arith, total-set_entry s p i closed a v pb ib, ap (names a) open_i)) in
    (
      record { files = files; fds = tables },
      rw (open_i, e, release_fd),
      record {
        balanced = record { sized = λ q qb. sized-set s p i closed q (v.sized q qb); exact = c };
        tables = refl;
        freed = none_iff files (total ptable_size tables) f c;
      },
    )
  where
    names_self : (f : ℕ) → names f (some f) ≡ 1
    names_self f = ground arith

free_fd-open :
    (e : Slot) (fds : Fds) (i f : ℕ) → e.file ≡ some f → free_fd i (e ∷ fds) ≡ free_fd (i + 1) fds
unfolding free_fd
free_fd-open e fds i f h = ground arith

free_fd-closed : (e : Slot) (fds : Fds) (i : ℕ) → e.file ≡ none → free_fd i (e ∷ fds) ≡ some i
unfolding free_fd
free_fd-closed e fds i h = ground arith

-- The search finds an entry that is NULL, or all are open.
free_fd_lem :
    (fds : Fds) (i : ℕ)
    → ((j : ℕ) × (free_fd i fds ≡ some (i + j))
        × (j < length fds)
        × ((get_or fds j closed).file ≡ none))
      ⊎ ((free_fd i fds ≡ none)
          × ((j : ℕ) → j < length fds → (f : ℕ) × ((get_or fds j closed).file ≡ some f)))
unfolding free_fd
free_fd_lem [] i = inr (refl, λ j h. elim h [ ])
free_fd_lem (e ∷ fds) i = elim (Option-cases e.file) [
  | inl h ↦ inl (0, free_fd-closed e fds i h ∙ ap some (omega arith), omega arith, h)
  | inr (f, h) ↦ elim (free_fd_lem fds (i + 1)) [
    | inl (j, k, b, n) ↦
        inl (suc j, free_fd-open e fds i f h ∙ k ∙ ap some (omega arith), omega arith, n)
    | inr (k, all) ↦ inr (free_fd-open e fds i f h ∙ k, head_or e fds f h all)
  ]
]
  where
    head_or :
        (e : Slot) (fds : Fds) (f : ℕ)
        → e.file ≡ some f
        → ((j : ℕ) → j < length fds → (f : ℕ) × ((get_or fds j closed).file ≡ some f))
        → (j : ℕ) → j < suc (length fds)
        → (f : ℕ) × ((get_or (e ∷ fds) j closed).file ≡ some f)
    head_or e fds f h all zero b = (f, h)
    head_or e fds f h all (suc j) b = all j (omega arith)

-- `alloc_fd` at an address that no file has either opens an entry that is NULL, on a file of its own
-- with one use, leaving all else and keeping the balance, or returns -EMFILE, where every entry is
-- open, and changes nothing.
pub alloc_fd_lem :
    (fresh p : ℕ) (s : State)
    → IsBalanced s
    → p < ptable_size
    → s.files fresh ≡ none
    → ((i : ℕ) × (s' : State) × (alloc_fd fresh p s ≡ (s', ok i))
        × (i < max_fds)
        × ((get_or (s.fds p) i closed).file ≡ none)
        × (s'.files fresh ≡ some 1)
        × (s'.fds
            ≡ set_fds s.fds p (set (s.fds p) i (record { file = some fresh; cloexec = false })))
        × ((a : ℕ) → a ≢ fresh → s'.files a ≡ s.files a)
        × IsBalanced s')
      ⊎ ((alloc_fd fresh p s ≡ (s, err emfile))
          × ((i : ℕ) → i < max_fds → (f : ℕ) × ((get_or (s.fds p) i closed).file ≡ some f)))
unfolding alloc_fd
alloc_fd_lem fresh p s v pb new = elim (free_fd_lem (s.fds p) 0) [
  | inr (e, all) ↦ inr (rw (e, alloc_fd), λ i b. all i (omega (arith, v.sized p pb)))
  | inl (i, e, b, null) ↦
      let entry : Slot = record { file = some fresh; cloexec = false } in
      let tables = set_fds s.fds p (set (s.fds p) i entry) in
      let e' : free_fd 0 (s.fds p) ≡ some i = e ∙ ap some (omega arith) in
      let small : i < max_fds = omega (arith, v.sized p pb) in
      inl (
        i,
        record { files = set_file s.files fresh (some 1); fds = tables },
        rw (e', alloc_fd),
        small,
        null,
        ground arith,
        refl,
        λ a h. ground arith,
        record {
          sized = λ q qb. sized-set s p i entry q (v.sized q qb);
          exact = record {
            counted = λ a. elim (Bool-cases (a == fresh)) [
              | inl y ↦ ground (
                arith,
                v.exact.counted a,
                ap uses (ap s.files (==→eq a fresh y) ∙ new),
                ap (names a) null,
                total-set_entry s p i entry a v pb small,
              )
              | inr n ↦ ground (
                arith,
                v.exact.counted a,
                ap (names a) null,
                total-set_entry s p i entry a v pb small,
              )
            ];
            nonzero = λ a. ground (arith, v.exact.nonzero a);
          };
        },
      )
]
