-- ===== src/Kernel/Proc/Scheduler.antt =====
-- The scheduler runs the next ready process round the table.
use petix.Prelude.{
  ℕ, zero, suc, ◌+◌, ◌-◌, ◌%◌, ◌≤◌, ◌<◌, ◌≡◌, ◌≢◌, refl, ◌∙◌, ap, sym, subst, Bool, true, false,
  ◌||◌, if◌then◌else◌, arith, Bool-cases, inl, inr, ◌⊎◌, ◌==◌, ==→eq, ==→ne,
}
use native.Mathlib.Decide.{dec_lt}
use petix.Kernel.Sync.{ReadyState}
use petix.Kernel.Proc.{
  ptable_size, pid_off, Pcb, Procs, is_ready, is_asleep, Scan, runs, idles, panics, scan, Sched,
  returned, switched, halted, panicked, finish_scan, sched_round, demote, sched, set_pcb,
}
use petix.Kernel.Proc.Table.{slot}

-- What a round of the table from `ioff` ends with, once the first `k` slots were passed.
abbrev pub Scans : (ℕ → Pcb) → ℕ → ℕ → Bool → Scan → Type 0
Scans table ioff k blocked_p (runs off) =
    (d : ℕ) × (k ≤ d)
    × (d < ptable_size)
    × (off ≡ slot ioff d)
    × (is_ready (table off).rs ≡ true)
    × ((j : ℕ) → k ≤ j → j < d → is_ready (table (slot ioff j)).rs ≡ false)
Scans table ioff k blocked_p idles =
    ((blocked_p ≡ true)
      ⊎ ((j : ℕ) × (k ≤ j) × (j < ptable_size) × (is_asleep (table (slot ioff j)).rs ≡ true)))
    × ((j : ℕ) → k ≤ j → j < ptable_size → is_ready (table (slot ioff j)).rs ≡ false)
Scans table ioff k blocked_p panics =
    (blocked_p ≡ false)
    × ((j : ℕ)
        → k ≤ j
        → j < ptable_size
        → (is_ready (table (slot ioff j)).rs ≡ false)
          × (is_asleep (table (slot ioff j)).rs ≡ false))

module _ (table : ℕ → Pcb) (ioff : ℕ) where
  abbrev at : ℕ → ReadyState
  at j = (table (slot ioff j)).rs

  not_ready_from :
      (k top : ℕ)
      → is_ready (at k) ≡ false
      → ((j : ℕ) → k + 1 ≤ j → j < top → is_ready (at j) ≡ false)
      → (j : ℕ) → k ≤ j
      → j < top
      → is_ready (at j) ≡ false
  not_ready_from k top h rest j lo hi = elim (Bool-cases (j == k)) [
    | inl e ↦ ap (λ l. is_ready (at l)) (==→eq j k e) ∙ h
    | inr e ↦ rest j (ground arith) hi
  ]

  passes :
      (k : ℕ) (blocked_p : Bool) (r : Scan)
      → k < ptable_size
      → is_ready (at k) ≡ false
      → Scans table ioff (k + 1) (blocked_p || is_asleep (at k)) r
      → Scans table ioff k blocked_p r
  passes k blocked_p (runs off) b h (d, lo, hi, e, y, f) =
      (d, omega arith, hi, e, y, not_ready_from k d h f)
  passes k blocked_p idles b h f = (seen f.0, not_ready_from k ptable_size h f.1)
    where
      seen :
          ((blocked_p || is_asleep (at k)) ≡ true)
            ⊎ ((j : ℕ) × (k + 1 ≤ j) × (j < ptable_size) × (is_asleep (at j) ≡ true))
          → (blocked_p ≡ true) ⊎ ((j : ℕ) × (k ≤ j) × (j < ptable_size) × (is_asleep (at j) ≡ true))
      seen (inr (j, lo, hi, w)) = inr (j, omega arith, hi, w)
      seen (inl e) = elim (Bool-cases blocked_p) [
        | inl c ↦ inl c
        | inr c ↦ inr (k, omega arith, b, ground arith)
      ]
  passes k blocked_p panics b h f = (
    ground (arith, f.0),
    λ j lo hi. elim (Bool-cases (j == k)) [
      | inl e ↦ (
        ap (λ l. is_ready (at l)) (==→eq j k e) ∙ h,
        ap (λ l. is_asleep (at l)) (==→eq j k e) ∙ ground (arith, f.0),
      )
      | inr e ↦ f.1 j (ground arith) hi
    ],
  )

  last_slot :
      (k : ℕ) (blocked_p : Bool)
      → k + 1 ≡ ptable_size
      → Scans table ioff (k + 1) blocked_p (if blocked_p then idles else panics)
  last_slot k true e = (inl refl, λ j lo hi. absurd (omega arith))
  last_slot k false e = (refl, λ j lo hi. absurd (omega arith))

  scan-Scans :
      (rounds k : ℕ) (blocked_p : Bool)
      → ioff < ptable_size
      → k + rounds ≡ ptable_size
      → 0 < rounds
      → Scans table ioff k blocked_p (scan rounds table ioff (slot ioff k) blocked_p)
  unfolding scan
  scan-Scans zero k blocked_p b e h = elim h [ ]
  scan-Scans (suc rounds) k blocked_p b e h = elim (Bool-cases (is_ready (at k))) [
    | inl y ↦ rw y (k, omega arith, omega arith, refl, y, λ j lo hi. absurd (omega arith))
    | inr n ↦ elim (Bool-cases ((slot ioff k + 1) % ptable_size == ioff)) [
      | inl last ↦
          rw (n, last)
            (passes k blocked_p _ (omega arith) n
              (last_slot k (blocked_p || is_asleep (at k)) (omega (arith, ==→eq _ _ last))))
      | inr more ↦
          let next : (slot ioff k + 1) % ptable_size ≡ slot ioff (k + 1) = omega arith in
          rw (n, more, next)
            (passes k blocked_p _ (omega arith) n (
              scan-Scans rounds (k + 1) (blocked_p || is_asleep (at k)) b (omega arith)
                (omega (arith, ==→ne _ _ more))))
    ]
  ]

-- How many slots behind the one that follows `cur` a slot is.
abbrev pub distance : ℕ → ℕ → ℕ
distance cur i = (i + ptable_size - (cur + 1) % ptable_size) % ptable_size

-- What a round of `sched` from state `s` does. A process that is ready and is not chosen is nearer
-- to the chosen one than it was to the one before.
abbrev pub Chooses : Procs → Sched → Type 0
Chooses s (returned s') = ⊥
Chooses s (switched s') =
    (off : ℕ) × (off < ptable_size)
    × (is_ready (s.table off).rs ≡ true)
    × (s'.table ≡ set_pcb s.table off (record (s.table off) { rs = ReadyState.running }))
    × (s'.curpid ≡ (if off == pid_off s.curpid then s.curpid else (s.table off).pid))
    × ((i : ℕ)
        → i < ptable_size
        → is_ready (s.table i).rs ≡ true
        → i ≢ off
        → distance off i < distance (pid_off s.curpid) i)
Chooses s (halted s') = (s' ≡ s) × ((i : ℕ) → i < ptable_size → is_ready (s.table i).rs ≡ false)
Chooses s panicked =
    (i : ℕ)
    → i < ptable_size
    → (is_ready (s.table i).rs ≡ false) × (is_asleep (s.table i).rs ≡ false)

around : (cur i : ℕ) → i < ptable_size → slot ((cur + 1) % ptable_size) (distance cur i) ≡ i
around cur i b = omega arith

chosen-Chooses :
    (s : Procs) (blocked_p : Bool) (r : Scan)
    → Scans s.table ((pid_off s.curpid + 1) % ptable_size) 0 blocked_p r
    → Chooses s (finish_scan s r)
unfolding finish_scan
chosen-Chooses s blocked_p (runs off) (d, lo, hi, e, y, f) = (
  off,
  omega (arith, e),
  y,
  refl,
  refl,
  λ i b ready other. elim (dec_lt (distance (pid_off s.curpid) i) d) [
    | yes near ↦ absurd (
        clash ready (f (distance (pid_off s.curpid) i) (omega arith) near)
          (around (pid_off s.curpid) i b))
    | no far ↦ omega (arith, e, other)
  ],
)
  where
    clash : {i j : ℕ} → is_ready (s.table i).rs ≡ true → is_ready (s.table j).rs ≡ false → j ≡ i → ⊥
    clash h k e = cc (ap (λ l. is_ready (s.table l).rs) e)
chosen-Chooses s blocked_p idles (f, g) = (
  refl,
  λ i b.
      ap (λ l. is_ready (s.table l).rs) (sym (around (pid_off s.curpid) i b))
      ∙ g (distance (pid_off s.curpid) i) (omega arith) (omega arith),
)
chosen-Chooses s blocked_p panics (f, g) = λ i b.
    let a = around (pid_off s.curpid) i b in
    let h = g (distance (pid_off s.curpid) i) (omega arith) (omega arith) in
    (
      ap (λ l. is_ready (s.table l).rs) (sym a) ∙ h.0,
      ap (λ l. is_asleep (s.table l).rs) (sym a) ∙ h.1,
    )

round-Scans :
    (blocked_p : Bool) (s : Procs)
    → let ioff = (pid_off s.curpid + 1) % ptable_size in
      Scans s.table ioff 0 blocked_p (scan ptable_size s.table ioff ioff blocked_p)
round-Scans blocked_p s =
    let ioff = (pid_off s.curpid + 1) % ptable_size in
    subst (λ a. Scans s.table ioff 0 blocked_p (scan ptable_size s.table ioff a blocked_p))
      (omega arith)
      (scan-Scans s.table ioff ptable_size 0 blocked_p (omega arith) refl (omega arith))

sched_round-Chooses : (blocked_p : Bool) (s : Procs) → Chooses s (sched_round blocked_p s)
unfolding sched_round
sched_round-Chooses blocked_p s =
    let ioff = (pid_off s.curpid + 1) % ptable_size in
    chosen-Chooses s blocked_p (scan ptable_size s.table ioff ioff blocked_p)
      (round-Scans blocked_p s)

-- Once a blocked process was seen, a round does not end in a panic.
seen_goes_on :
    (s : Procs) (ioff : ℕ) (r : Scan) → Scans s.table ioff 0 true r → finish_scan s r ≢ panicked
unfolding finish_scan
seen_goes_on s ioff (runs off) h = λ e. cc
seen_goes_on s ioff idles h = λ e. cc
seen_goes_on s ioff panics (f, g) = λ e. absurd cc

resumed : (s : Procs) → sched_round true s ≢ panicked
unfolding sched_round
resumed s =
    let ioff = (pid_off s.curpid + 1) % ptable_size in
    seen_goes_on s ioff (scan ptable_size s.table ioff ioff true) (round-Scans true s)

-- A call of `sched` during the halt of another returns and changes nothing. Any other first makes the
-- running process ready. Then it either runs a ready process, changing nothing else in the table,
-- such that every other ready process is nearer to its turn than before; or it halts, where no
-- process is ready; or it panics, where none is ready or blocked. So does the round of the table that
-- follows on a halt, but that it does not panic.
pub sched-Chooses :
    (s : Procs)
    → (sched true s ≡ returned s)
      × Chooses (demote s) (sched false s)
      × (Chooses s (sched_round true s) × (sched_round true s ≢ panicked))
unfolding sched
sched-Chooses s =
    (refl, sched_round-Chooses false (demote s), (sched_round-Chooses true s, resumed s))

-- `demote` changes nothing but that the current process is ready if it was running.
pub demote_lem :
    (s : Procs) (i : ℕ)
    → ((demote s).curpid ≡ s.curpid)
      × (((demote s).table i).pid ≡ (s.table i).pid)
      × (i ≢ pid_off s.curpid → (demote s).table i ≡ s.table i)
      × ((s.table (pid_off s.curpid)).rs ≡ ReadyState.running
          → ((demote s).table (pid_off s.curpid)).rs ≡ ReadyState.ready)
unfolding demote
demote_lem s i = ground arith
