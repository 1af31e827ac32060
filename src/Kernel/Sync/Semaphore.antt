-- ===== src/Kernel/Sync/Semaphore.antt =====
-- `sem_signal` and `sem_wait`, by any number of processes in any order.
use petix.Prelude.{
  ℕ, ◌+◌, ◌-◌, ◌<◌, ◌≡◌, refl, ◌∙◌, ap, sym, subst, ◌↔◌, Bool, true, false, List, [], ◌∷◌, some,
  arith, leb, ◌==◌, if◌then◌else◌, Bool-cases, ◌⊎◌, inl, inr, ◌≢◌, ==→eq, some_inj,
}
use petix.Kernel.Sync.{
  ReadyState, RunStates, set_rs, Waiter, Sem, sem_signal, sem_wait, cond_wake, cond_wait,
  is_running,
}
use petix.Kernel.Sync.Waiters.{
  waits, AreBlocked, served, unserved, push_all, wake_served, AreBlocked-set_rs, signal_walk_lem,
  wake_served_at, waits-push_all, push_all-AreBlocked, not_waits,
}

-- The count after `sem_signal`: a binary semaphore is at 1.
abbrev pub raised : ℕ → ℕ → ℕ
raised n count = if n == 0 then 1 else count + n

-- Where every process on the list is blocked, `sem_signal` meets no failed assertion. It raises the
-- count, makes exactly the processes ready whose need the new count meets, and keeps the others on
-- the list, blocked as they were.
pub sem_signal_lem :
    (n : ℕ) (s : Sem) (rs : RunStates)
    → AreBlocked s.waiters rs
    → (s' : Sem) × (rs' : RunStates) × (sem_signal n s rs ≡ some (s', rs'))
      × (s'.count ≡ raised n s.count)
      × AreBlocked s'.waiters rs'
      × ((pid : ℕ) → waits pid s'.waiters ≡ waits pid (unserved (raised n s.count) s.waiters))
      × ((pid : ℕ)
          → rs' pid ≡ (
              if waits pid (served (raised n s.count) s.waiters) then ReadyState.ready else rs pid))
unfolding sem_signal
sem_signal_lem n s rs b =
    let count = raised n s.count in
    (
      record { count = count; waiters = push_all (unserved count s.waiters) [] },
      wake_served (served count s.waiters) rs,
      rw (signal_walk_lem count s.waiters [] rs b, sem_signal),
      refl,
      push_all-AreBlocked count s.waiters [] rs b tt (λ pid h. refl),
      λ pid. ground (arith, waits-push_all (unserved count s.waiters) [] pid),
      λ pid. wake_served_at (served count s.waiters) rs pid,
    )

-- `sem_wait` by a running process takes its units at once if they are there, and else leaves the
-- count and blocks it on the list; the processes on the list are blocked afterwards as before.
pub sem_wait_lem :
    (pid n : ℕ) (s : Sem) (rs : RunStates)
    → AreBlocked s.waiters rs
    → rs pid ≡ ReadyState.running
    → (taken : Bool) × (s' : Sem) × (rs' : RunStates) × (sem_wait pid n s rs
        ≡ some (taken, s', rs'))
      × AreBlocked s'.waiters rs'
      × (taken ≡ leb (if n == 0 then 1 else n) s.count)
      × (taken ≡ true
          → (s'.count + (if n == 0 then 1 else n) ≡ s.count) × (rs' pid ≡ ReadyState.running))
      × (taken ≡ false
          → (s'.count ≡ s.count) × (rs' pid ≡ ReadyState.blocked) × (waits pid s'.waiters ≡ true))
unfolding sem_wait
sem_wait_lem pid n s rs b run =
    let needed = if n == 0 then 1 else n in
    let off = not_waits s.waiters rs pid b (λ h. cc) in
    elim (Bool-cases (leb needed s.count)) [
      | inl e ↦ (
        true,
        record s { count = s.count - needed },
        rs,
        ground arith,
        b,
        ground arith,
        ground arith,
        λ h. cc,
      )
      | inr e ↦ (
        false,
        record s { waiters = record { pid = pid; needed = needed } ∷ s.waiters },
        set_rs rs pid ReadyState.blocked,
        ground arith,
        (ground arith, off, AreBlocked-set_rs s.waiters rs pid ReadyState.blocked b off),
        ground arith,
        λ h. cc,
        λ h. (refl, ground arith, ground arith),
      )
    ]

-- A condition variable and the processes that use it. The scheduler moves a process that is not
-- blocked between the other states.
pub record CondSystem : Type 0 where
  pub sem : Sem
  pub rs : RunStates

pub data CondStep : CondSystem → CondSystem → Type 0 where
  wakes :
      (s : CondSystem) (sem' : Sem) (rs' : RunStates)
      → cond_wake s.sem s.rs ≡ some (sem', rs')
      → CondStep s (record { sem = sem'; rs = rs' })
  waits_on :
      (s : CondSystem) (pid : ℕ) (taken : Bool) (sem' : Sem) (rs' : RunStates)
      → cond_wait pid s.sem s.rs ≡ some (taken, sem', rs')
      → CondStep s (record { sem = sem'; rs = rs' })
  schedules :
      (s : CondSystem) (pid : ℕ) (r : ReadyState)
      → s.rs pid ≢ ReadyState.blocked
      → r ≢ ReadyState.blocked
      → CondStep s (record s { rs = set_rs s.rs pid r })

blocked_of_waits :
    (ws : List Waiter) (rs : RunStates) (pid : ℕ)
    → AreBlocked ws rs
    → waits pid ws ≡ true
    → rs pid ≡ ReadyState.blocked
blocked_of_waits [] rs pid b h = cc
blocked_of_waits (w ∷ ws) rs pid b h = elim (Bool-cases (pid == w.pid)) [
  | inl e ↦ ap rs (==→eq pid w.pid e) ∙ b.0
  | inr e ↦ blocked_of_waits ws rs pid b.2 (ground arith)
]

-- It starts with no unit and no process asleep.
pub data CondReach : CondSystem → Type 0 where
  start :
      (rs : RunStates)
      → ((pid : ℕ) → rs pid ≢ ReadyState.blocked)
      → CondReach (record { sem = record { count = 0; waiters = [] }; rs = rs })
  next : {s t : CondSystem} → CondReach s → CondStep s t → CondReach t

abbrev pub NeedOne : List Waiter → Type 0
NeedOne [] = Unit
NeedOne (w ∷ ws) = (w.needed ≡ 1) × NeedOne ws

pub record IsCond (s : CondSystem) : Type 0 where
  pub blocked : AreBlocked s.sem.waiters s.rs
  pub one : NeedOne s.sem.waiters
  pub asleep : (s.sem.count ≡ 0) ⊎ (s.sem.waiters ≡ [])
  pub listed : (pid : ℕ) → s.rs pid ≡ ReadyState.blocked → waits pid s.sem.waiters ≡ true

unserved-one : (ws : List Waiter) → NeedOne ws → unserved 1 ws ≡ []
unserved-one [] h = refl
unserved-one (w ∷ ws) h = ground (arith, unserved-one ws h.1)

served-one : (ws : List Waiter) → NeedOne ws → served 1 ws ≡ ws
served-one [] h = refl
served-one (w ∷ ws) h = ground (arith, served-one ws h.1)

cond_wake_lem :
    (s : Sem) (rs : RunStates)
    → AreBlocked s.waiters rs
    → NeedOne s.waiters
    → cond_wake s rs ≡ some (record { count = 1; waiters = [] }, wake_served s.waiters rs)
unfolding cond_wake sem_signal
cond_wake_lem s rs b o =
    ground
      (arith, signal_walk_lem 1 s.waiters [] rs b, unserved-one s.waiters o, served-one s.waiters o)

wakes-IsCond :
    (s : Sem) (rs : RunStates)
    → IsCond (record { sem = s; rs = rs })
    → IsCond (record { sem = record { count = 1; waiters = [] }; rs = wake_served s.waiters rs })
wakes-IsCond s rs v = record {
  blocked = tt;
  one = tt;
  asleep = inr refl;
  listed = λ pid h. ground (arith, v.listed pid, wake_served_at s.waiters rs pid);
}

is_running-eq : (r : ReadyState) → is_running r ≡ true → r ≡ ReadyState.running
is_running-eq ReadyState.running h = refl
is_running-eq _ h = cc

waits_on-IsCond :
    (s : Sem) (rs : RunStates) (pid : ℕ) (taken : Bool) (s' : Sem) (rs' : RunStates)
    → IsCond (record { sem = s; rs = rs })
    → cond_wait pid s rs ≡ some (taken, s', rs')
    → IsCond (record { sem = s'; rs = rs' })
unfolding cond_wait sem_wait
waits_on-IsCond s rs pid taken s' rs' v e = elim (Bool-cases (is_running (rs pid))) [
  | inr r ↦ absurd (ground arith)
  | inl r ↦
      let run = is_running-eq (rs pid) r in
      let off = not_waits s.waiters rs pid v.blocked (λ h. cc) in
      elim (Bool-cases (leb 1 s.count)) [
        | inl k ↦ record {
          blocked = ground (arith, v.blocked);
          one = ground (arith, v.one);
          asleep = ground (arith, v.asleep);
          listed = λ q h. ground (arith, v.listed q);
        }
        | inr k ↦ record {
          blocked = ground (
            arith,
            v.blocked,
            AreBlocked-set_rs s.waiters rs pid ReadyState.blocked v.blocked off,
          );
          one = ground (arith, v.one);
          asleep = ground (arith, v.asleep);
          listed = λ q h. ground (arith, v.listed q);
        }
      ]
]

CondStep-IsCond : {s t : CondSystem} → CondStep s t → IsCond s → IsCond t
CondStep-IsCond (wakes s sem' rs' e) v =
    let e' = sym (cond_wake_lem s.sem s.rs v.blocked v.one) ∙ e in
    let f = some_inj e' in
    subst (λ r. IsCond (record { sem = r.0; rs = r.1 })) f (wakes-IsCond s.sem s.rs v)
CondStep-IsCond (waits_on s pid taken sem' rs' e) v =
    waits_on-IsCond s.sem s.rs pid taken sem' rs' v e
CondStep-IsCond (schedules s pid r h k) v = record {
  blocked =
      AreBlocked-set_rs s.sem.waiters s.rs pid r v.blocked
        (not_waits s.sem.waiters s.rs pid v.blocked h);
  one = v.one;
  asleep = v.asleep;
  listed = λ q e. elim (Bool-cases (q == pid)) [
    | inl p ↦ absurd (k (sym (ap (λ b. if b then r else s.rs q) p) ∙ e))
    | inr p ↦ v.listed q (sym (ap (λ b. if b then r else s.rs q) p) ∙ e)
  ];
}

CondReach-IsCond : {s : CondSystem} → CondReach s → IsCond s
CondReach-IsCond (start rs awake) = record {
  blocked = tt;
  one = tt;
  asleep = inl refl;
  listed = λ pid h. absurd (awake pid h);
}
CondReach-IsCond (next r st) = CondStep-IsCond st (CondReach-IsCond r)

-- In every reachable state of a condition variable a blocked process is on its list, the processes
-- on the list are blocked, and none is while the variable holds a unit: no process sleeps through a
-- `cond_wake`.
pub cond_sleepers :
    {s : CondSystem}
    → CondReach s
    → (pid : ℕ)
    → ((s.rs pid ≡ ReadyState.blocked) ↔ (waits pid s.sem.waiters ≡ true))
      × (0 < s.sem.count → s.rs pid ≢ ReadyState.blocked)
cond_sleepers {s} r pid =
    let v = CondReach-IsCond r in
    let back =
      λ (h : waits pid s.sem.waiters ≡ true). blocked_of_waits s.sem.waiters s.rs pid v.blocked h in
    ((v.listed pid, back), λ h e. ground (arith, v.listed pid e, v.asleep))
