-- ===== src/Kernel/Sync/Tests.antt =====
-- Small runs of the semaphores and locks.
use petix.Prelude.{ℕ, ◌+◌, ◌<◌, ◌≡◌, ◌≢◌, refl, true, false, [], ◌∷◌, ◌↔◌, arith}
use petix.Kernel.Sync.{ReadyState, RunStates, set_rs, Sem, sem_wait, cond_wait, acquire_lock}
use petix.Kernel.Sync.Waiters.{AreBlocked, waits}
use petix.Kernel.Sync.Semaphore.{CondSystem, CondStep, CondReach, cond_sleepers}
use petix.Kernel.Sync.Mutex.{
  LockSystem, LockStep, LockReach, add_at, is_in, mutual_exclusion, no_sleep_on_free_lock,
}

-- Process 5 is blocked until two units are there, and all else runs.
abbrev five_blocked : RunStates
five_blocked = set_rs (λ _. ReadyState.running) 5 ReadyState.blocked

abbrev waited_on : Sem
waited_on = record { count = 1; waiters = record { pid = 5; needed = 2 } ∷ [] }

waited_on-AreBlocked : AreBlocked waited_on.waiters five_blocked
waited_on-AreBlocked = (refl, refl, tt)

abbrev all_run : RunStates
all_run = λ _. ReadyState.running

all_run-awake : (pid : ℕ) → all_run pid ≢ ReadyState.blocked
all_run-awake pid h = cc

-- Process 3 sleeps on a condition variable.
abbrev asleep : CondSystem
asleep = record {
  sem = record { count = 0; waiters = record { pid = 3; needed = 1 } ∷ [] };
  rs = set_rs all_run 3 ReadyState.blocked;
}

asleep-CondReach : CondReach asleep
unfolding cond_wait sem_wait
asleep-CondReach =
    CondReach.next (CondReach.start all_run all_run-awake)
      (CondStep.waits_on _ 3 false asleep.sem asleep.rs refl)

cond_sleepers_example :
    ((asleep.rs 3 ≡ ReadyState.blocked) ↔ (waits 3 asleep.sem.waiters ≡ true))
    × (0 < asleep.sem.count → asleep.rs 3 ≢ ReadyState.blocked)
cond_sleepers_example = cond_sleepers asleep-CondReach 3

-- Process 3 holds a lock and process 4 waits for it.
abbrev contended : LockSystem
contended = record {
  lock = record { waiters = 4 ∷ []; held_by = 3; lcnt = 0; locked = true; global = false };
  rs = set_rs all_run 4 ReadyState.blocked;
  holds = add_at (λ _. 0) 3;
}

contended-LockReach : LockReach contended
unfolding acquire_lock
contended-LockReach =
    LockReach.next
      (LockReach.next (LockReach.start all_run all_run-awake)
        (LockStep.acquires _ 3 true (record (contended.lock) { waiters = [] }) all_run refl refl))
      (LockStep.acquires _ 4 false contended.lock contended.rs refl refl)

mutual_exclusion_example :
    (0 < contended.holds 4 → ◌≡◌ {A = ℕ} 3 4)
    × (contended.lock.locked ≡ true)
    × (contended.lock.held_by ≡ 3)
    × (contended.lock.lcnt + 1 ≡ contended.holds 3)
mutual_exclusion_example = mutual_exclusion contended-LockReach 3 4 (omega arith)

no_sleep_on_free_lock_example :
    (contended.lock.locked ≡ true) × (is_in 4 contended.lock.waiters ≡ true)
no_sleep_on_free_lock_example = no_sleep_on_free_lock contended-LockReach 4 refl
