-- ===== src/Kernel/Sync.antt =====
-- kernel/sync.c: the nesting depth of the interrupt lock, locks and semaphores. Each function is
-- what runs with interrupts off; a caller that must sleep is told to call `sched` and come back.
pub mod Waiters
pub mod Semaphore
pub mod Mutex
mod Tests
use petix.Prelude.{
  ℕ, zero, suc, ◌+◌, ◌-◌, Bool, true, false, not, ◌&&◌, ◌||◌, List, [], ◌∷◌, Option, none, some,
  ltb, leb, ◌==◌, if◌then◌else◌,
}

-- `enum ready_state` of kernel/proc.h.
pub data ReadyState : Type 0 where
  noproc created ready running blocked terminated : ReadyState

abbrev pub is_running : ReadyState → Bool
is_running ReadyState.running = true
is_running _ = false

abbrev pub is_blocked : ReadyState → Bool
is_blocked ReadyState.blocked = true
is_blocked _ = false

-- `get_pcb(pid)->rs` by pid. It is `noproc` where there is no such process.
abbrev pub RunStates : Type 0
RunStates = ℕ → ReadyState

abbrev pub set_rs : RunStates → ℕ → ReadyState → RunStates
set_rs rs pid r q = if q == pid then r else rs q

-- `acquire_global` and `release_global` on `acq_depth`. Interrupts are on again if the second part
-- says so; `none` is a failed assertion.
pub acquire_global : ℕ → ℕ
acquire_global depth = depth + 1

pub release_global : ℕ → Option (ℕ × Bool)
release_global zero = none
release_global (suc depth) = some (depth, depth == 0)

pub is_global_held : ℕ → Bool
is_global_held depth = not (depth == 0)

-- `struct sem_proc_lst` and `petix_sem_t`.
pub record Waiter : Type 0 where
  pub pid : ℕ
  pub needed : ℕ

pub record Sem : Type 0 where
  pub count : ℕ
  pub waiters : List Waiter

-- The loop of `sem_signal`, with `onto`, the list of those that go on waiting. `none` is the failed
-- assertion that a waiting process is blocked.
pub signal_walk : ℕ → List Waiter → List Waiter → RunStates → Option (List Waiter × RunStates)
signal_walk count [] onto rs = some (onto, rs)
signal_walk count (w ∷ ws) onto rs =
    let woken = signal_walk count ws onto (set_rs rs w.pid ReadyState.ready) in
    let kept = signal_walk count ws (w ∷ onto) rs in
    if leb w.needed count then (if is_blocked (rs w.pid) then woken else none) else kept

pub sem_signal : ℕ → Sem → RunStates → Option (Sem × RunStates)
sem_signal n s rs =
    let count = if n == 0 then 1 else s.count + n in
    elim (signal_walk count s.waiters [] rs) [
      | none ↦ none
      | some (ws, rs') ↦ some (record { count = count; waiters = ws }, rs')
    ]

-- One turn of the loop of `sem_wait` by process `pid`: true if it took its units, and false if it
-- was put on the list and blocked.
pub sem_wait : ℕ → ℕ → Sem → RunStates → Option (Bool × Sem × RunStates)
sem_wait pid n s rs =
    let needed = if n == 0 then 1 else n in
    if is_running (rs pid)
    then if leb needed s.count
      then some (true, record s { count = s.count - needed }, rs)
      else some (
        false,
        record s { waiters = record { pid = pid; needed = needed } ∷ s.waiters },
        set_rs rs pid ReadyState.blocked,
      )
    else none

pub cond_wake : Sem → RunStates → Option (Sem × RunStates)
cond_wake = sem_signal 0

pub cond_wait : ℕ → Sem → RunStates → Option (Bool × Sem × RunStates)
cond_wait pid = sem_wait pid 0

-- `petix_lock_t`.
pub record Lock : Type 0 where
  pub waiters : List ℕ
  pub held_by : ℕ
  pub lcnt : ℕ
  pub locked : Bool
  pub global : Bool

-- One turn of `acquire_lock`: true if the lock is taken, and false if the caller was blocked.
-- `sched_locks` is `slocks`.
pub acquire_lock : Bool → ℕ → Lock → RunStates → Option (Bool × Lock × RunStates)
acquire_lock true pid lock rs =
    if lock.locked && (lock.held_by == pid || lock.global)
    then some (true, record lock { lcnt = lock.lcnt + 1 }, rs)
    else if lock.locked
    then some
        (false, record lock { waiters = pid ∷ lock.waiters }, set_rs rs pid ReadyState.blocked)
    else some (true, record lock { locked = true; held_by = pid; global = false; lcnt = 0 }, rs)
acquire_lock false pid lock rs =
    if lock.locked then none else some (true, record lock { global = true; locked = true }, rs)

-- All that wait on a lock are made ready.
pub wake_all : List ℕ → RunStates → RunStates
wake_all [] rs = rs
wake_all (pid ∷ pids) rs = wake_all pids (set_rs rs pid ReadyState.ready)

-- `release_lock`; `none` is a panic.
pub release_lock : ℕ → Lock → RunStates → Option (Lock × RunStates)
release_lock pid lock rs =
    if lock.global
    then (if lock.locked then some (record lock { global = false; locked = false }, rs) else none)
    else if not (lock.locked && (lock.held_by == pid || lock.global))
    then none
    else if lock.lcnt == 0
    then some (record lock { locked = false; held_by = 0; waiters = [] }, wake_all lock.waiters rs)
    else some (record lock { lcnt = lock.lcnt - 1 }, rs)

-- The accesses of the loop that empties the list of a lock, over the addresses of its nodes: its
-- body reads a node, then it steps to the next one and frees that.
pub data Access : Type 0 where
  reads : ℕ → Access
  frees : ℕ → Access

pub release_accesses : List ℕ → List Access
release_accesses [] = []
release_accesses (a ∷ []) = Access.reads a ∷ []
release_accesses (a ∷ b ∷ rest) = Access.reads a ∷ Access.frees b ∷ release_accesses (b ∷ rest)
