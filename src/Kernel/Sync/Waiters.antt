-- ===== src/Kernel/Sync/Waiters.antt =====
-- The processes on the list of a semaphore, and what `sem_signal` does to them.
use petix.Prelude.{
  ℕ, ◌≡◌, refl, Bool, true, false, ◌||◌, List, [], ◌∷◌, some, arith, leb, ◌==◌, if◌then◌else◌, ◌∙◌,
  Bool-cases, inl, inr, ap, ==→eq, ◌≢◌, ◌&&◌,
}
use petix.Kernel.Sync.{ReadyState, RunStates, set_rs, Waiter, signal_walk}

abbrev pub waits : ℕ → List Waiter → Bool
waits pid [] = false
waits pid (w ∷ ws) = (pid == w.pid) || waits pid ws

-- Every process on the list is blocked, and stands there once.
abbrev pub AreBlocked : List Waiter → RunStates → Type 0
AreBlocked [] rs = Unit
AreBlocked (w ∷ ws) rs =
    (rs w.pid ≡ ReadyState.blocked) × (waits w.pid ws ≡ false) × AreBlocked ws rs

-- Those whose need is met by `count` units, and the others.
abbrev pub served : ℕ → List Waiter → List Waiter
served count [] = []
served count (w ∷ ws) = if leb w.needed count then w ∷ served count ws else served count ws

abbrev pub unserved : ℕ → List Waiter → List Waiter
unserved count [] = []
unserved count (w ∷ ws) = if leb w.needed count then unserved count ws else w ∷ unserved count ws

abbrev pub push_all : List Waiter → List Waiter → List Waiter
push_all [] onto = onto
push_all (w ∷ ws) onto = push_all ws (w ∷ onto)

abbrev pub wake_served : List Waiter → RunStates → RunStates
wake_served [] rs = rs
wake_served (w ∷ ws) rs = wake_served ws (set_rs rs w.pid ReadyState.ready)

-- A change at a process that is not on the list leaves the list blocked.
pub AreBlocked-set_rs :
    (ws : List Waiter) (rs : RunStates) (pid : ℕ) (r : ReadyState)
    → AreBlocked ws rs
    → waits pid ws ≡ false
    → AreBlocked ws (set_rs rs pid r)
AreBlocked-set_rs [] rs pid r b h = tt
AreBlocked-set_rs (w ∷ ws) rs pid r b h = ground (arith, AreBlocked-set_rs ws rs pid r)

pub signal_walk_lem :
    (count : ℕ) (ws onto : List Waiter) (rs : RunStates)
    → AreBlocked ws rs
    → signal_walk count ws onto rs
      ≡ some (push_all (unserved count ws) onto, wake_served (served count ws) rs)
unfolding signal_walk
signal_walk_lem count [] onto rs b = refl
signal_walk_lem count (w ∷ ws) onto rs b = elim (Bool-cases (leb w.needed count)) [
  | inl e ↦ ground (
    arith,
    signal_walk_lem count ws onto (set_rs rs w.pid ReadyState.ready),
    AreBlocked-set_rs ws rs w.pid ReadyState.ready,
  )
  | inr e ↦ ground (arith, signal_walk_lem count ws (w ∷ onto) rs)
]

-- After the signal exactly those that were served are ready.
pub wake_served_at :
    (ws : List Waiter) (rs : RunStates) (pid : ℕ)
    → wake_served ws rs pid ≡ (if waits pid ws then ReadyState.ready else rs pid)
wake_served_at [] rs pid = refl
wake_served_at (w ∷ ws) rs pid =
    ground (arith, wake_served_at ws (set_rs rs w.pid ReadyState.ready) pid)

pub waits-push_all :
    (ws onto : List Waiter) (pid : ℕ)
    → waits pid (push_all ws onto) ≡ (waits pid ws || waits pid onto)
waits-push_all [] onto pid = refl
waits-push_all (w ∷ ws) onto pid = ground (arith, waits-push_all ws (w ∷ onto) pid)

-- Those that go on waiting are still blocked, each once.
pub push_all-AreBlocked :
    (count : ℕ) (ws onto : List Waiter) (rs : RunStates)
    → AreBlocked ws rs
    → AreBlocked onto rs
    → ((pid : ℕ) → waits pid ws ≡ true → waits pid onto ≡ false)
    → AreBlocked (push_all (unserved count ws) onto) (wake_served (served count ws) rs)
push_all-AreBlocked count [] onto rs b o apart = o
push_all-AreBlocked count (w ∷ ws) onto rs b o apart = elim (Bool-cases (leb w.needed count)) [
  | inl e ↦ rw e (
      push_all-AreBlocked count ws onto (set_rs rs w.pid ReadyState.ready)
        (AreBlocked-set_rs ws rs w.pid ReadyState.ready b.2 b.1)
        (AreBlocked-set_rs onto rs w.pid ReadyState.ready o (ground (arith, apart w.pid)))
        (λ pid h. ground (arith, apart pid)))
  | inr e ↦ rw e (
      push_all-AreBlocked count ws (w ∷ onto) rs b.2 (b.0, ground (arith, apart w.pid), o)
        (λ pid h. ground (arith, apart pid)))
]

-- A process that is not blocked is on no list.
pub not_waits :
    (ws : List Waiter) (rs : RunStates) (pid : ℕ)
    → AreBlocked ws rs
    → rs pid ≢ ReadyState.blocked
    → waits pid ws ≡ false
not_waits [] rs pid b h = refl
not_waits (w ∷ ws) rs pid b h = elim (Bool-cases (pid == w.pid)) [
  | inl e ↦ absurd (h (ap rs (==→eq pid w.pid e) ∙ b.0))
  | inr e ↦ rw e (not_waits ws rs pid b.2 h)
]

-- Each process on the list is served, or goes on waiting, and not both.
pub waits-served :
    (count : ℕ) (ws : List Waiter) (rs : RunStates) (pid : ℕ)
    → AreBlocked ws rs
    → (waits pid ws ≡ (waits pid (served count ws) || waits pid (unserved count ws)))
      × (waits pid (served count ws) && waits pid (unserved count ws) ≡ false)
waits-served count [] rs pid b = (refl, refl)
waits-served count (w ∷ ws) rs pid b =
    ground (arith, waits-served count ws rs pid b.2, waits-served count ws rs w.pid b.2)
