-- ===== src/Kernel/Sync/Mutex.antt =====
-- A lock after `enable_sched_locks`, taken and released by any number of processes in any order.
use petix.Prelude.{
  ℕ, ◌+◌, ◌-◌, ◌<◌, ◌≡◌, refl, ◌∙◌, ap, sym, Bool, true, false, ◌&&◌, ◌||◌, List, [], ◌∷◌, some,
  arith, ◌==◌, if◌then◌else◌, Bool-cases, inl, inr, ◌≢◌,
}
use petix.Kernel.Sync.{
  ReadyState, RunStates, set_rs, Lock, acquire_lock, release_lock, wake_all, Access,
  release_accesses,
}

-- `holds pid` counts the calls of `acquire_lock` by `pid` that it has not released.
pub record LockSystem : Type 0 where
  pub lock : Lock
  pub rs : RunStates
  pub holds : ℕ → ℕ

abbrev pub add_at : (ℕ → ℕ) → ℕ → ℕ → ℕ
add_at f i j = if j == i then f j + 1 else f j

abbrev pub sub_at : (ℕ → ℕ) → ℕ → ℕ → ℕ
sub_at f i j = if j == i then f j - 1 else f j

-- A running process takes the lock or is blocked on it, and one that holds it releases it.
pub data LockStep : LockSystem → LockSystem → Type 0 where
  acquires :
      (s : LockSystem) (pid : ℕ) (taken : Bool) (lock' : Lock) (rs' : RunStates)
      → s.rs pid ≡ ReadyState.running
      → acquire_lock true pid s.lock s.rs ≡ some (taken, lock', rs')
      → LockStep s
          (record { lock = lock'; rs = rs'; holds = if taken then add_at s.holds pid else s.holds })
  releases :
      (s : LockSystem) (pid : ℕ) (lock' : Lock) (rs' : RunStates)
      → s.rs pid ≡ ReadyState.running
      → 0 < s.holds pid
      → release_lock pid s.lock s.rs ≡ some (lock', rs')
      → LockStep s (record { lock = lock'; rs = rs'; holds = sub_at s.holds pid })
  schedules :
      (s : LockSystem) (pid : ℕ) (r : ReadyState)
      → s.rs pid ≢ ReadyState.blocked
      → r ≢ ReadyState.blocked
      → LockStep s (record s { rs = set_rs s.rs pid r })

-- It starts free, and no process is blocked.
pub data LockReach : LockSystem → Type 0 where
  start :
      (rs : RunStates)
      → ((pid : ℕ) → rs pid ≢ ReadyState.blocked)
      → LockReach (record {
        lock = record { waiters = []; held_by = 0; lcnt = 0; locked = false; global = false };
        rs = rs;
        holds = λ _. 0;
      })
  next : {s t : LockSystem} → LockReach s → LockStep s t → LockReach t

abbrev pub is_in : ℕ → List ℕ → Bool
is_in pid [] = false
is_in pid (q ∷ qs) = (pid == q) || is_in pid qs

pub record IsLock (lock : Lock) (rs : RunStates) (holds : ℕ → ℕ) : Type 0 where
  pub local : lock.global ≡ false
  pub free : lock.locked ≡ false → (lock.waiters ≡ []) × ((pid : ℕ) → holds pid ≡ 0)
  pub owned :
      lock.locked ≡ true
      → (pid : ℕ) → holds pid ≡ (if pid == lock.held_by then lock.lcnt + 1 else 0)
  pub listed : (pid : ℕ) → rs pid ≡ ReadyState.blocked → is_in pid lock.waiters ≡ true

wake_all_at :
    (pids : List ℕ) (rs : RunStates) (pid : ℕ)
    → wake_all pids rs pid ≡ (if is_in pid pids then ReadyState.ready else rs pid)
unfolding wake_all
wake_all_at [] rs pid = refl
wake_all_at (q ∷ qs) rs pid = ground (arith, wake_all_at qs (set_rs rs q ReadyState.ready) pid)

acquires-IsLock :
    (lock : Lock) (rs : RunStates) (holds : ℕ → ℕ) (pid : ℕ)
    → IsLock lock rs holds
    → (taken : Bool) (lock' : Lock) (rs' : RunStates)
    → acquire_lock true pid lock rs ≡ some (taken, lock', rs')
    → IsLock lock' rs' (if taken then add_at holds pid else holds)
unfolding acquire_lock
acquires-IsLock lock rs holds pid v taken lock' rs' e = record {
  local = ground (arith, v.local);
  free = λ h. (ground (arith, v.free), λ q. ground (arith, v.free, v.owned));
  owned = λ h q.
      ground (
        arith,
        λ (f : lock.locked ≡ false). (v.free f).1 q,
        λ (f : lock.locked ≡ true). v.owned f q,
      );
  listed = λ q h. ground (arith, v.listed q, v.free);
}

releases-IsLock :
    (lock : Lock) (rs : RunStates) (holds : ℕ → ℕ) (pid : ℕ)
    → IsLock lock rs holds
    → 0 < holds pid
    → (lock' : Lock) (rs' : RunStates) → release_lock pid lock rs ≡ some (lock', rs')
    → IsLock lock' rs' (sub_at holds pid)
unfolding release_lock
releases-IsLock lock rs holds pid v pos lock' rs' e = record {
  local = ground (arith, v.local);
  free = λ h. (
    ground (arith, v.free, v.local),
    λ q. ground (
      arith,
      v.local,
      λ (f : lock.locked ≡ true). v.owned f q,
      λ (f : lock.locked ≡ true). v.owned f pid,
    ),
  );
  owned = λ h q. ground (
    arith,
    v.local,
    λ (f : lock.locked ≡ true). v.owned f q,
    λ (f : lock.locked ≡ true). v.owned f pid,
  );
  listed = λ q h. ground (arith, v.listed q, v.local, wake_all_at lock.waiters rs q);
}

LockStep-IsLock :
    {s t : LockSystem} → LockStep s t → IsLock s.lock s.rs s.holds → IsLock t.lock t.rs t.holds
LockStep-IsLock (acquires s pid taken lock' rs' run e) v =
    acquires-IsLock s.lock s.rs s.holds pid v taken lock' rs' e
LockStep-IsLock (releases s pid lock' rs' run pos e) v =
    releases-IsLock s.lock s.rs s.holds pid v pos lock' rs' e
LockStep-IsLock (schedules s pid r h k) v = record {
  local = v.local;
  free = v.free;
  owned = v.owned;
  listed = λ q e. elim (Bool-cases (q == pid)) [
    | inl p ↦ absurd (k (sym (ap (λ b. if b then r else s.rs q) p) ∙ e))
    | inr p ↦ v.listed q (sym (ap (λ b. if b then r else s.rs q) p) ∙ e)
  ];
}

LockReach-IsLock : {s : LockSystem} → LockReach s → IsLock s.lock s.rs s.holds
LockReach-IsLock (start rs awake) = record {
  local = refl;
  free = λ h. (refl, λ pid. refl);
  owned = λ h. cc;
  listed = λ pid h. absurd (awake pid h);
}
LockReach-IsLock (next r st) = LockStep-IsLock st (LockReach-IsLock r)

-- In every reachable state at most one process holds the lock, however often each has taken it, and
-- if one does then the lock is marked as locked and as held by it, with the depth of its calls.
pub mutual_exclusion :
    {s : LockSystem}
    → LockReach s
    → (i j : ℕ) → 0 < s.holds i
    → (0 < s.holds j → i ≡ j)
      × (s.lock.locked ≡ true)
      × (s.lock.held_by ≡ i)
      × (s.lock.lcnt + 1 ≡ s.holds i)
mutual_exclusion {s} r i j hi =
    let v = LockReach-IsLock r in
    elim (Bool-cases s.lock.locked) [
      | inl e ↦ (
        λ hj. ground (arith, v.owned e i, v.owned e j),
        e,
        ground (arith, v.owned e i),
        ground (arith, v.owned e i),
      )
      | inr e ↦ absurd (omega (arith, (v.free e).1 i))
    ]

-- In every reachable state a process that is blocked is on the list of a lock that is held: none
-- sleeps on a free lock.
pub no_sleep_on_free_lock :
    {s : LockSystem}
    → LockReach s
    → (pid : ℕ) → s.rs pid ≡ ReadyState.blocked
    → (s.lock.locked ≡ true) × (is_in pid s.lock.waiters ≡ true)
no_sleep_on_free_lock {s} r pid h =
    let v = LockReach-IsLock r in
    elim (Bool-cases s.lock.locked) [
      | inl e ↦ (e, v.listed pid h)
      | inr e ↦ absurd (ground (arith, v.listed pid h, v.free e))
    ]

-- In every reachable state a process that holds the lock can release it with no panic. The last
-- release frees the lock and makes every process ready that waited for it.
pub release_by_holder :
    {s : LockSystem}
    → LockReach s
    → (pid : ℕ) → 0 < s.holds pid
    → (lock' : Lock) × (rs' : RunStates) × (release_lock pid s.lock s.rs ≡ some (lock', rs'))
      × (s.holds pid ≡ 1
          → (lock'.locked ≡ false)
            × ((q : ℕ) → is_in q s.lock.waiters ≡ true → rs' q ≡ ReadyState.ready))
      × (1 < s.holds pid → (lock'.locked ≡ true) × (lock'.held_by ≡ pid) × (rs' ≡ s.rs))
unfolding release_lock
release_by_holder {s} r pid pos =
    let v = LockReach-IsLock r in
    let m = mutual_exclusion r pid pid pos in
    elim (Bool-cases (s.lock.lcnt == 0)) [
      | inl e ↦ (
        record s.lock { locked = false; held_by = 0; waiters = [] },
        wake_all s.lock.waiters s.rs,
        ground (arith, v.local, m.1, m.2, m.3),
        λ one. (refl, λ q h. ground (arith, wake_all_at s.lock.waiters s.rs q)),
        λ more. absurd (ground (arith, m.3)),
      )
      | inr e ↦ (
        record s.lock { lcnt = s.lock.lcnt - 1 },
        s.rs,
        ground (arith, v.local, m.1, m.2, m.3),
        λ one. absurd (ground (arith, m.3)),
        λ more. (m.1, m.2, refl),
      )
    ]

-- Whether the accesses free the node at an address.
abbrev pub is_freed : ℕ → List Access → Bool
is_freed a [] = false
is_freed a (Access.reads b ∷ l) = is_freed a l
is_freed a (Access.frees b ∷ l) = (a == b) || is_freed a l

-- Whether the accesses read the node at an address after they freed it.
abbrev pub is_read : ℕ → List Access → Bool
is_read a [] = false
is_read a (Access.reads b ∷ l) = (a == b) || is_read a l
is_read a (Access.frees b ∷ l) = is_read a l

abbrev pub is_used_after_free : ℕ → List Access → Bool
is_used_after_free a [] = false
is_used_after_free a (Access.reads b ∷ l) = is_used_after_free a l
is_used_after_free a (Access.frees b ∷ l) = ((a == b) && is_read a l) || is_used_after_free a l

reads_head : (b : ℕ) (rest : List ℕ) → is_read b (release_accesses (b ∷ rest)) ≡ true
unfolding release_accesses
reads_head b [] = ground arith
reads_head b (c ∷ rest) = ground arith

frees_rest :
    (first : ℕ) (rest : List ℕ) (a : ℕ)
    → (is_freed a (release_accesses (first ∷ rest)) ≡ is_in a rest)
      × (is_used_after_free a (release_accesses (first ∷ rest)) ≡ is_in a rest)
unfolding release_accesses
frees_rest first [] a = (refl, refl)
frees_rest first (b ∷ rest) a = ground (arith, frees_rest b rest a, reads_head b rest)

-- The release of a lock on which processes wait frees exactly the nodes behind the first, so the
-- first is never freed, and it reads each of the others after it was freed.
pub release_frees_early :
    (first : ℕ) (rest : List ℕ) (a : ℕ)
    → is_in first rest ≡ false
    → (is_freed a (release_accesses (first ∷ rest)) ≡ is_in a rest)
      × (is_used_after_free a (release_accesses (first ∷ rest)) ≡ is_in a rest)
      × (is_freed first (release_accesses (first ∷ rest)) ≡ false)
release_frees_early first rest a h =
    let f = frees_rest first rest a in (f.0, f.1, (frees_rest first rest first).0 ∙ h)
