-- ===== src/Kernel/Proc.antt =====
-- kernel/proc.c: the process table, the search for a child to wait for, and the scheduler. The file
-- descriptors of a process are in Kernel/Fd.
pub mod Table
pub mod Child
pub mod Scheduler
mod Tests
use petix.Prelude.{
  ℕ, zero, suc, ◌+◌, ◌-◌, ◌*◌, ◌/◌, ◌%◌, Bool, true, false, not, ◌&&◌, ◌||◌, Option, none, some,
  ◌==◌, if◌then◌else◌, ℤ, pos, negsuc, eqb_ℤ,
}
use petix.Kernel.Sync.{ReadyState}

abbrev pub ptable_size : ℕ
ptable_size = 1024

abbrev pub pid_gen : ℕ → ℕ
pid_gen pid = pid / ptable_size

abbrev pub pid_off : ℕ → ℕ
pid_off pid = pid % ptable_size

abbrev pub make_pid : ℕ → ℕ → ℕ
make_pid gen off = gen * ptable_size + off

-- `struct pcb`, but for its address space, its stack pointer and its file descriptors.
pub record Pcb : Type 0 where
  pub pid : ℕ
  pub ppid : ℤ
  pub rs : ReadyState
  pub return_code : ℕ
  pub wait_pid : ℤ

-- NOT_WAITING, -2.
abbrev pub not_waiting : ℤ
not_waiting = negsuc 1

-- The static variables, with `acq_depth` of kernel/sync.c.
pub record Procs : Type 0 where
  pub table : ℕ → Pcb
  pub pt_free : ℕ
  pub curpid : ℕ
  pub acq_depth : ℕ

abbrev pub is_noproc : ReadyState → Bool
is_noproc ReadyState.noproc = true
is_noproc _ = false

abbrev pub is_ready : ReadyState → Bool
is_ready ReadyState.ready = true
is_ready _ = false

abbrev pub is_terminated : ReadyState → Bool
is_terminated ReadyState.terminated = true
is_terminated _ = false

abbrev pub is_asleep : ReadyState → Bool
is_asleep ReadyState.blocked = true
is_asleep _ = false

abbrev pub set_pcb : (ℕ → Pcb) → ℕ → Pcb → ℕ → Pcb
set_pcb table i p j = if j == i then p else table j

-- `get_pcb`, as the slot of the process.
unfoldable pub get_pcb : Procs → ℕ → Option ℕ
get_pcb s pid =
    let p = s.table (pid_off pid) in
    if is_noproc p.rs || not (p.pid == pid) then none else some (pid_off pid)

-- The loop of `alloc_proc` from slot `at`, which gives up when it is back at `init`. The first
-- argument bounds its rounds.
unfoldable pub find_slot : ℕ → (ℕ → Pcb) → ℕ → ℕ → Option ℕ
find_slot zero table init at = none
find_slot (suc rounds) table init at =
    let next = (at + 1) % ptable_size in
    let later = find_slot rounds table init next in
    if is_noproc (table at).rs then some at else if next == init then none else later

-- `alloc_proc`. Where the table is full it returns NULL, and the global lock stays taken.
unfoldable pub alloc_proc : Procs → Procs × Option ℕ
alloc_proc s = elim (find_slot ptable_size s.table s.pt_free s.pt_free) [
  | none ↦ (record s { acq_depth = s.acq_depth + 1 }, none)
  | some off ↦
      let p = s.table off in
      (
        record s {
          table = set_pcb s.table off (record p {
            rs = ReadyState.created;
            pid = make_pid (pid_gen p.pid + 1) off;
            ppid = negsuc 0;
          });
          pt_free = off;
        },
        some off,
      )
]

unfoldable pub release_proc : ℕ → Procs → Procs
release_proc off s =
    let p = s.table off in
    record s {
      table =
          set_pcb s.table off
            (record p { rs = ReadyState.noproc; ppid = pos 0; wait_pid = not_waiting });
    }

-- Whether a process is a child of `parent` that `pid` asks for, where -1 asks for any.
abbrev pub is_wanted : ℕ → ℤ → Pcb → Bool
is_wanted parent pid c =
    not (is_noproc c.rs)
    && eqb_ℤ c.ppid (pos parent)
    && (eqb_ℤ pid (negsuc 0) || eqb_ℤ pid (pos c.pid))

-- What `proc_get_terminated_child` returns: 0 with the child's slot, -1, or -ECHILD.
pub data Waited : Type 0 where
  found : ℕ → Waited
  running : Waited
  echild : Waited

-- The loop from slot `i`. `child` says that a child was seen that has not terminated.
unfoldable pub child_walk : ℕ → ℕ → Bool → (ℕ → Pcb) → ℕ → ℤ → Waited
child_walk zero i child table parent pid = if child then running else echild
child_walk (suc rounds) i child table parent pid =
    let rest =
      child_walk rounds (i + 1) (child || is_wanted parent pid (table i)) table parent pid in
    if is_wanted parent pid (table i) && is_terminated (table i).rs then found i else rest

-- The caller at slot `me` notes the pid of a child that has terminated.
unfoldable pub note_child : ℕ → Procs → Waited → Waited × Procs
note_child me s (found i) = (
  found i,
  record s { table = set_pcb s.table me (record (s.table me) { wait_pid = pos (s.table i).pid }) },
)
note_child me s running = (running, s)
note_child me s echild = (echild, s)

-- `proc_get_terminated_child` for the process at slot `me`.
unfoldable pub get_terminated_child : ℕ → ℤ → Procs → Waited × Procs
get_terminated_child me pid s =
    note_child me s (child_walk ptable_size 0 false s.table (s.table me).pid pid)

-- One round of the table in `sched`, from slot `off` until it is back at `ioff`: the first process
-- that is ready, or whether a blocked one was seen.
pub data Scan : Type 0 where
  runs : ℕ → Scan
  idles : Scan
  panics : Scan

unfoldable pub scan : ℕ → (ℕ → Pcb) → ℕ → ℕ → Bool → Scan
scan zero table ioff off blocked_p = panics
scan (suc rounds) table ioff off blocked_p =
    let seen = blocked_p || is_asleep (table off).rs in
    let next = (off + 1) % ptable_size in
    let later = scan rounds table ioff next seen in
    if is_ready (table off).rs
    then runs off
    else if next == ioff
    then (if seen then idles else panics)
    else later

-- `sched` up to the switch of the context. `returned` is the early return of a call from an interrupt
-- during a halt. `halted` is the state in which it halts, where `nested` is set: with an interrupt it
-- goes on by another round of the table.
pub data Sched : Type 0 where
  returned : Procs → Sched
  switched : Procs → Sched
  halted : Procs → Sched
  panicked : Sched

unfoldable pub finish_scan : Procs → Scan → Sched
finish_scan s (runs off) = switched (record s {
  table = set_pcb s.table off (record (s.table off) { rs = ReadyState.running });
  curpid = if off == pid_off s.curpid then s.curpid else (s.table off).pid;
})
finish_scan s idles = halted s
finish_scan s panics = panicked

unfoldable pub sched_round : Bool → Procs → Sched
sched_round blocked_p s =
    let ioff = (pid_off s.curpid + 1) % ptable_size in
    finish_scan s (scan ptable_size s.table ioff ioff blocked_p)

-- The running process is made ready before the search.
unfoldable pub demote : Procs → Procs
demote s =
    let off = pid_off s.curpid in
    let p = s.table off in
    elim p.rs [
      | ReadyState.running ↦ record s {
        table = set_pcb s.table off (record p { rs = ReadyState.ready });
      }
      | _ ↦ s
    ]

-- `nested` says that a call of `sched` halts.
unfoldable pub sched : Bool → Procs → Sched
sched nested s = if nested then returned s else sched_round false (demote s)
