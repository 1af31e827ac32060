-- ===== src/Kernel/Wait.antt =====
-- kernel/syscall.c: `sys_exit`, `sys_waitpid` and `sys_fork` on the process table. Their work on file
-- descriptors is in Kernel/Fd.
pub mod Exit
pub mod Race
mod Tests
use petix.Prelude.{
  ℕ, zero, suc, ◌%◌, ◌^◌, Bool, true, false, ◌&&◌, ◌||◌, Option, none, some, ◌==◌, if◌then◌else◌, ℤ,
  pos, negsuc, eqb_ℤ,
}
use petix.Kernel.Sync.{ReadyState}
use petix.Kernel.Proc.{
  Pcb, Procs, not_waiting, is_asleep, set_pcb, get_pcb, alloc_proc, release_proc, Waited, found,
  running, echild, get_terminated_child,
}

-- The part of `sys_exit` that wakes a parent that waits for the process, or for any of its
-- children. `none` is an access through NULL.
unfoldable pub wake_parent : Pcb → Procs → Option Procs
wake_parent c s = elim c.ppid [
  | negsuc n ↦ some s
  | pos ppid ↦ if ppid == 0 then some s else elim (get_pcb s ppid) [
    | none ↦ none
    | some k ↦
        let p = s.table k in
        if is_asleep p.rs && (eqb_ℤ p.wait_pid (pos c.pid) || eqb_ℤ p.wait_pid (negsuc 0))
        then some (record s {
          table = set_pcb s.table k (record p { wait_pid = pos c.pid; rs = ReadyState.ready });
        })
        else some s
  ]
]

-- `sys_exit` of the process at slot `me`, up to `sched`. `return_code` is a byte.
unfoldable pub sys_exit : ℕ → ℕ → Procs → Option Procs
sys_exit me code s =
    let c = record (s.table me) { return_code = code % 2 ^ 8 } in
    elim (wake_parent c (record s { table = set_pcb s.table me c })) [
      | none ↦ none
      | some s' ↦ some (record s' {
        table = set_pcb s'.table me (record (s'.table me) { rs = ReadyState.terminated });
      })
    ]

-- The second half of `sys_waitpid`: the pid of the child, its return code, and the table without
-- it. `none` is an access through NULL.
unfoldable pub collect : ℕ → Procs → Option (ℕ × ℕ × Procs)
collect me s = elim (s.table me).wait_pid [
  | negsuc n ↦ none
  | pos pid ↦ elim (get_pcb s pid) [
    | none ↦ none
    | some k ↦ some (
      pid,
      (s.table k).return_code,
      release_proc k (record s {
        table = set_pcb s.table me (record (s.table me) { wait_pid = not_waiting });
      }),
    )
  ]
]

-- The critical section in which `sys_waitpid` blocks, before it calls `sched`.
unfoldable pub block_on : ℕ → ℤ → Procs → Procs
block_on me pid s = record s {
  table = set_pcb s.table me (record (s.table me) { rs = ReadyState.blocked; wait_pid = pid });
}

-- What `sys_waitpid` does until it collects a child or sleeps: it has found one, or it goes on to
-- `block_on`, or it returns -ECHILD.
pub data Waiting : Type 0 where
  collects : Option (ℕ × ℕ × Procs) → Waiting
  blocks : Procs → Waiting
  no_child : Waiting

unfoldable pub sys_waitpid : ℕ → ℤ → Procs → Waiting
sys_waitpid me pid s =
    let (w, s') = get_terminated_child me pid s in
    elim w [ found k ↦ collects (collect me s') | running ↦ blocks s' | echild ↦ no_child ]

-- `sys_fork` in the parent: the new process is ready. `none` is -EAGAIN.
unfoldable pub sys_fork : ℕ → Procs → Procs × Option ℕ
sys_fork me s =
    let (s', r) = alloc_proc s in
    elim r [
      | none ↦ (s', none)
      | some off ↦ (
        record s' {
          table =
              set_pcb s'.table off
                (record (s'.table off) { ppid = pos (s'.table me).pid; rs = ReadyState.ready });
        },
        some (s'.table off).pid,
      )
    ]
