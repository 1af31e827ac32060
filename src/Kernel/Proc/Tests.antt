-- ===== src/Kernel/Proc/Tests.antt =====
-- A table where process 0 runs, its child in slot 5 is ready and its child in slot 7 has
-- terminated.
use petix.Prelude.{true, ℕ, ◌+◌, ◌<◌, ◌≡◌, ◌≢◌, ◌⊎◌, false, some, none, arith, ℤ, pos, negsuc}
use petix.Kernel.Sync.{ReadyState}
use petix.Kernel.Proc.{
  ptable_size, Pcb, Procs, set_pcb, not_waiting, alloc_proc, found, running, echild,
  get_terminated_child, returned, panicked, sched_round, sched, demote,
}
use petix.Kernel.Proc.Table.{IsLive, IsTable, Allocated, alloc_proc-Allocated}
use petix.Kernel.Proc.Child.{Finds, get_terminated_child_lem}
use petix.Kernel.Proc.Scheduler.{Chooses, sched-Chooses}

abbrev pcb : ℕ → ℤ → ReadyState → Pcb
pcb pid ppid rs = record {
  pid = pid;
  ppid = ppid;
  rs = rs;
  return_code = 0;
  wait_pid = not_waiting;
}

abbrev family : Procs
family = record {
  table =
      set_pcb
        (set_pcb
          (set_pcb (λ _. pcb 0 (pos 0) ReadyState.noproc) 0 (pcb 0 (negsuc 0) ReadyState.running)) 5
          (pcb 1029 (pos 0) ReadyState.ready))
        7 (pcb 1031 (pos 0) ReadyState.terminated);
  pt_free = 0;
  curpid = 0;
  acq_depth = 0;
}

family-IsTable : IsTable family
family-IsTable = record { placed = λ i h l. ground arith; next_in = omega arith }

alloc_proc-Allocated_example :
    ((off : ℕ) × (s' : Procs) × (alloc_proc family ≡ (s', some off)) × Allocated family off s')
    ⊎ (((alloc_proc family).1 ≡ none)
        × ((alloc_proc family).0.acq_depth ≡ 0 + 1)
        × ((i : ℕ) → i < ptable_size → IsLive family.table i))
alloc_proc-Allocated_example = alloc_proc-Allocated family family-IsTable

get_terminated_child_lem_example :
    let (w, s') = get_terminated_child 0 (negsuc 0) family in
    Finds family.table 0 (negsuc 0) 0 ptable_size false w
    × ((k : ℕ)
        → w ≡ found k
        → ((s'.table 0).wait_pid ≡ pos (family.table k).pid)
          × ((i : ℕ) → i ≢ 0 → s'.table i ≡ family.table i))
    × (((w ≡ running) ⊎ (w ≡ echild)) → s' ≡ family)
get_terminated_child_lem_example = get_terminated_child_lem 0 (negsuc 0) family

sched-Chooses_example :
    (sched true family ≡ returned family)
    × Chooses (demote family) (sched false family)
    × (Chooses family (sched_round true family) × (sched_round true family ≢ panicked))
sched-Chooses_example = sched-Chooses family
