-- ===== src/Kernel/Wait/Tests.antt =====
-- Process 1024 in slot 0 and its child in slot 5.
use petix.Prelude.{ℕ, ◌%◌, ◌^◌, ◌≡◌, ◌≢◌, refl, some, none, ℤ, pos, negsuc, arith, inr}
use petix.Kernel.Sync.{ReadyState}
use petix.Kernel.Proc.{Pcb, Procs, set_pcb, not_waiting, get_pcb}
use petix.Kernel.Proc.Table.{IsTable}
use petix.Kernel.Wait.{sys_exit, collect, block_on}
use petix.Kernel.Wait.Exit.{IsAwaited, sys_exit-collect}
use petix.Kernel.Wait.Race.{IsWatched, sys_exit-unnoticed}

abbrev pcb : ℕ → ℤ → ReadyState → ℤ → Pcb
pcb pid ppid rs wait_pid = record {
  pid = pid;
  ppid = ppid;
  rs = rs;
  return_code = 0;
  wait_pid = wait_pid;
}

-- The parent in the state `rs`.
abbrev pair : ReadyState → ℤ → Procs
pair rs wait_pid = record {
  table =
      set_pcb
        (set_pcb (λ _. pcb 0 (pos 0) ReadyState.noproc not_waiting) 0
          (pcb 1024 (negsuc 0) rs wait_pid))
        5 (pcb 1029 (pos 1024) ReadyState.running not_waiting);
  pt_free = 0;
  curpid = 1029;
  acq_depth = 0;
}

abbrev awaiting : Procs
awaiting = pair ReadyState.blocked (negsuc 0)

awaiting-IsTable : IsTable awaiting
awaiting-IsTable = record { placed = λ i h l. ground arith; next_in = omega arith }

awaiting-IsAwaited : IsAwaited 0 5 awaiting
awaiting-IsAwaited = record {
  me_in = omega arith;
  kid_in = omega arith;
  apart = omega arith;
  kid_lives = refl;
  kid_parent = refl;
  me_positive = omega arith;
  me_blocked = refl;
  awaits = inr refl;
}

sys_exit-collect_example :
    (s' s'' : Procs) × (sys_exit 5 258 awaiting ≡ some s')
    × ((s'.table 0).rs ≡ ReadyState.ready)
    × ((s'.table 5).rs ≡ ReadyState.terminated)
    × ((i : ℕ) → i ≢ 0 → i ≢ 5 → s'.table i ≡ awaiting.table i)
    × (collect 0 s' ≡ some (1029, 258 % 2 ^ 8, s''))
    × (get_pcb s'' 1029 ≡ none)
sys_exit-collect_example = sys_exit-collect 0 5 258 awaiting awaiting-IsTable awaiting-IsAwaited

abbrev about_to_wait : Procs
about_to_wait = pair ReadyState.ready not_waiting

about_to_wait-IsTable : IsTable about_to_wait
about_to_wait-IsTable = record { placed = λ i h l. ground arith; next_in = omega arith }

about_to_wait-IsWatched : IsWatched 0 5 about_to_wait
about_to_wait-IsWatched = record {
  me_in = omega arith;
  apart = omega arith;
  kid_parent = refl;
  me_positive = omega arith;
  me_ready = refl;
}

sys_exit-unnoticed_example :
    (s' : Procs) × (sys_exit 5 0 about_to_wait ≡ some s')
    × (s'.table 0 ≡ about_to_wait.table 0)
    × (((block_on 0 (negsuc 0) s').table 0).rs ≡ ReadyState.blocked)
    × (((block_on 0 (negsuc 0) s').table 5).rs ≡ ReadyState.terminated)
    × (((block_on 0 (negsuc 0) s').table 5).ppid ≡ pos ((block_on 0 (negsuc 0) s').table 0).pid)
sys_exit-unnoticed_example =
    sys_exit-unnoticed 0 5 0 (negsuc 0) about_to_wait about_to_wait-IsTable about_to_wait-IsWatched
