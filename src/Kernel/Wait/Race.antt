-- ===== src/Kernel/Wait/Race.antt =====
-- A child that exits between the two critical sections of `sys_waitpid`.
use petix.Prelude.{
  ℕ, ◌%◌, ◌^◌, ◌<◌, ◌≡◌, ◌≢◌, refl, ◌∙◌, ap, sym, false, some, ◌==◌, ℤ, pos, arith, ne→==,
}
use petix.Kernel.Sync.{ReadyState}
use petix.Kernel.Proc.{Pcb, Procs, ptable_size, is_asleep, set_pcb, get_pcb}
use petix.Kernel.Proc.Table.{IsTable, IsLive}
use petix.Kernel.Wait.{wake_parent, sys_exit, block_on}
use petix.Kernel.Wait.Exit.{get_pcb-at}

-- The process at slot `kid` is a child of the one at slot `me`, which is ready: it
-- lost the processor to the child between the two.
pub record IsWatched (me kid : ℕ) (s : Procs) : Type 0 where
  pub me_in : me < ptable_size
  pub apart : kid ≢ me
  pub kid_parent : (s.table kid).ppid ≡ pos (s.table me).pid
  pub me_positive : 0 < (s.table me).pid
  pub me_ready : (s.table me).rs ≡ ReadyState.ready

wake_parent-awake :
    (c : Pcb) (s : Procs) (ppid k : ℕ)
    → c.ppid ≡ pos ppid
    → 0 < ppid
    → get_pcb s ppid ≡ some k
    → is_asleep (s.table k).rs ≡ false
    → wake_parent c s ≡ some s
unfolding wake_parent
wake_parent-awake c s ppid k e h f w = rw (wake_parent, e, ne→== ppid 0 (omega arith), f, w) refl

module _ (me kid code : ℕ) (pid : ℤ) (s : Procs) (v : IsTable s) (a : IsWatched me kid s) where
  abbrev coded : Pcb
  coded = record (s.table kid) { return_code = code % 2 ^ 8 }

  abbrev noted : Procs
  noted = record s { table = set_pcb s.table kid coded }

  abbrev exited : Procs
  exited = record noted {
    table = set_pcb noted.table kid (record (noted.table kid) { rs = ReadyState.terminated });
  }

  me_apart : (me == kid) ≡ false
  me_apart = ne→== me kid (λ e. a.apart (sym e))

  me_found : get_pcb noted (s.table me).pid ≡ some me
  me_found =
      let l : IsLive s.table me = rw a.me_ready refl in
      get_pcb-at noted (s.table me).pid me (v.placed me a.me_in l) (rw me_apart refl)
        (rw me_apart l)

  exits : sys_exit kid code s ≡ some exited
  unfolding sys_exit
  exits =
      rw
        (
          sys_exit,
          wake_parent-awake coded noted (s.table me).pid me a.kid_parent a.me_positive me_found
              (rw (me_apart, a.me_ready) refl),
        )
        refl

  -- Where a child exits after `sys_waitpid` of its parent has seen that it has not terminated, and
  -- before the parent has blocked, `sys_exit` does not wake the parent, which then blocks although
  -- its child has terminated.
  pub sys_exit-unnoticed :
      (s' : Procs) × (sys_exit kid code s ≡ some s')
      × (s'.table me ≡ s.table me)
      × (((block_on me pid s').table me).rs ≡ ReadyState.blocked)
      × (((block_on me pid s').table kid).rs ≡ ReadyState.terminated)
      × (((block_on me pid s').table kid).ppid ≡ pos ((block_on me pid s').table me).pid)
  unfolding block_on
  sys_exit-unnoticed = (
    exited,
    exits,
    rw me_apart refl,
    ground arith,
    ground (arith, kid_apart),
    ap (λ c. c.ppid) kid_kept ∙ kid_ppid ∙ a.kid_parent ∙ ap pos (ap (λ c. c.pid) me_kept ∙ me_pid),
  )
    where
      kid_apart : (kid == me) ≡ false
      kid_apart = ne→== kid me a.apart

      kid_kept :
          set_pcb exited.table me
            (record (exited.table me) { rs = ReadyState.blocked; wait_pid = pid })
            kid
          ≡ exited.table kid
      kid_kept = rw kid_apart refl

      me_kept : s.table me ≡ exited.table me
      me_kept = rw me_apart refl

      kid_ppid : (exited.table kid).ppid ≡ (s.table kid).ppid
      kid_ppid = ground arith

      me_pid :
          (exited.table me).pid
          ≡ (set_pcb exited.table me
              (record (exited.table me) { rs = ReadyState.blocked; wait_pid = pid })
              me).pid
      me_pid = ground arith
