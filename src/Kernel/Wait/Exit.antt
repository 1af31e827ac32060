-- ===== src/Kernel/Wait/Exit.antt =====
-- A child that exits and the parent that waits for it.
use petix.Prelude.{
  ℕ, ◌%◌, ◌^◌, ◌<◌, ◌≡◌, ◌≢◌, refl, ◌∙◌, ap, sym, true, false, ◌&&◌, ◌||◌, none, some, ◌==◌, ℤ, pos,
  negsuc, eqb_ℤ, arith, inl, inr, ◌⊎◌, ne→==,
}
use petix.Kernel.Sync.{ReadyState}
use petix.Kernel.Proc.{
  Pcb, Procs, ptable_size, pid_off, not_waiting, is_noproc, is_asleep, set_pcb, get_pcb,
  release_proc,
}
use petix.Kernel.Proc.Table.{IsTable, IsLive}
use petix.Kernel.Wait.{wake_parent, sys_exit, collect}

-- The process at slot `kid` is a child of the one at slot `me`, which waits for it, or for any.
pub record IsAwaited (me kid : ℕ) (s : Procs) : Type 0 where
  pub me_in : me < ptable_size
  pub kid_in : kid < ptable_size
  pub apart : kid ≢ me
  pub kid_lives : IsLive s.table kid
  pub kid_parent : (s.table kid).ppid ≡ pos (s.table me).pid
  pub me_positive : 0 < (s.table me).pid
  pub me_blocked : (s.table me).rs ≡ ReadyState.blocked
  pub awaits : ((s.table me).wait_pid ≡ pos (s.table kid).pid) ⊎ ((s.table me).wait_pid ≡ negsuc 0)

-- A process that is there is found under its pid.
get_pcb-live :
    (s : Procs) (i : ℕ)
    → IsTable s
    → i < ptable_size
    → IsLive s.table i
    → get_pcb s (s.table i).pid ≡ some i
unfolding get_pcb
get_pcb-live s i v b l =
    let at : pid_off (s.table i).pid ≡ i = v.placed i b l in rw (at, l) (ground arith)

pub get_pcb-at :
    (s : Procs) (pid i : ℕ)
    → pid_off pid ≡ i
    → (s.table i).pid ≡ pid
    → IsLive s.table i
    → get_pcb s pid ≡ some i
unfolding get_pcb
get_pcb-at s pid i at e l = rw (at, l) (ground (arith, e))

wake_parent-found :
    (c : Pcb) (s : Procs) (ppid k : ℕ)
    → c.ppid ≡ pos ppid
    → 0 < ppid
    → get_pcb s ppid ≡ some k
    → is_asleep (s.table k).rs
        && (eqb_ℤ (s.table k).wait_pid (pos c.pid) || eqb_ℤ (s.table k).wait_pid (negsuc 0))
      ≡ true
    → wake_parent c s
      ≡ some (record s {
        table =
            set_pcb s.table k (record (s.table k) { wait_pid = pos c.pid; rs = ReadyState.ready });
      })
unfolding wake_parent
wake_parent-found c s ppid k e h f w = rw (wake_parent, e, ne→== ppid 0 (omega arith), f, w) refl

collect-found :
    (s : Procs) (me w k : ℕ)
    → (s.table me).wait_pid ≡ pos w
    → get_pcb s w ≡ some k
    → collect me s
      ≡ some (
        w,
        (s.table k).return_code,
        release_proc k (record s {
          table = set_pcb s.table me (record (s.table me) { wait_pid = not_waiting });
        }),
      )
unfolding collect
collect-found s me w k e f = rw (collect, e, f) refl

get_pcb-gone :
    (s : Procs) (pid : ℕ) → is_noproc (s.table (pid_off pid)).rs ≡ true → get_pcb s pid ≡ none
unfolding get_pcb
get_pcb-gone s pid e = rw (get_pcb, e) refl

awaited :
    (w : ℤ) (pid : ℕ)
    → (w ≡ pos pid) ⊎ (w ≡ negsuc 0)
    → eqb_ℤ w (pos pid) || eqb_ℤ w (negsuc 0) ≡ true
awaited w pid (inl e) = rw e (ground arith)
awaited w pid (inr e) = rw e (ground arith)

module _ (me kid code : ℕ) (s : Procs) (v : IsTable s) (a : IsAwaited me kid s) where
  abbrev coded : Pcb
  coded = record (s.table kid) { return_code = code % 2 ^ 8 }

  abbrev noted : Procs
  noted = record s { table = set_pcb s.table kid coded }

  abbrev woken : Procs
  woken = record noted {
    table =
        set_pcb noted.table me
          (record (noted.table me) { wait_pid = pos (s.table kid).pid; rs = ReadyState.ready });
  }

  abbrev exited : Procs
  exited = record woken {
    table = set_pcb woken.table kid (record (woken.table kid) { rs = ReadyState.terminated });
  }

  blocked_live : (rs : ReadyState) → rs ≡ ReadyState.blocked → is_noproc rs ≡ false
  blocked_live rs e = rw e refl

  me_apart : (me == kid) ≡ false
  me_apart = ne→== me kid (λ e. a.apart (sym e))

  kid_apart : (kid == me) ≡ false
  kid_apart = ne→== kid me a.apart

  me_found : get_pcb noted (s.table me).pid ≡ some me
  me_found =
      let l = blocked_live (s.table me).rs a.me_blocked in
      get_pcb-at noted (s.table me).pid me (v.placed me a.me_in l) (rw me_apart refl)
        (rw me_apart l)

  wakes : wake_parent coded noted ≡ some woken
  wakes =
      wake_parent-found coded noted (s.table me).pid me a.kid_parent a.me_positive me_found
        (rw (me_apart, a.me_blocked) (awaited (s.table me).wait_pid (s.table kid).pid a.awaits))

  exits : sys_exit kid code s ≡ some exited
  unfolding sys_exit
  exits = rw (sys_exit, wakes) refl

  kid_found : get_pcb exited (s.table kid).pid ≡ some kid
  kid_found =
      get_pcb-at exited (s.table kid).pid kid (v.placed kid a.kid_in a.kid_lives)
        (ground (arith, kid_apart)) (ground arith)

  abbrev collected : Procs
  collected = release_proc kid (record exited {
    table = set_pcb exited.table me (record (exited.table me) { wait_pid = not_waiting });
  })

  kid_code : (exited.table kid).return_code ≡ code % 2 ^ 8
  kid_code = ground (arith, kid_apart)

  collects : collect me exited ≡ some ((s.table kid).pid, code % 2 ^ 8, collected)
  collects =
      collect-found exited me (s.table kid).pid kid (ground (arith, me_apart)) kid_found
      ∙ ap (λ c. some ((s.table kid).pid, c, collected)) kid_code

  gone : get_pcb collected (s.table kid).pid ≡ none
  unfolding release_proc
  gone =
      get_pcb-gone collected (s.table kid).pid
        (rw (v.placed kid a.kid_in a.kid_lives) (ground arith))

  -- `sys_exit` of a child that its parent waits for, with `waitpid` for this child or for any, makes
  -- the parent ready and the child terminated and changes no other process. When the parent runs
  -- again `waitpid` gives it the pid and the return code of the child, whose pid then names nothing.
  pub sys_exit-collect :
      (s' s'' : Procs) × (sys_exit kid code s ≡ some s')
      × ((s'.table me).rs ≡ ReadyState.ready)
      × ((s'.table kid).rs ≡ ReadyState.terminated)
      × ((i : ℕ) → i ≢ me → i ≢ kid → s'.table i ≡ s.table i)
      × (collect me s' ≡ some ((s.table kid).pid, code % 2 ^ 8, s''))
      × (get_pcb s'' (s.table kid).pid ≡ none)
  sys_exit-collect = (
    exited,
    collected,
    exits,
    ground (arith, me_apart),
    ground arith,
    λ i m k. ground arith,
    collects,
    gone,
  )
