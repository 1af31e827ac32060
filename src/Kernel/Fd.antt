-- ===== src/Kernel/Fd.antt =====
-- File descriptors: `alloc_fd`, `release_fd` and `dup_fd` of kernel/proc.c, and the system calls of
-- kernel/syscall.c that move them. A `struct file` is its address and its reference count here.
pub mod Counts
pub mod Balance
pub mod Calls
pub mod Exit
pub mod Leak
mod Tests
use petix.Prelude.{
  ℕ, zero, suc, ◌+◌, ◌-◌, Bool, true, false, not, ◌&&◌, ◌||◌, List, [], ◌∷◌, Option, none, some,
  ltb, leb, ◌==◌, if◌then◌else◌, ℤ, pos, negsuc, get_or, set, replicate,
}
use petix.Kernel.Errno.{Ret, ok, err, ebadf, emfile, eagain}

abbrev pub max_fds : ℕ
max_fds = 16

-- An entry of `fds`: the address of the file, or NULL.
pub record Slot : Type 0 where
  pub file : Option ℕ
  pub cloexec : Bool

abbrev pub closed : Slot
closed = record { file = none; cloexec = false }

abbrev pub Fds : Type 0
Fds = List Slot

-- The reference count of the file at an address, if one is allocated there.
abbrev pub Files : Type 0
Files = ℕ → Option ℕ

abbrev pub set_file : Files → ℕ → Option ℕ → Files
set_file files a c b = if b == a then c else files b

-- The files, and the descriptors of each slot of the process table.
pub record State : Type 0 where
  pub files : Files
  pub fds : ℕ → Fds

abbrev pub set_fds : (ℕ → Fds) → ℕ → Fds → ℕ → Fds
set_fds tables p fds q = if q == p then fds else tables q

-- The loop of `alloc_fd` from entry `i`: the first that is NULL.
unfoldable pub free_fd : ℕ → Fds → Option ℕ
free_fd i [] = none
free_fd i (s ∷ fds) = elim s.file [ none ↦ some i | some a ↦ free_fd (i + 1) fds ]

-- `alloc_fd` for process `p`, where `kmalloc_sync` returns `fresh`. A full table is -EMFILE.
unfoldable pub alloc_fd : ℕ → ℕ → State → State × Ret
unfolding free_fd
alloc_fd fresh p s = elim (free_fd 0 (s.fds p)) [
  | none ↦ (s, err emfile)
  | some i ↦ (
    record {
      files = set_file s.files fresh (some 1);
      fds = set_fds s.fds p (set (s.fds p) i (record { file = some fresh; cloexec = false }));
    },
    ok i,
  )
]

-- The count of a file goes down, and a file with none is closed and freed. `none` is a failed
-- assertion.
unfoldable pub drop_ref : Option ℕ → Files → Option Files
drop_ref none files = none
drop_ref (some a) files = elim (files a) [
  | none ↦ none
  | some zero ↦ none
  | some (suc zero) ↦ some (set_file files a none)
  | some (suc (suc c)) ↦ some (set_file files a (some (suc c)))
]

unfoldable pub release_fd : ℕ → ℕ → State → Option State
release_fd p i s = elim (drop_ref (get_or (s.fds p) i closed).file s.files) [
  | none ↦ none
  | some files ↦ some (record { files = files; fds = set_fds s.fds p (set (s.fds p) i closed) })
]

unfoldable pub add_ref : Option ℕ → Files → Files
add_ref none files = files
add_ref (some a) files = set_file files a (elim (files a) [ none ↦ some 1 | some c ↦ some (suc c) ])

-- `dup_fd` counts one more use of the file, which is not NULL.
unfoldable pub dup_fd : ℕ → ℕ → State → State
dup_fd p i s = record s { files = add_ref (get_or (s.fds p) i closed).file s.files }

-- The test with which the system calls begin: the entry that a descriptor names, if it is open.
unfoldable pub valid_fd : ℤ → Fds → Option ℕ
valid_fd (negsuc n) fds = none
valid_fd (pos n) fds =
    if leb max_fds n
    then none
    else elim (get_or fds n closed).file [ none ↦ none | some a ↦ some n ]

unfoldable pub sys_close : ℕ → ℤ → State → Option (State × Ret)
unfolding valid_fd
sys_close p fd s = elim (valid_fd fd (s.fds p)) [
  | none ↦ some (s, err ebadf)
  | some i ↦ elim (release_fd p i s) [ none ↦ none | some s' ↦ some (s', ok 0) ]
]

-- The last steps of `sys_dup2`: the second descriptor is closed if it is open, and then shares the
-- file of the first.
unfoldable pub share_fd : ℕ → ℕ → ℕ → State → State
share_fd p i j s =
    let t = dup_fd p i s in
    let f = (get_or (t.fds p) i closed).file in
    record t {
      fds = set_fds t.fds p (set (t.fds p) j (record (get_or (t.fds p) j closed) { file = f }));
    }

unfoldable pub sys_dup2 : ℕ → ℤ → ℤ → State → Option (State × Ret)
sys_dup2 p fd (negsuc n) s = some (s, err ebadf)
sys_dup2 p fd (pos j) s = elim (valid_fd fd (s.fds p)) [
  | none ↦ some (s, err ebadf)
  | some i ↦
      if leb max_fds j
      then some (s, err ebadf)
      else if i == j
      then some (s, ok i)
      else elim (get_or (s.fds p) j closed).file [
        | none ↦ some (share_fd p i j s, ok j)
        | some a ↦ elim (release_fd p j s) [
          | none ↦ none
          | some s' ↦ some (share_fd p i j s', ok j)
        ]
      ]
]

-- The descriptors that `sys_pipe` makes. Where there is room for one only it is not given back.
unfoldable pub second_fd : ℕ → ℕ → State × Ret → State × Option (ℕ × ℕ)
second_fd fresh p (s, err e) = (s, none)
second_fd fresh p (s, ok i) =
    let (s', r) = alloc_fd fresh p s in elim r [ err e ↦ (s', none) | ok j ↦ (s', some (i, j)) ]

unfoldable pub pipe_fds : ℕ → ℕ → ℕ → State → State × Option (ℕ × ℕ)
unfolding second_fd
pipe_fds fresh₁ fresh₂ p s = second_fd fresh₂ p (alloc_fd fresh₁ p s)

-- The descriptors that `sys_fork` gives the new process `q`: those of `p`, each counted once more.
unfoldable pub add_refs : Fds → Files → Files
unfolding add_ref
add_refs [] files = files
add_refs (s ∷ fds) files = add_refs fds (add_ref s.file files)

unfoldable pub fork_fds : ℕ → ℕ → State → State
unfolding add_refs
fork_fds p q s = record { files = add_refs (s.fds p) s.files; fds = set_fds s.fds q (s.fds p) }

-- The loops of `sys_exit` and `sys_exec`, from entry `i`: they release the descriptors that are
-- open, `sys_exec` those alone that are marked as `cloexec`.
unfoldable pub release_from : (Slot → Bool) → ℕ → ℕ → ℕ → State → Option State
release_from which zero i p s = some s
release_from which (suc rounds) i p s = elim (get_or (s.fds p) i closed).file [
  | none ↦ release_from which rounds (i + 1) p s
  | some a ↦ elim (which (get_or (s.fds p) i closed)) [
    | false ↦ release_from which rounds (i + 1) p s
    | true ↦ elim (release_fd p i s) [
      | none ↦ none
      | some s' ↦ release_from which rounds (i + 1) p s'
    ]
  ]
]

unfoldable pub exit_fds : ℕ → State → Option State
unfolding release_from
exit_fds p s = elim (release_from (λ _. true) max_fds 0 p s) [
  | none ↦ none
  | some s' ↦ some (record s' { fds = set_fds s'.fds p (replicate max_fds closed) })
]

unfoldable pub exec_fds : ℕ → State → Option State
unfolding release_from
exec_fds p s = release_from (λ (e : Slot). e.cloexec) max_fds 0 p s
