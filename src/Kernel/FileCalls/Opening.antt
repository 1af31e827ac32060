-- ===== src/Kernel/FileCalls/Opening.antt =====
-- `sys_open` and the descriptors of the process.
use petix.Prelude.{
  ℕ, ◌<◌, ◌≡◌, ◌⊎◌, Bool, true, false, List, none, some, if◌then◌else◌, get_or, set,
}
use petix.Kernel.Errno.{Errno, Ret, ok, err, enoent, emfile}
use petix.Kernel.Fd.{max_fds, Slot, closed, State, set_fds}
use petix.Kernel.Fd.Balance.{IsBalanced}
use petix.Kernel.Path.{Found, missing, directory, other_file, FileSystem, sys_creat}
use petix.Kernel.FileCalls.{is_enoent, o_cloexec, o_creat, Outcome}

-- What a new entry of process `p` is: nothing, or entry `i`, which was free, for the new file.
pub record Opens (fresh p i : ℕ) (s s' : State) (cloexec : Bool) : Type 0 where
  pub small : i < max_fds
  pub was_free : (get_or (s.fds p) i closed).file ≡ none
  pub new_file : s'.files fresh ≡ some 1
  pub entry :
      (q : ℕ)
      → s'.fds q
        ≡ set_fds s.fds p (set (s.fds p) i (record { file = some fresh; cloexec = cloexec })) q

pub record Unopened (s s' : State) : Type 0 where
  pub same : (q j : ℕ) → (get_or (s'.fds q) j closed).file ≡ (get_or (s.fds q) j closed).file

abbrev opened : ℕ → Bool → Slot
opened fresh b = record { file = some fresh; cloexec = b }

module _ {S : Type 0} (fs : FileSystem S) (open_inode : Found → ℕ → S → S × Ret) where
  -- The path is not there, and O_CREAT asks for it.
  pub record Wanted (path : List ℕ) (flags : ℕ) (x : S) : Type 0 where
    pub missed : fs.fs_lookup path x ≡ missing enoent
    pub asked : o_creat flags ≡ true

  -- In state `x'` the path is there, as `f`: from the start, or once `sys_creat` made it.
  pub data Reaches (path : List ℕ) (flags : ℕ) (x : S) : S → Found → Type 0 where
    at_once : (f : Found) → fs.fs_lookup path x ≡ f → Reaches path flags x x f
    after_creat :
        (x' : S) (n : ℕ) (f : Found)
        → Wanted path flags x
        → sys_creat fs path x ≡ some (x', ok n)
        → fs.fs_lookup path x' ≡ f
        → Reaches path flags x x' f

  -- Why there is nothing to open: `fs_lookup` failed and O_CREAT does not help, or `sys_creat`
  -- failed, or the lookup after it.
  pub data Missed (path : List ℕ) (flags : ℕ) (x : S) : Errno → Type 0 where
    not_found :
        (e : Errno)
        → fs.fs_lookup path x ≡ missing e
        → (if is_enoent e then o_creat flags else false) ≡ false
        → Missed path flags x e
    not_made :
        (x' : S) (e : Errno)
        → Wanted path flags x
        → sys_creat fs path x ≡ some (x', err e)
        → Missed path flags x e
    not_kept :
        (x' : S) (n : ℕ) (e : Errno)
        → Wanted path flags x
        → sys_creat fs path x ≡ some (x', ok n)
        → fs.fs_lookup path x' ≡ missing e
        → Missed path flags x e

  -- Why `sys_open` of process `p` returns an error: there is nothing to open, or every entry is open,
  -- or `fs_open` failed on what was found.
  pub data Fails (p : ℕ) (path : List ℕ) (flags : ℕ) (s : State) (x : S) : Errno → Type 0 where
    nothing : (e : Errno) → Missed path flags x e → Fails p path flags s x e
    no_entry :
        ((j : ℕ) → j < max_fds → (a : ℕ) × ((get_or (s.fds p) j closed).file ≡ some a))
        → Fails p path flags s x emfile
    not_opened :
        (x' x'' : S) (f : Found) (e : Errno)
        → Reaches path flags x x' f
        → open_inode f flags x' ≡ (x'', err e)
        → Fails p path flags s x e

  -- What `sys_open` leaves: a new descriptor of a new file, after a `fs_open` of what was found; or an
  -- error, with its cause, and the descriptors of before.
  pub record IsOpened (fresh p : ℕ) (path : List ℕ) (flags : ℕ) (s : State) (x : S)
      (out : Outcome S) : Type 0 where
    pub balanced : IsBalanced out.0
    pub result :
        ((i : ℕ) × (out.2 ≡ ok i)
          × Opens fresh p i s out.0 (o_cloexec flags)
          × ((x' : S) × (f : Found) × (n : ℕ) × Reaches path flags x x' f
              × (open_inode f flags x' ≡ (out.1, ok n))))
        ⊎ ((e : Errno) × (out.2 ≡ err e) × Unopened s out.0 × Fails p path flags s x e)

  -- What the search comes to.
  abbrev Searched : List ℕ → ℕ → S → S → Found → Type 0
  Searched path flags x x' (missing e) = Missed path flags x e
  Searched path flags x x' (directory i) = Reaches path flags x x' (directory i)
  Searched path flags x x' other_file = Reaches path flags x x' other_file
