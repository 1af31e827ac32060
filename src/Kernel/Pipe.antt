-- ===== src/Kernel/Pipe.antt =====
-- kernel/pipe.c: the ring buffer behind pipe(2), and the critical sections of `pread`, `pwrite`
-- and `pclose`. What runs between two of them is in Pipe/System.
pub mod Ring
pub mod System
pub mod Delivery
mod Tests
use petix.Prelude.{
  ℕ, zero, suc, ◌+◌, ◌%◌, ◌/◌, ◌^◌, Bool, true, false, not, ◌&&◌, List, [], ◌∷◌, ◌++◌, ◌==◌,
  if◌then◌else◌, get_or, set, bit, replicate,
}

abbrev pub pipe_size : ℕ
pipe_size = 4096

-- `struct pipe`. The lock is held during each function below; of a condition variable the count
-- is kept, 0 or 1.
pub record Pipe : Type 0 where
  pub owrite : Bool
  pub oread : Bool
  pub lo : ℕ
  pub hi : ℕ
  pub buffer : List ℕ
  pub rcond : ℕ
  pub wcond : ℕ

-- `private_data` is the pipe's address with a bit for the end.
abbrev pub read_end : ℕ
read_end = 2 ^ 32

abbrev pub write_end : ℕ
write_end = 2 ^ 33

-- What a call does before it touches the pipe: it returns 0 on a closed file, -EPERM at the wrong
-- end, and else goes on with the pipe at the address.
pub data Entry : Type 0 where
  closed : Entry
  eperm : Entry
  proceed : ℕ → Entry

pub pread_entry : ℕ → Entry
pread_entry private =
    if private == 0 then closed else if bit private 32 then proceed (private % 2 ^ 32) else eperm

pub pwrite_entry : ℕ → Entry
pwrite_entry private =
    if private == 0 then closed else if bit private 33 then proceed (private % 2 ^ 32) else eperm

-- `cond_wake` on a condition variable: its count is 1 afterwards.
abbrev pub wake_rcond : Pipe → Pipe
wake_rcond p = record p { rcond = 1 }

abbrev pub wake_wcond : Pipe → Pipe
wake_wcond p = record p { wcond = 1 }

-- The inner loop of `pread`: the pipe, the count that is left and the bytes read so far.
pub drain : ℕ → Pipe → List ℕ → Pipe × ℕ × List ℕ
drain zero p got = (p, 0, got)
drain (suc count) p got =
    if p.hi == p.lo
    then (p, suc count, got)
    else drain count (record p { lo = (p.lo + 1) % pipe_size }) (got ++ get_or p.buffer p.lo 0 ∷ [])

-- One turn of `pread` under the lock. The last part says that the call returns: every writer has
-- closed and nothing is left.
pub read_turn : ℕ → Pipe → List ℕ → Pipe × ℕ × List ℕ × Bool
read_turn count p got =
    let (q, rest, got') = drain count p got in
    let r = if (q.hi + 1) % pipe_size == q.lo then q else wake_wcond q in
    (r, rest, got', not r.owrite && r.hi == r.lo)

-- The inner loop of `pwrite`: the pipe, and the bytes that found no room.
pub fill : List ℕ → Pipe → Pipe × List ℕ
fill [] p = (p, [])
fill (b ∷ bs) p =
    if (p.hi + 1) % pipe_size == p.lo
    then (p, b ∷ bs)
    else fill bs (record p { buffer = set p.buffer p.hi b; hi = (p.hi + 1) % pipe_size })

-- One turn of `pwrite` under the lock.
pub write_turn : List ℕ → Pipe → Pipe × List ℕ
write_turn bs p = let (q, rest) = fill bs p in ((if q.hi == q.lo then q else wake_rcond q), rest)

-- `pclose` on an open end, under the lock. The pipe is freed when both ends are closed.
pub pclose : ℕ → Pipe → Pipe × Bool
pclose private p =
    let q =
      if bit private 32
      then record p { oread = false }
      else if bit private 33
      then record p { owrite = false }
      else p in
    (record q { rcond = 1; wcond = 1 }, not q.oread && not q.owrite)

-- `open_pipe`: the pipe, and the `private_data` of the two files for a pipe at `address`.
pub open_pipe : ℕ → Pipe × ℕ × ℕ
open_pipe address = (
  record {
    owrite = true;
    oread = true;
    lo = 0;
    hi = 0;
    buffer = replicate pipe_size 0;
    rcond = 0;
    wcond = 0;
  },
  read_end + address,
  write_end + address,
)
