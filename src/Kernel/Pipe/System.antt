-- ===== src/Kernel/Pipe/System.antt =====
-- One process that reads a pipe and one that writes it. Each transition is a critical section of
-- kernel/pipe.c, or a return from `cond_wait`, which takes the one unit that `cond_wake` left.
use petix.Prelude.{ℕ, zero, suc, ◌≡◌, Bool, true, false, List, [], ◌∷◌, ◌++◌}
use petix.Kernel.Pipe.{Pipe, read_turn, write_turn, pclose, open_pipe, read_end, write_end}

-- Where the reader is: outside the kernel, at the head of the loop of `pread` with a count left,
-- in `cond_wait`, or past `pclose`.
pub data Reader : Type 0 where
  idle : Reader
  looping : ℕ → Reader
  waiting : ℕ → Reader
  gone : Reader

-- The same for the writer, with the bytes left. `checked` is past the test of `oread`, which
-- `pwrite` makes before it takes the lock.
pub data Writer : Type 0 where
  idle : Writer
  looping : List ℕ → Writer
  checked : List ℕ → Writer
  waiting : List ℕ → Writer
  gone : Writer

-- `asked` is all that `pwrite` was called with, in order, and `got` all that `pread` copied out.
pub record System : Type 0 where
  pub pipe : Pipe
  pub reader : Reader
  pub writer : Writer
  pub asked : List ℕ
  pub got : List ℕ

-- After a turn with the count `rest` left: the call has returned, or it waits.
abbrev pub after_read : Bool → ℕ → Reader
after_read true rest = Reader.idle
after_read false zero = Reader.idle
after_read false (suc rest) = Reader.waiting (suc rest)

abbrev pub after_write : List ℕ → Writer
after_write [] = Writer.idle
after_write (b ∷ bs) = Writer.waiting (b ∷ bs)

-- The test of `oread`: a call with nothing left has returned, and one with no reader returns.
abbrev pub test_oread : Bool → List ℕ → Writer
test_oread oread [] = Writer.idle
test_oread true (b ∷ bs) = Writer.checked (b ∷ bs)
test_oread false (b ∷ bs) = Writer.idle

-- A turn of the loop of `pread`, whose test is `count > 0`.
unfoldable pub reads : ℕ → System → System
reads zero s = record s { reader = Reader.idle }
reads (suc count) s =
    let (p, rest, got, eof) = read_turn (suc count) s.pipe s.got in
    record s { pipe = p; reader = after_read eof rest; got = got }

-- A turn of the loop of `pwrite`, under the lock.
unfoldable pub writes : List ℕ → System → System
writes bs s =
    let (p, rest) = write_turn bs s.pipe in record s { pipe = p; writer = after_write rest }

-- `pclose` of either end.
unfoldable pub closes_reader : System → System
unfolding pclose
closes_reader s = record s { pipe = (pclose read_end s.pipe).0; reader = Reader.gone }

unfoldable pub closes_writer : System → System
unfolding pclose
closes_writer s = record s { pipe = (pclose write_end s.pipe).0; writer = Writer.gone }

-- What either process may do next. The scheduler chooses, and the process chooses its calls.
pub data Step : System → System → Type 0 where
  call_read :
      (s : System) (count : ℕ)
      → s.reader ≡ Reader.idle
      → Step s (record s { reader = Reader.looping count })
  turn_read : (s : System) (count : ℕ) → s.reader ≡ Reader.looping count → Step s (reads count s)
  wake_reader :
      (s : System) (count units : ℕ)
      → s.reader ≡ Reader.waiting count
      → s.pipe.rcond ≡ suc units
      → Step s
          (record s { pipe = record (s.pipe) { rcond = units }; reader = Reader.looping count })
  close_reader : (s : System) → s.reader ≡ Reader.idle → Step s (closes_reader s)
  call_write :
      (s : System) (bs : List ℕ)
      → s.writer ≡ Writer.idle
      → Step s (record s { writer = Writer.looping bs; asked = s.asked ++ bs })
  check_write :
      (s : System) (bs : List ℕ)
      → s.writer ≡ Writer.looping bs
      → Step s (record s { writer = test_oread s.pipe.oread bs })
  turn_write : (s : System) (bs : List ℕ) → s.writer ≡ Writer.checked bs → Step s (writes bs s)
  wake_writer :
      (s : System) (bs : List ℕ) (units : ℕ)
      → s.writer ≡ Writer.waiting bs
      → s.pipe.wcond ≡ suc units
      → Step s (record s { pipe = record (s.pipe) { wcond = units }; writer = Writer.looping bs })
  close_writer : (s : System) → s.writer ≡ Writer.idle → Step s (closes_writer s)

-- The pipe that `open_pipe` makes, with both processes outside the kernel.
unfoldable pub start : System
unfolding open_pipe
start = record {
  pipe = (open_pipe 0).0;
  reader = Reader.idle;
  writer = Writer.idle;
  asked = [];
  got = [];
}

pub data Reach : System → Type 0 where
  here : Reach start
  next : {s t : System} → Reach s → Step s t → Reach t
