-- ===== src/Kernel/Pipe/Tests.antt =====
-- A writer that writes two bytes, and a reader that takes the first.
use petix.Prelude.{ℕ, ◌+◌, ◌%◌, ◌^◌, ◌≡◌, refl, true, List, [], ◌∷◌, ◌++◌}
use petix.Kernel.Pipe.{
  pipe_size, open_pipe, read_turn, write_turn, pwrite_entry, Entry, drain, fill,
}
use petix.Kernel.Pipe.Ring.{contents}
use petix.Kernel.Pipe.System.{
  System, Reader, Writer, call_read, turn_read, call_write, check_write, turn_write, test_oread,
  reads, writes, start, Reach, here, next,
}
use petix.Kernel.Pipe.Delivery.{pending, delivery, no_lost_wakeup}

abbrev two_bytes : List ℕ
two_bytes = 1 ∷ 2 ∷ []

abbrev called : System
called = record start { writer = Writer.looping two_bytes; asked = start.asked ++ two_bytes }

abbrev tested : System
tested = record called { writer = test_oread called.pipe.oread two_bytes }

abbrev written : System
written = writes two_bytes tested

abbrev reading : System
reading = record written { reader = Reader.looping 1 }

abbrev one_read : System
one_read = reads 1 reading

one_read-Reach : Reach one_read
unfolding start writes reads open_pipe read_turn write_turn
one_read-Reach =
    next
      (next
        (next
          (next (next here (call_write start two_bytes refl)) (check_write called two_bytes refl))
          (turn_write tested two_bytes refl))
        (call_read written 1 refl))
      (turn_read reading 1 refl)

one_read-got : one_read.got ≡ 1 ∷ []
unfolding start writes reads open_pipe read_turn write_turn drain fill
one_read-got = refl

pread_entry-write_end : pwrite_entry (2 ^ 32 + 12) ≡ Entry.eperm
unfolding pwrite_entry
pread_entry-write_end = refl

delivery_example :
    ((later : List ℕ) × (one_read.asked ≡ one_read.got ++ later))
    × (one_read.pipe.oread ≡ true
        → one_read.asked ≡ one_read.got ++ contents one_read.pipe ++ pending one_read.writer)
delivery_example = delivery one_read-Reach

no_lost_wakeup_example :
    ((one_read.reader ≡ Reader.waiting 1) × (one_read.pipe.rcond ≡ 0)
      → (one_read.pipe.hi ≡ one_read.pipe.lo) × (one_read.pipe.owrite ≡ true))
    × ((one_read.writer ≡ Writer.waiting two_bytes) × (one_read.pipe.wcond ≡ 0)
        → ((one_read.pipe.hi + 1) % pipe_size ≡ one_read.pipe.lo) × (one_read.pipe.oread ≡ true))
    × ¬ (
        (one_read.reader ≡ Reader.waiting 1)
        × (one_read.pipe.rcond ≡ 0)
        × (one_read.writer ≡ Writer.waiting two_bytes)
        × (one_read.pipe.wcond ≡ 0))
no_lost_wakeup_example = no_lost_wakeup one_read-Reach 1 two_bytes
