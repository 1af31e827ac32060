-- ===== src/Kernel/Tty/Tests.antt =====
-- A terminal as it is after `petix_tty_init`.
use petix.Prelude.{ℕ, [], replicate, length-replicate, arith, refl, true}
use petix.Kernel.Tty.{tty_buff_len, Tty, petix_tty_input_seq, read_turn}
use petix.Kernel.Tty.Queue.{IsRing, available, line, ReadTurn, read_turn-ReadTurn}
use petix.Kernel.Tty.Input.{Queues, sent_after, held_after, input_seq-Queues}

abbrev quiet : Tty
quiet = record {
  icanon = true;
  echo = true;
  buffer = replicate tty_buff_len 0;
  fbase = 2000;
  lbase = 3;
  loff = 5;
  output = [];
  woken = 0;
}

quiet-IsRing : IsRing quiet
quiet-IsRing = record {
  sized = length-replicate {A = ℕ} tty_buff_len 0;
  f_small = omega arith;
  l_small = omega arith;
  o_small = omega arith;
  order = omega arith;
}

input_seq-Queues_example :
    Queues
      (petix_tty_input_seq (λ c. []) b'a' [] quiet)
      (sent_after b'a' (available quiet) (line quiet))
      (held_after b'a' (line quiet))
input_seq-Queues_example = input_seq-Queues (λ c. []) b'a' quiet quiet-IsRing refl (omega arith)

read_turn-ReadTurn_example : ReadTurn 50 quiet (read_turn 50 quiet).0 (read_turn 50 quiet).1
read_turn-ReadTurn_example = read_turn-ReadTurn 50 quiet quiet-IsRing
