-- ===== src/Libc/Stdio/Tests.antt =====
-- A device whose state is what it was sent and what it has left to read.
use petix.Prelude.{ℕ, refl, List, [], ◌∷◌, ◌++◌, some, true, false, length, take, drop, arith}
use petix.Libc.Stdio.{Buffering, Stream, Device, fwrite, newline}
use petix.Libc.Stdio.Write.{IsStream, WritesAll, Written, fwrite-Written}

abbrev Tape : Type 0
Tape = List ℕ × List ℕ

abbrev tape : Device Tape
tape = record {
  write = λ bs d. ((d.0 ++ bs, d.1), some (length bs));
  read = λ n d. ((d.0, drop n d.1), some (take n d.1));
  errno = λ _. 0;
}

abbrev sent : Tape → List ℕ
sent d = d.0

abbrev rest : Tape → List ℕ
rest d = d.1

tape-WritesAll : WritesAll tape sent
tape-WritesAll = record { whole = λ bs d. refl; in_order = λ bs d. refl }

abbrev stdout : Stream
stdout = record {
  err = 0;
  bf = Buffering.line;
  valid = true;
  eof = false;
  start = 0;
  buffer = 1 ∷ [];
}

stdout-IsStream : IsStream stdout
stdout-IsStream = record { valid = refl; small = omega arith; none_kept = λ h. cc }

abbrev blank : Tape
blank = ([], 5 ∷ 6 ∷ [])

fwrite-Written_example :
    let (r, s', d') = fwrite tape (2 ∷ newline ∷ []) stdout blank in
    Written sent (2 ∷ newline ∷ []) stdout blank r s' d'
fwrite-Written_example =
    fwrite-Written tape sent tape-WritesAll (2 ∷ newline ∷ []) stdout blank stdout-IsStream
