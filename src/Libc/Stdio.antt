-- ===== src/Libc/Stdio.antt =====
-- libc/stdio: the buffers of `fwrite`, `fflush`, `fclose` and `fread`.
pub mod Write
pub mod Rounds
pub mod Read
mod Tests
use petix.Prelude.{
  ℕ, zero, suc, ◌+◌, ◌-◌, Bool, true, false, not, ◌&&◌, ◌||◌, List, [], ◌∷◌, ◌++◌, Option, none,
  some, ltb, leb, ◌==◌, if◌then◌else◌, length, take, drop, min, ◌^◌,
}

abbrev pub bufsiz : ℕ
bufsiz = 4096

abbrev pub ebadf : ℕ
ebadf = 9

-- `bf`: _IOFBF, _IOLBF and _IONBF.
pub data Buffering : Type 0 where
  full : Buffering
  line : Buffering
  unbuffered : Buffering

-- `struct _stdio_file`, less its descriptor. `buffer` is the part of the array below `end`, so that
-- `end` is its length.
pub record Stream : Type 0 where
  pub err : ℕ
  pub bf : Buffering
  pub valid : Bool
  pub eof : Bool
  pub start : ℕ
  pub buffer : List ℕ

-- The system calls on the stream's descriptor, on a state of type `D`. `none` is -1, and `errno` is
-- what it then is.
pub record Device (D : Type 0) : Type 0 where
  pub write : List ℕ → D → D × Option ℕ
  pub read : ℕ → D → D × Option (List ℕ)
  pub errno : D → ℕ

abbrev pub is_unbuffered : Buffering → Bool
is_unbuffered Buffering.unbuffered = true
is_unbuffered _ = false

abbrev pub is_line : Buffering → Bool
is_line Buffering.line = true
is_line _ = false

abbrev pub newline : ℕ
newline = 10

-- The test with `memchr`.
unfoldable pub has_newline : List ℕ → Bool
has_newline [] = false
has_newline (c ∷ bs) = c == newline || has_newline bs

module _ {D : Type 0} (dev : Device D) where
  -- `fwrite` of the bytes without a buffer.
  unfoldable pub write_through : List ℕ → Stream → D → Option ℕ × Stream × D
  write_through bs s d =
      let (d', r) = dev.write bs d in
      elim r [ none ↦ (some 0, record s { err = dev.errno d' }, d') | some n ↦ (some n, s, d') ]

  -- It writes the buffer, and then the bytes. An error is noted as -1, all ones.
  unfoldable pub write_both : List ℕ → Stream → D → Option ℕ × Stream × D
  write_both bs s d =
      let (d1, r1) = dev.write s.buffer d in
      elim r1 [
        | none ↦ (some 0, record s { err = 2 ^ 32 - 1 }, d1)
        | some n1 ↦
            let s1 = record s { buffer = [] } in
            let (d2, r2) = dev.write bs d1 in
            elim r2 [
              | none ↦ (some n1, record s1 { err = 2 ^ 32 - 1 }, d2)
              | some n2 ↦ (some (n1 + n2), s1, d2)
            ]
      ]

  -- `fwrite`, where `none` is -1.
  unfoldable pub fwrite : List ℕ → Stream → D → Option ℕ × Stream × D
  fwrite bs s d =
      if not s.valid
      then (none, record s { err = ebadf }, d)
      else if is_unbuffered s.bf
      then write_through bs s d
      else if leb (length bs + length s.buffer) bufsiz && not (is_line s.bf && has_newline bs)
      then (some (length bs), record s { buffer = s.buffer ++ bs }, d)
      else write_both bs s d

  -- `fflush`, where false is EOF. It does not look at what `write` returns.
  unfoldable pub fflush : Stream → D → Bool × Stream × D
  fflush s d =
      if s.valid
      then (true, record s { buffer = [] }, (dev.write s.buffer d).0)
      else (false, record s { err = ebadf }, d)

  -- The loop of `fread` on a stream whose start is not past its end, with the count that is left and
  -- the bytes copied so far. The first part of its result says that no `read` failed.
  unfoldable pub fread_loop : ℕ → ℕ → List ℕ → Stream → D → Bool × ℕ × List ℕ × Stream × D
  fread_loop zero total out s d = (true, total, out, s, d)
  fread_loop (suc rounds) total out s d =
      let n = min (length s.buffer - s.start) total in
      let out1 = out ++ take n (drop s.start s.buffer) in
      let left = total - n in
      let s1 = record s { start = s.start + n } in
      if total == 0
      then (true, 0, out, s, d)
      else if ltb bufsiz left
      then elim (dev.read left d).1 [
        | none ↦ (false, left, out1, s1, (dev.read left d).0)
        | some bs ↦ (true, left - length bs, out1 ++ bs, s1, (dev.read left d).0)
      ]
      else elim (left == 0) [
        | true ↦ (true, 0, out1, s1, d)
        | false ↦ elim (dev.read bufsiz d).1 [
          | none ↦ (false, left, out1, record s1 { start = 0 }, (dev.read bufsiz d).0)
          | some [] ↦
              (true, left, out1, record s1 { start = 0; buffer = [] }, (dev.read bufsiz d).0)
          | some (b ∷ bs) ↦
              fread_loop rounds left out1 (record s1 { start = 0; buffer = b ∷ bs })
                (dev.read bufsiz d).0
        ]
      ]

  -- The end of `fread`: what it returns and what it copied.
  unfoldable pub finish_fread : ℕ → Bool × ℕ × List ℕ × Stream × D → ℕ × List ℕ × Stream × D
  finish_fread total (ok, left, out, s, d) =
      if not ok
      then (0, out, record s { eof = true; err = dev.errno d }, d)
      else if total - left == 0
      then (0, out, record s { eof = true; err = 0 }, d)
      else (total - left, out, s, d)

  -- `fread` from a buffered stream that is valid. `none` is a read with a start past the end, where
  -- `end - start` wraps around and what is copied begins behind the end.
  unfoldable pub fread : ℕ → Stream → D → Option (ℕ × List ℕ × Stream × D)
  fread total s d =
      if ltb (length s.buffer) s.start && not (total == 0)
      then none
      else some (finish_fread total (fread_loop (total + 1) total [] s d))
