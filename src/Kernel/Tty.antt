-- ===== src/Kernel/Tty.antt =====
-- kernel/device/tty/ttylib.c: the line discipline between a keyboard and the reader.
pub mod Queue
pub mod Input
mod Tests
use petix.Prelude.{
  ℕ, zero, suc, ◌+◌, ◌-◌, ◌*◌, ◌%◌, Bool, true, false, not, ◌&&◌, ◌||◌, List, [], ◌∷◌, ◌++◌, Option,
  none, some, ltb, ◌==◌, if◌then◌else◌, min, take, drop, get_or, set, length, replicate,
}

abbrev pub tty_buff_len : ℕ
tty_buff_len = 2048

-- SEND_CHAR, which is -1 as a `char`.
abbrev pub send_char : ℕ
send_char = 255

-- `struct petix_tty`: the flags ICANON and ECHO of `termios`, the ring with its three indices, the
-- bytes that went to the backend, and the number of wakeups of readers.
pub record Tty : Type 0 where
  pub icanon : Bool
  pub echo : Bool
  pub buffer : List ℕ
  pub fbase : ℕ
  pub lbase : ℕ
  pub loff : ℕ
  pub output : List ℕ
  pub woken : ℕ

unfoldable pub petix_tty_init : Tty
petix_tty_init = record {
  icanon = true;
  echo = true;
  buffer = replicate tty_buff_len 0;
  fbase = 0;
  lbase = 0;
  loff = 0;
  output = [];
  woken = 0;
}

-- `petix_tty_write` puts each byte.
unfoldable pub petix_tty_write : List ℕ → Tty → Tty
petix_tty_write bytes t = record t { output = t.output ++ bytes }

-- The entries of `echo_map`. What stands behind its 128 entries is `beyond`.
abbrev pub echo_map : (ℕ → List ℕ) → ℕ → List ℕ
echo_map beyond c =
    if c == 8
    then 8 ∷ []
    else if c == 9
    then replicate 8 b' '
    else if c == 10
    then 10 ∷ []
    else if ltb c 32
    then b'^' ∷ (c + 64) ∷ []
    else if ltb c 127
    then c ∷ []
    else if c == 127
    then b'^' ∷ b'?' ∷ []
    else beyond c

abbrev pub next_index : ℕ → ℕ
next_index i = (i + 1) % tty_buff_len

-- One byte at the end of the line.
unfoldable pub put_byte : ℕ → Tty → Tty
put_byte c t = record t { buffer = set t.buffer t.loff c; loff = next_index t.loff }

unfoldable pub put_bytes : List ℕ → Tty → Tty
put_bytes [] t = t
put_bytes (c ∷ cs) t = put_bytes cs (put_byte c t)

unfoldable pub echo_bytes : (ℕ → List ℕ) → List ℕ → Tty → Tty
echo_bytes beyond [] t = t
echo_bytes beyond (c ∷ cs) t = echo_bytes beyond cs (petix_tty_write (echo_map beyond c) t)

-- A backspace, which takes the last byte of the line back and off the screen.
unfoldable pub erase : (ℕ → List ℕ) → Tty → Tty
erase beyond t =
    let loff = (t.loff + tty_buff_len - 1) % tty_buff_len in
    let bslen = length (echo_map beyond (get_or t.buffer loff 0)) in
    if t.loff == t.lbase
    then t
    else petix_tty_write (replicate bslen 8) (
        petix_tty_write (replicate bslen b' ')
          (petix_tty_write (replicate bslen 8) (record t { loff = loff })))

-- The end of a line: the reader gets what was put, and a mark behind it.
unfoldable pub send : Tty → Tty
send t = let t' = put_byte send_char t in record t' { lbase = t'.loff; woken = suc t'.woken }

-- `petix_tty_input_seq` of the bytes `c ∷ cs`.
unfoldable pub petix_tty_input_seq : (ℕ → List ℕ) → ℕ → List ℕ → Tty → Tty
petix_tty_input_seq beyond c cs t =
    let t1 = if c == 4 && t.icanon then t else put_bytes (c ∷ cs) t in
    let t2 =
      if c == 4 && t.icanon then t else if t.echo then echo_bytes beyond (c ∷ cs) t1 else t1 in
    if (c == 8 || c == 127) && length cs == 0
    then erase beyond t
    else if c == 10 || (c == 4 || not t.icanon)
    then send t2
    else t2

-- One turn of the loop of `petix_tty_read`: the bytes that it copies.
unfoldable pub read_turn : ℕ → Tty → Tty × List ℕ
read_turn count t =
    let len = min (t.lbase - t.fbase) count in
    let len1 = min (tty_buff_len - t.fbase) count in
    let len2 = min t.lbase (count - len1) in
    if ltb t.fbase t.lbase
    then (record t { fbase = t.fbase + len }, take len (drop t.fbase t.buffer))
    else if ltb t.lbase t.fbase
    then (
      record t { fbase = ((t.fbase + len1) % tty_buff_len + len2) % tty_buff_len },
      take len1 (drop t.fbase t.buffer) ++ take len2 t.buffer,
    )
    else (t, [])

-- The requests of `petix_tty_ioctl` with the `struct termios` that they give, and what they put
-- where the caller says. TCSETS and TCSETSW do the same.
pub data TtyRequest : Type 0 where
  tcgets : TtyRequest
  tcsets : Bool → Bool → TtyRequest
  tcsetsf : Bool → Bool → TtyRequest
  tiocgwinsz : TtyRequest
  other_request : TtyRequest

pub data TtyAnswer : Type 0 where
  termios : Bool → Bool → TtyAnswer
  success : TtyAnswer
  winsize : ℕ → ℕ → TtyAnswer
  not_a_tty : TtyAnswer

-- `petix_tty_ioctl`, where a backend without a size has none for the rows and columns.
unfoldable pub petix_tty_ioctl : Option (ℕ × ℕ) → TtyRequest → Tty → Tty × TtyAnswer
petix_tty_ioctl size tcgets t = (t, termios t.icanon t.echo)
petix_tty_ioctl size (tcsets icanon echo) t = (record t { icanon = icanon; echo = echo }, success)
petix_tty_ioctl size (tcsetsf icanon echo) t =
    (record t { icanon = icanon; echo = echo; fbase = t.loff; lbase = t.loff }, success)
petix_tty_ioctl none tiocgwinsz t = (t, not_a_tty)
petix_tty_ioctl (some (rows, cols)) tiocgwinsz t = (t, winsize rows cols)
petix_tty_ioctl size other_request t = (t, not_a_tty)
