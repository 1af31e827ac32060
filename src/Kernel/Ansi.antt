-- ===== src/Kernel/Ansi.antt =====
-- kernel/device/tty/ansiseq.c: the terminal that interprets escape sequences. What it tells its
-- backend is a list of calls.
pub mod Cursor
mod Tests
use petix.Prelude.{
  ℕ, zero, suc, ◌+◌, ◌-◌, ◌*◌, ◌/◌, ◌%◌, ◌^◌, Bool, true, false, not, ◌&&◌, ◌||◌, List, [], ◌∷◌,
  ◌++◌, ltb, leb, ◌==◌, if◌then◌else◌, get_or, set, bit, replicate, Option, none, some,
}

-- `struct ansi_rendition`: colours 0 to 7, 9 for the default, and the byte of flags by its bits.
pub record Rendition : Type 0 where
  pub fg : ℕ
  pub bg : ℕ
  pub flags : ℕ → Bool

abbrev pub default_color : ℕ
default_color = 9

abbrev pub plain : Rendition
plain = record { fg = default_color; bg = default_color; flags = λ _. false }

-- A call of the backend.
pub data Call : Type 0 where
  putch : Rendition → ℕ → ℕ → ℕ → Call
  curto : ℕ → ℕ → Call
  scroll_up : Call

pub data AnsiState : Type 0 where
  outside : AnsiState
  esc : AnsiState
  esc_lbrak : AnsiState

-- `struct ansi_term`, with `row_n` and `col_n` of its backend, and the calls made so far, the last
-- one first. `noff` is the index of the last number in `numerics`, which holds sixteen.
pub record Term : Type 0 where
  pub row : ℕ
  pub col : ℕ
  pub numerics : List ℕ
  pub noff : ℕ
  pub nump : Bool
  pub state : AnsiState
  pub rendition : Rendition
  pub row_n : ℕ
  pub col_n : ℕ
  pub calls : List Call

abbrev pub call : Call → Term → Term
call c t = record t { calls = c ∷ t.calls }

-- The control characters.
abbrev pub newline : ℕ
newline = 10

abbrev pub carriage_return : ℕ
carriage_return = 13

abbrev pub tab : ℕ
tab = 9

abbrev pub backspace_char : ℕ
backspace_char = 8

abbrev pub escape : ℕ
escape = 27

abbrev pub space : ℕ
space = 32

-- The end of `putch_unesc`: past the last row the screen is scrolled.
unfoldable pub settle : Term → Term
settle t =
    let s =
      if t.row == t.row_n then record t { row = t.row - 1; calls = scroll_up ∷ t.calls } else t in
    call (curto s.row s.col) s

-- A backspace goes back one column, from the first one to the end of the row above. `none` is the
-- row -1, above the screen.
unfoldable pub backspace : Term → Option Term
backspace t =
    if t.col == 0
    then if t.row == 0
      then none
      else some (
          call (putch t.rendition space (t.row - 1) (t.col_n - 1))
            (record t { row = t.row - 1; col = t.col_n - 1 }))
    else some (call (putch t.rendition space t.row (t.col - 1)) (record t { col = t.col - 1 }))

-- A character is drawn at the cursor, which moves on, past the last column to the next row.
unfoldable pub draw : ℕ → Term → Term
draw ch t =
    let s = call (putch t.rendition ch t.row t.col) t in
    if t.col + 1 == t.col_n
    then record s { row = t.row + 1; col = 0 }
    else record s { col = t.col + 1 }

unfoldable pub putch_unesc : ℕ → Term → Option Term
putch_unesc ch t =
    if ch == newline
    then some (settle (record t { row = t.row + 1; col = 0 }))
    else if ch == carriage_return
    then some (settle (record t { col = 0 }))
    else if ch == tab
    then some (settle (record t { col = t.col + 8 }))
    else if ch == backspace_char
    then elim (backspace t) [ none ↦ none | some s ↦ some (settle s) ]
    else some (settle (draw ch t))

-- One command of `process_rendition_command`.
abbrev pub set_flag : Rendition → ℕ → Bool → Rendition
set_flag r k v = record r { flags = λ j. if j == k then v else r.flags j }

unfoldable pub rendition_command : ℕ → Rendition → Rendition
rendition_command cmd r =
    if cmd / 10 == 3
    then record r { fg = cmd % 10 }
    else if cmd / 10 == 4
    then record r { bg = cmd % 10 }
    else if cmd == 0
    then plain
    else if cmd / 10 == 0
    then (if ltb (cmd % 10) 8 then set_flag r (cmd % 10) true else r)
    else if cmd / 10 == 2
    then if cmd % 10 == 2
      then set_flag (set_flag r 1 false) 2 false
      else if ltb (cmd % 10) 8
      then set_flag r (cmd % 10) false
      else r
    else r

unfoldable pub rendition_commands : List ℕ → ℕ → Rendition → Rendition
unfolding rendition_command
rendition_commands [] nargs r = r
rendition_commands (cmd ∷ cmds) zero r = r
rendition_commands (cmd ∷ cmds) (suc nargs) r =
    rendition_commands cmds nargs (rendition_command cmd r)

-- What a character does to the terminal: the terminal after it, the answer to a request for the
-- position of the cursor, or an access outside of `numerics` or of the screen.
pub data Result : Type 0 where
  done : Term → Result
  report : ℕ → ℕ → Term → Result
  fault : Result

abbrev pub is_digit : ℕ → Bool
is_digit ch = leb b'0' ch && leb ch b'9'

abbrev pub max_numerics : ℕ
max_numerics = 16

-- A digit, and a semicolon, inside of a sequence.
unfoldable pub put_digit : ℕ → Term → Result
put_digit ch t =
    if ltb t.noff max_numerics
    then done (record t {
      nump = true;
      numerics = set t.numerics t.noff (get_or t.numerics t.noff 0 * 10 + ch - b'0');
    })
    else fault

unfoldable pub put_semicolon : Term → Result
put_semicolon t =
    if ltb (t.noff + 1) max_numerics
    then done (record t { noff = t.noff + 1; numerics = set t.numerics (t.noff + 1) 0 })
    else fault

abbrev pub nargs : Term → ℕ
nargs t = if t.nump then t.noff + 1 else 0

-- The end of a sequence.
unfoldable pub end_sequence : ℕ → Term → Result
unfolding rendition_commands
end_sequence ch t =
    let s = record t { state = outside } in
    if ch == b'm'
    then done (record s { rendition = rendition_commands t.numerics (nargs t) t.rendition })
    else if ch == b'n' && (nargs t == 1 && get_or t.numerics 0 0 == 6)
    then report t.row t.col s
    else done s

-- `ansi_putch` by the state.
unfoldable pub ansi_putch : ℕ → Term → Result
ansi_putch ch t = elim t.state [
  | outside ↦
      if ch == escape
      then done (record t { noff = 0; nump = false; numerics = set t.numerics 0 0; state = esc })
      else elim (putch_unesc ch t) [ none ↦ fault | some s ↦ done s ]
  | esc ↦
      if ch == b'['
      then done (record t { state = esc_lbrak })
      else if is_digit ch
      then put_digit ch t
      else if ch == b';'
      then put_semicolon t
      else done (record t { state = outside })
  | esc_lbrak ↦
      if is_digit ch
      then put_digit ch t
      else if ch == b';'
      then put_semicolon t
      else end_sequence ch t
]

-- The loops of `clear` over the rows and columns.
unfoldable pub clear_row : ℕ → ℕ → ℕ → Term → Term
clear_row zero r c t = t
clear_row (suc n) r c t = clear_row n r (c + 1) (call (putch t.rendition space r c) t)

unfoldable pub clear_rows : ℕ → ℕ → Term → Term
unfolding clear_row
clear_rows zero r t = t
clear_rows (suc n) r t = clear_rows n (r + 1) (clear_row t.col_n r 0 t)
