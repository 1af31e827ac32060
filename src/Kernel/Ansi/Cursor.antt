-- ===== src/Kernel/Ansi/Cursor.antt =====
-- The cursor of the terminal, and where it lets the backend draw.
use petix.Prelude.{
  ℕ, ◌+◌, ◌-◌, ◌*◌, ◌<◌, ◌≡◌, Bool, true, false, not, ◌&&◌, List, [], ◌∷◌, ◌==◌, arith, Option,
  none, some, length, length-set, get_or, leb, ◌||◌,
}
use petix.Kernel.Ansi.{
  Call, putch, curto, scroll_up, outside, esc, esc_lbrak, Term, tab, backspace_char, settle,
  backspace, draw, putch_unesc, Result, done, report, fault, max_numerics, put_digit, put_semicolon,
  end_sequence, ansi_putch,
}

-- A call that draws or moves inside of the screen.
abbrev pub IsInside : ℕ → ℕ → Call → Type 0
IsInside row_n col_n (putch r ch row col) = (row < row_n) × (col < col_n)
IsInside row_n col_n (curto row col) = (row < row_n) × (col < col_n)
IsInside row_n col_n scroll_up = Unit

abbrev pub AreInside : ℕ → ℕ → List Call → Type 0
AreInside row_n col_n [] = Unit
AreInside row_n col_n (c ∷ calls) = IsInside row_n col_n c × AreInside row_n col_n calls

-- The cursor is on the screen, so was all that was drawn, and the last number is one of the
-- sixteen.
pub record IsTerm (t : Term) : Type 0 where
  pub row_in : t.row < t.row_n
  pub col_in : t.col < t.col_n
  pub drawn : AreInside t.row_n t.col_n t.calls
  pub sixteen : length t.numerics ≡ max_numerics
  pub noff_in : t.noff < max_numerics

-- What leaves the screen: a backspace at the first place, and a tab near the end of a row.
unfoldable pub leaves : ℕ → Term → Bool
leaves ch t =
    (ch == backspace_char && (t.row == 0 && t.col == 0)) || (ch == tab && leb t.col_n (t.col + 8))

abbrev pub IsDrawn : Option Term → Type 0
IsDrawn none = ⊥
IsDrawn (some s) = IsTerm s

-- A character outside of a sequence, unless it leaves the screen, keeps the cursor on it, and all
-- that it draws is inside.
pub putch_unesc-IsDrawn :
    (ch : ℕ) (t : Term) → IsTerm t → leaves ch t ≡ false → IsDrawn (putch_unesc ch t)
unfolding putch_unesc backspace draw settle leaves
putch_unesc-IsDrawn ch t v h = ground (arith, v.row_in, v.col_in, v.drawn, v.sixteen, v.noff_in)

-- What the sequence being read leaves no room for: a seventeenth number.
unfoldable pub overflows : ℕ → Term → Bool
overflows ch t = ch == b';' && leb max_numerics (t.noff + 1)

-- A character that the terminal has room for.
unfoldable pub fits : ℕ → Term → Bool
fits ch t = elim t.state [
  | outside ↦ not (leaves ch t)
  | esc ↦ not (overflows ch t)
  | esc_lbrak ↦ not (overflows ch t)
]

-- The result is a terminal in order, and an answer is the place of its cursor.
abbrev pub IsKept : Result → Type 0
IsKept (done s) = IsTerm s
IsKept (report r c s) = IsTerm s × (r ≡ s.row) × (c ≡ s.col)
IsKept fault = ⊥

put_digit-IsKept : (ch : ℕ) (t : Term) → IsTerm t → IsKept (put_digit ch t)
unfolding put_digit
put_digit-IsKept ch t v = ground (
  arith,
  v.row_in,
  v.col_in,
  v.drawn,
  v.sixteen,
  v.noff_in,
  length-set t.numerics t.noff (get_or t.numerics t.noff 0 * 10 + ch - b'0'),
)

put_semicolon-IsKept :
    (ch : ℕ) (t : Term) → IsTerm t → t.noff + 1 < max_numerics → IsKept (put_semicolon t)
unfolding put_semicolon
put_semicolon-IsKept ch t v h =
    ground (
      arith,
      v.row_in,
      v.col_in,
      v.drawn,
      v.sixteen,
      v.noff_in,
      length-set t.numerics (t.noff + 1) 0,
    )

end_sequence-IsKept : (ch : ℕ) (t : Term) → IsTerm t → IsKept (end_sequence ch t)
unfolding end_sequence
end_sequence-IsKept ch t v = ground (arith, v.row_in, v.col_in, v.drawn, v.sixteen, v.noff_in)

-- In every state of the terminal, a character that it has room for leaves the cursor on the
-- screen, draws only there, and keeps the numbers of the sequence inside their array; the answer
-- to a request for the position is the place of the cursor.
pub ansi_putch-IsKept : (ch : ℕ) (t : Term) → IsTerm t → fits ch t ≡ true → IsKept (ansi_putch ch t)
unfolding ansi_putch fits overflows
ansi_putch-IsKept ch t v h = ground (
  arith,
  v.row_in,
  v.col_in,
  v.drawn,
  v.sixteen,
  v.noff_in,
  length-set t.numerics 0 0,
  putch_unesc-IsDrawn ch t v,
  put_digit-IsKept ch t v,
  put_semicolon-IsKept ch t v,
  end_sequence-IsKept ch t v,
)
