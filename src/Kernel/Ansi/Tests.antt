-- ===== src/Kernel/Ansi/Tests.antt =====
-- A screen of 25 rows and 80 columns.
use petix.Prelude.{◌≡◌, refl, [], ◌∷◌, false, replicate, arith}
use petix.Kernel.Ansi.{
  Term, outside, plain, ansi_putch, done, putch_unesc, settle, newline, curto, scroll_up,
}
use petix.Kernel.Ansi.Cursor.{IsTerm, IsKept, leaves, fits, ansi_putch-IsKept}

abbrev last_row : Term
last_row = record {
  row = 24;
  col = 79;
  numerics = replicate 16 0;
  noff = 0;
  nump = false;
  state = outside;
  rendition = plain;
  row_n = 25;
  col_n = 80;
  calls = [];
}

last_row-IsTerm : IsTerm last_row
last_row-IsTerm = record {
  row_in = omega arith;
  col_in = omega arith;
  drawn = tt;
  sixteen = refl;
  noff_in = omega arith;
}

ansi_putch-newline :
    ansi_putch newline last_row
    ≡ done (record last_row { col = 0; calls = curto 24 0 ∷ scroll_up ∷ [] })
unfolding ansi_putch putch_unesc settle
ansi_putch-newline = refl

ansi_putch-IsKept_example : IsKept (ansi_putch b'A' last_row)
unfolding fits leaves
ansi_putch-IsKept_example = ansi_putch-IsKept b'A' last_row last_row-IsTerm refl
