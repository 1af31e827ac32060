-- ===== src/Libc/Printf/Tests.antt =====
-- "%d!" printed for -12.
use petix.Prelude.{ℕ, ◌-◌, ◌^◌, ◌≡◌, refl, List, [], ◌∷◌, ◌++◌, some, arith}
use petix.Libc.Printf.{putuintnz, putuint, putint, signed, atoi, plain, vprintf}
use petix.Libc.Printf.Numbers.{atoi-putint}
use petix.Libc.Printf.Format.{
  Piece, literal, number, short, decimal, formats, all_args, PrintsAll, vprintf-formats,
}

abbrev minus_twelve : ℕ
minus_twelve = 2 ^ 32 - 12

putint-minus_twelve : putint (signed minus_twelve) ≡ b'-' ∷ b'1' ∷ b'2' ∷ []
unfolding putint putuint putuintnz
putint-minus_twelve = refl

atoi-putint_example : atoi (putint (signed minus_twelve)) ≡ minus_twelve
atoi-putint_example = atoi-putint minus_twelve (omega arith)

abbrev number_then_mark : List Piece
number_then_mark = number short decimal minus_twelve ∷ literal b'!' ∷ []

vprintf-formats_example :
    (out : List ℕ) × (vprintf plain (formats number_then_mark) (all_args number_then_mark ++ [])
      ≡ some out)
    × PrintsAll number_then_mark out
vprintf-formats_example = vprintf-formats number_then_mark [] (tt, ((omega arith, omega arith), tt))
