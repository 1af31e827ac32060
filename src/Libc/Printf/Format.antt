-- ===== src/Libc/Printf/Format.antt =====
-- A format against the text that it stands for.
use petix.Prelude.{
  ℕ, ◌%◌, ◌^◌, ◌<◌, ◌≡◌, ◌≢◌, refl, ◌∙◌, ap, List, [], ◌∷◌, ◌++◌, ne→==, some, arith, append_assoc,
}
use petix.Libc.Str.Compare.{cstr}
use petix.Libc.Printf.{
  putuint, putint, puthex, puts, Arg, word, double_word, text, signed, plain, with_word,
  with_double_word, with_text, convert_number, convert, vprintf,
}
use petix.Libc.Printf.Values.{
  IsDecimal, IsSigned, IsHex, putuint-IsDecimal, putint-IsSigned, puthex-IsHex, puts-cstr,
}

-- The size of a number's argument, by `l` and `ll` before its conversion, and the conversions `d`,
-- `i`, `u`, `x` and `X`.
pub data Size : Type 0 where
  short : Size
  long : Size
  long_long : Size

pub data Conversion : Type 0 where
  decimal : Conversion
  integer : Conversion
  unsigned : Conversion
  hexadecimal : Conversion
  capital : Conversion

-- What a format is made of: bytes that stand for themselves, and directives with their argument.
pub data Piece : Type 0 where
  literal : ℕ → Piece
  percent_sign : Piece
  number : Size → Conversion → ℕ → Piece
  pointer : ℕ → Piece
  string : List ℕ → Piece
  character : ℕ → Piece

abbrev pub letter : Conversion → ℕ
letter decimal = b'd'
letter integer = b'i'
letter unsigned = b'u'
letter hexadecimal = b'x'
letter capital = b'X'

abbrev pub modified : Size → ℕ → List ℕ
modified short c = c ∷ []
modified Size.long c = b'l' ∷ c ∷ []
modified Size.long_long c = b'l' ∷ b'l' ∷ c ∷ []

abbrev pub format_of : Piece → List ℕ
format_of (literal c) = c ∷ []
format_of percent_sign = b'%' ∷ b'%' ∷ []
format_of (number size c w) = b'%' ∷ modified size (letter c)
format_of (pointer w) = b'%' ∷ b'p' ∷ []
format_of (string s) = b'%' ∷ b's' ∷ []
format_of (character c) = b'%' ∷ b'c' ∷ []

abbrev pub sized : Size → ℕ → Arg
sized short w = word w
sized Size.long w = word w
sized Size.long_long w = double_word w

abbrev pub args_of : Piece → List Arg
args_of (literal c) = []
args_of percent_sign = []
args_of (number size c w) = sized size w ∷ []
args_of (pointer w) = word w ∷ []
args_of (string s) = text s ∷ []
args_of (character c) = word c ∷ []

abbrev pub formats : List Piece → List ℕ
formats [] = []
formats (p ∷ ps) = format_of p ++ formats ps

abbrev pub all_args : List Piece → List Arg
all_args [] = []
all_args (p ∷ ps) = args_of p ++ all_args ps

-- A byte that stands for itself is no `%` and no terminator.
abbrev pub IsPlain : Piece → Type 0
IsPlain (literal c) = (c ≢ 0) × (c ≢ b'%')
IsPlain _ = Unit

abbrev pub ArePlain : List Piece → Type 0
ArePlain [] = Unit
ArePlain (p ∷ ps) = IsPlain p × ArePlain ps

abbrev pub Converted : Conversion → ℕ → List ℕ → Type 0
Converted decimal w out = IsSigned w out
Converted integer w out = IsSigned w out
Converted unsigned w out = IsDecimal w out
Converted hexadecimal w out = IsHex w out
Converted capital w out = IsHex w out

-- What is printed for a piece: of a number the lower 32 bits, of a character the lower 8, and of a
-- string its text.
abbrev pub Prints : Piece → List ℕ → Type 0
Prints (literal c) out = out ≡ c ∷ []
Prints percent_sign out = out ≡ b'%' ∷ []
Prints (number size c w) out = Converted c (w % 2 ^ 32) out
Prints (pointer w) out = IsHex (w % 2 ^ 32) out
Prints (string s) out = out ≡ cstr s
Prints (character c) out = out ≡ c % 2 ^ 8 ∷ []

abbrev pub PrintsAll : List Piece → List ℕ → Type 0
PrintsAll [] out = out ≡ []
PrintsAll (p ∷ ps) out =
    (front : List ℕ) × (back : List ℕ) × (out ≡ front ++ back) × Prints p front × PrintsAll ps back

-- What the output for a piece is, and that `vprintf` puts it before that for what follows.
abbrev Step : Piece → Type 0
Step p =
    (out : List ℕ) × Prints p out
    × ((format : List ℕ) (args : List Arg) (rest : List ℕ)
        → vprintf plain format args ≡ some rest
        → vprintf plain (format_of p ++ format) (args_of p ++ args) ≡ some (out ++ rest))

low : (w : ℕ) → w % 2 ^ 32 < 2 ^ 32
low w = omega arith

number-Step : (size : Size) (c : Conversion) (w : ℕ) → Step (number size c w)
unfolding vprintf convert convert_number with_word with_double_word
number-Step short decimal w = (
  putint (signed (w % 2 ^ 32)),
  putint-IsSigned (w % 2 ^ 32) (low w),
  λ format args rest e. rw e refl,
)
number-Step short integer w = (
  putint (signed (w % 2 ^ 32)),
  putint-IsSigned (w % 2 ^ 32) (low w),
  λ format args rest e. rw e refl,
)
number-Step short unsigned w =
    (putuint (w % 2 ^ 32), putuint-IsDecimal (w % 2 ^ 32) (low w), λ format args rest e. rw e refl)
number-Step short hexadecimal w =
    (puthex (w % 2 ^ 32), puthex-IsHex (w % 2 ^ 32) (low w), λ format args rest e. rw e refl)
number-Step short capital w =
    (puthex (w % 2 ^ 32), puthex-IsHex (w % 2 ^ 32) (low w), λ format args rest e. rw e refl)
number-Step Size.long decimal w = (
  putint (signed (w % 2 ^ 32)),
  putint-IsSigned (w % 2 ^ 32) (low w),
  λ format args rest e. rw e refl,
)
number-Step Size.long integer w = (
  putint (signed (w % 2 ^ 32)),
  putint-IsSigned (w % 2 ^ 32) (low w),
  λ format args rest e. rw e refl,
)
number-Step Size.long unsigned w =
    (putuint (w % 2 ^ 32), putuint-IsDecimal (w % 2 ^ 32) (low w), λ format args rest e. rw e refl)
number-Step Size.long hexadecimal w =
    (puthex (w % 2 ^ 32), puthex-IsHex (w % 2 ^ 32) (low w), λ format args rest e. rw e refl)
number-Step Size.long capital w =
    (puthex (w % 2 ^ 32), puthex-IsHex (w % 2 ^ 32) (low w), λ format args rest e. rw e refl)
number-Step Size.long_long decimal w = (
  putint (signed (w % 2 ^ 32)),
  putint-IsSigned (w % 2 ^ 32) (low w),
  λ format args rest e. rw e refl,
)
number-Step Size.long_long integer w = (
  putint (signed (w % 2 ^ 32)),
  putint-IsSigned (w % 2 ^ 32) (low w),
  λ format args rest e. rw e refl,
)
number-Step Size.long_long unsigned w =
    (putuint (w % 2 ^ 32), putuint-IsDecimal (w % 2 ^ 32) (low w), λ format args rest e. rw e refl)
number-Step Size.long_long hexadecimal w =
    (puthex (w % 2 ^ 32), puthex-IsHex (w % 2 ^ 32) (low w), λ format args rest e. rw e refl)
number-Step Size.long_long capital w =
    (puthex (w % 2 ^ 32), puthex-IsHex (w % 2 ^ 32) (low w), λ format args rest e. rw e refl)

piece-Step : (p : Piece) → IsPlain p → Step p
unfolding vprintf convert with_word with_text
piece-Step (literal c) h =
    (c ∷ [], refl, λ format args rest e. rw (ne→== c 0 h.0, ne→== c b'%' h.1, e) refl)
piece-Step percent_sign h = (b'%' ∷ [], refl, λ format args rest e. rw e refl)
piece-Step (number size c w) h = number-Step size c w
piece-Step (pointer w) h =
    (puthex (w % 2 ^ 32), puthex-IsHex (w % 2 ^ 32) (low w), λ format args rest e. rw e refl)
piece-Step (string s) h = (puts s, puts-cstr s, λ format args rest e. rw e refl)
piece-Step (character c) h =
    (c % 2 ^ 32 % 2 ^ 8 ∷ [], ap (λ b. b ∷ []) (omega arith), λ format args rest e. rw e refl)

-- `base_vprintf` on a format of plain bytes and of any of its directives, with their arguments, prints
-- one piece after another: for `%d` and `%i` the decimal digits of the signed number, for `%u` those
-- of the unsigned one, without zeros before them; for `%x`, `%X` and `%p` always `0x` and eight
-- digits with capital letters; of a `long long` the lower half alone; for `%s` the text, for `%c` the
-- byte.
pub vprintf-formats :
    (ps : List Piece) (more : List Arg)
    → ArePlain ps
    → (out : List ℕ) × (vprintf plain (formats ps) (all_args ps ++ more) ≡ some out)
      × PrintsAll ps out
unfolding vprintf
vprintf-formats [] more h = ([], refl, refl)
vprintf-formats (p ∷ ps) more h =
    let (back, e, prints) = vprintf-formats ps more h.1 in
    let (front, printed, step) = piece-Step p h.0 in
    (
      front ++ back,
      ap (λ args. vprintf plain (format_of p ++ formats ps) args)
            (append_assoc (args_of p) (all_args ps) more)
          ∙ step (formats ps) (all_args ps ++ more) back e,
      (front, back, refl, printed, prints),
    )
