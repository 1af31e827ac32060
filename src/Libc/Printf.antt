-- ===== src/Libc/Printf.antt =====
-- libc/bits/baseprintf.c: formatted output, as the list of bytes that `putfn` is called with, and
-- `atoi` of libc/stdlib/atoi.c. `int` and `long` have 32 bits.
pub mod Digits
pub mod Values
pub mod Numbers
pub mod Format
mod Tests
use petix.Prelude.{
  ℕ, zero, suc, ◌+◌, ◌-◌, ◌*◌, ◌/◌, ◌%◌, ◌^◌, Bool, true, false, ◌&&◌, ◌||◌, List, [], ◌∷◌, ◌++◌,
  Option, none, some, ltb, ◌==◌, if◌then◌else◌, ℤ, pos, negsuc,
}

-- Ten digits are enough for 32 bits.
abbrev pub max_digits : ℕ
max_digits = 10

-- `putuintnz` prints the digits of a number, the last one last. The first argument bounds them.
unfoldable pub putuintnz : ℕ → ℕ → List ℕ
putuintnz zero num = []
putuintnz (suc digits) num =
    let front = putuintnz digits (num / 10) in
    if num == 0 then [] else front ++ (num % 10 + b'0') ∷ []

unfoldable pub putuint : ℕ → List ℕ
putuint num = if num == 0 then b'0' ∷ [] else putuintnz max_digits num

-- `-num` is converted to `unsigned long`, where that of the least number is `2 ^ 31`.
unfoldable pub putint : ℤ → List ℕ
putint (pos num) = putuint num
putint (negsuc num) = b'-' ∷ putuint (num + 1)

-- The loop of `puthex` from digit `i - 1` down.
abbrev pub hex_digit : ℕ → ℕ
hex_digit dig = if ltb dig 10 then dig + b'0' else dig - 10 + b'A'

unfoldable pub hex_digits : ℕ → ℕ → List ℕ
hex_digits zero n = []
hex_digits (suc i) n = hex_digit (n / 2 ^ (i * 4) % 16) ∷ hex_digits i n

unfoldable pub puthex : ℕ → List ℕ
puthex n = b'0' ∷ b'x' ∷ hex_digits 8 n

-- `puts` prints a string up to its terminator.
unfoldable pub puts : List ℕ → List ℕ
puts [] = []
puts (c ∷ s) = let rest = puts s in if c == 0 then [] else c ∷ rest

-- An argument after the format: a word of 32 bits, one of 64, or a string.
pub data Arg : Type 0 where
  word : ℕ → Arg
  double_word : ℕ → Arg
  text : List ℕ → Arg

-- The number that a word stands for as an `int`.
abbrev pub signed : ℕ → ℤ
signed w = if ltb w (2 ^ 31) then pos w else negsuc (2 ^ 32 - 1 - w)

-- What is left to read of a directive: nothing, or what follows `%`, `%l` and `%ll`.
pub data Mode : Type 0 where
  plain : Mode
  percent : Mode
  long : Mode
  long_long : Mode

-- `va_arg` for a word, a double word, of which `putint` and its like take the lower half, and a
-- string. `none` is an argument that is not there or is of another type.
abbrev pub Printed : Type 0
Printed = Option (List ℕ × List Arg)

unfoldable pub with_word : (ℕ → List ℕ) → List Arg → Printed
with_word put (word w ∷ args) = some (put (w % 2 ^ 32), args)
with_word put _ = none

unfoldable pub with_double_word : (ℕ → List ℕ) → List Arg → Printed
with_double_word put (double_word w ∷ args) = some (put (w % 2 ^ 32), args)
with_double_word put _ = none

unfoldable pub with_text : List Arg → Printed
with_text (text s ∷ args) = some (puts s, args)
with_text _ = none

-- The switch on a number's conversion, which the three modes share.
unfoldable pub convert_number : ((ℕ → List ℕ) → List Arg → Printed) → ℕ → List Arg → Printed
convert_number with_arg c args =
    if c == b'd' || c == b'i'
    then with_arg (λ w. putint (signed w)) args
    else if c == b'u'
    then with_arg putuint args
    else if c == b'x' || c == b'X'
    then with_arg puthex args
    else some ([], args)

-- The switch on the character after `%`. Others than these print nothing.
unfoldable pub convert : ℕ → List Arg → Printed
convert c args =
    if c == b'%'
    then some (b'%' ∷ [], args)
    else if c == b's'
    then with_text args
    else if c == b'c'
    then with_word (λ w. w % 2 ^ 8 ∷ []) args
    else if c == b'p'
    then with_word puthex args
    else convert_number with_word c args

abbrev pub and_then : Printed → (List Arg → Option (List ℕ)) → Option (List ℕ)
and_then none k = none
and_then (some (out, args)) k = elim (k args) [ none ↦ none | some rest ↦ some (out ++ rest) ]

-- `base_vprintf`, whose loop reads one byte of the format after another. `none` is a wrong argument
-- or a format that ends in a directive, behind whose terminator the loop goes on.
unfoldable pub vprintf : Mode → List ℕ → List Arg → Option (List ℕ)
vprintf plain [] args = some []
vprintf plain (c ∷ format) args =
    let directive = vprintf percent format args in
    let rest = vprintf plain format args in
    if c == 0
    then some []
    else if c == b'%'
    then directive
    else and_then (some (c ∷ [], args)) (λ _. rest)
vprintf percent [] args = none
vprintf percent (c ∷ format) args =
    let modified = vprintf long format args in
    if c == 0
    then none
    else if c == b'l'
    then modified
    else and_then (convert c args) (vprintf plain format)
vprintf long [] args = none
vprintf long (c ∷ format) args =
    let modified = vprintf long_long format args in
    if c == 0
    then none
    else if c == b'l'
    then modified
    else and_then (convert_number with_word c args) (vprintf plain format)
vprintf long_long [] args = none
vprintf long_long (c ∷ format) args =
    if c == 0
    then none
    else and_then (convert_number with_double_word c args) (vprintf plain format)

-- atoi.c, in words: `atou` from the digits before. The overflow of an `int`, which C leaves open,
-- wraps around.
unfoldable pub atou_from : ℕ → List ℕ → ℕ
atou_from n [] = n
atou_from n (c ∷ s) =
    let rest = atou_from ((n * 10 + c + 2 ^ 32 - b'0') % 2 ^ 32) s in if c == 0 then n else rest

unfoldable pub atoi : List ℕ → ℕ
atoi [] = 0
atoi (c ∷ s) = if c == b'-' then (2 ^ 32 - atou_from 0 s) % 2 ^ 32 else atou_from 0 (c ∷ s)
