-- ===== src/Libc/Printf/Numbers.antt =====
-- Signed and hexadecimal numbers.
use petix.Prelude.{
  ℕ, ◌+◌, ◌-◌, ◌*◌, ◌/◌, ◌%◌, ◌^◌, ◌<◌, ◌≡◌, refl, ◌∙◌, List, [], ◌∷◌, if◌then◌else◌, arith,
  Bool-cases, inl, inr, ltb, length,
}
use petix.Libc.Printf.{putuint, putint, hex_digit, hex_digits, puthex, signed, atou_from, atoi}
use petix.Libc.Printf.Digits.{AreDigits, putuint_lem}

atoi_digits : (s : List ℕ) → AreDigits s → atoi s ≡ atou_from 0 s
unfolding atoi atou_from
atoi_digits [] h = refl
atoi_digits (c ∷ s) h = ground (arith, h.0)

-- `atoi` reads back every `int` that `%d` prints, the negative ones and the least one included.
pub atoi-putint : (w : ℕ) → w < 2 ^ 32 → atoi (putint (signed w)) ≡ w
unfolding putint atoi
atoi-putint w h = elim (Bool-cases (ltb w (2 ^ 31))) [
  | inl e ↦ let u = putuint_lem w h in rw e (atoi_digits (putuint w) u.0 ∙ u.1)
  | inr e ↦ let u = putuint_lem (2 ^ 32 - 1 - w + 1) (ground arith) in rw e (ground (arith, u.1))
]

-- The number that hexadecimal digits stand for, behind a number.
abbrev pub hex_value : ℕ → ℕ
hex_value c = if ltb c b'A' then c - b'0' else c + 10 - b'A'

abbrev pub read_hex : ℕ → List ℕ → ℕ
read_hex n [] = n
read_hex n (c ∷ s) = read_hex (n * 16 + hex_value c) s

hex_value_of_digit : (d : ℕ) → d < 16 → hex_value (hex_digit d) ≡ d
hex_value_of_digit d h = ground arith

-- `puthex` prints `0x` and eight digits, which stand for the number.
pub puthex_lem :
    (n : ℕ)
    → n < 2 ^ 32
    → (digits : List ℕ) × (puthex n ≡ b'0' ∷ b'x' ∷ digits)
      × (length digits ≡ 8)
      × (read_hex 0 digits ≡ n)
unfolding puthex hex_digits
puthex_lem n h = (
  hex_digits 8 n,
  refl,
  refl,
  omega (
    arith,
    digit_at 1,
    digit_at 16,
    digit_at 256,
    digit_at 4096,
    digit_at 65536,
    digit_at 1048576,
    digit_at 16777216,
    digit_at 268435456,
  ),
)
  where
    digit_at : (k : ℕ) → hex_value (hex_digit (n / k % 16)) ≡ n / k % 16
    digit_at k = hex_value_of_digit (n / k % 16) (omega arith)
