-- ===== src/Libc/Printf/Values.antt =====
-- The numbers and texts that are printed, by what their digits stand for.
use petix.Prelude.{
  ℕ, zero, suc, ◌+◌, ◌-◌, ◌*◌, ◌/◌, ◌%◌, ◌^◌, ◌≤◌, ◌<◌, ◌≡◌, ◌≢◌, refl, ◌∙◌, ap, ◌⊎◌, inl, inr,
  List, [], ◌∷◌, ltb, length, if◌then◌else◌, arith, Bool-cases,
}
use petix.Libc.Str.Compare.{cstr}
use petix.Libc.Printf.{putuint, putint, puthex, hex_digit, hex_digits, puts, signed}
use petix.Libc.Printf.Digits.{AreDigits, decimal_value, decimal_value-putuint, putuint_lem}

-- Decimal digits for `w`, with no zero before them.
pub record IsDecimal (w : ℕ) (out : List ℕ) : Type 0 where
  pub digits : AreDigits out
  pub value : decimal_value 0 out ≡ w
  pub front : (s : List ℕ) → out ≡ b'0' ∷ s → w ≡ 0
  pub some_digit : out ≢ []

-- The same for a word of 32 bits as a signed number, by two's complement.
abbrev pub IsSigned : ℕ → List ℕ → Type 0
IsSigned w out =
    ((w < 2 ^ 31) × IsDecimal w out)
    ⊎ ((2 ^ 31 ≤ w) × (s : List ℕ) × (out ≡ b'-' ∷ s) × IsDecimal (2 ^ 32 - w) s)

abbrev pub AreHexDigits : List ℕ → Type 0
AreHexDigits [] = Unit
AreHexDigits (c ∷ s) = (((b'0' ≤ c) × (c ≤ b'9')) ⊎ ((b'A' ≤ c) × (c ≤ b'F'))) × AreHexDigits s

abbrev pub hex_value : ℕ → List ℕ → ℕ
hex_value n [] = n
hex_value n (c ∷ s) = hex_value (n * 16 + (if ltb c b'A' then c - b'0' else c + 10 - b'A')) s

-- `0x` and eight hexadecimal digits for `w`, with capital letters.
pub record IsHex (w : ℕ) (out : List ℕ) : Type 0 where
  pub digits : List ℕ
  pub prefix : out ≡ b'0' ∷ b'x' ∷ digits
  pub eight : length digits ≡ 8
  pub hex : AreHexDigits digits
  pub value : hex_value 0 digits ≡ w

pub putuint-IsDecimal : (w : ℕ) → w < 2 ^ 32 → IsDecimal w (putuint w)
putuint-IsDecimal w h =
    let (digits, back, front, filled) = putuint_lem w h in
    record {
      digits = digits;
      value = decimal_value-putuint w h;
      front = front;
      some_digit = filled;
    }

pub putint-IsSigned : (w : ℕ) → w < 2 ^ 32 → IsSigned w (putint (signed w))
unfolding putint
putint-IsSigned w h = elim (Bool-cases (ltb w (2 ^ 31))) [
  | inl e ↦ rw e (inl (ground (arith, e), putuint-IsDecimal w h))
  | inr e ↦
      let same : 2 ^ 32 - 1 - w + 1 ≡ 2 ^ 32 - w = omega (arith, h) in
      rw (e, same)
        (inr (
          ground (arith, e),
          putuint (2 ^ 32 - w),
          refl,
          putuint-IsDecimal (2 ^ 32 - w) (ground (arith, e)),
        ))
]

-- The digits of a number, each by its value.
abbrev digit_values : ℕ → ℕ → ℕ → ℕ
digit_values v zero n = v
digit_values v (suc i) n = digit_values (v * 16 + n / 2 ^ (i * 4) % 16) i n

hex_digit-value :
    (d : ℕ)
    → d < 16
    → (if ltb (hex_digit d) b'A' then hex_digit d - b'0' else hex_digit d + 10 - b'A') ≡ d
hex_digit-value d h = ground (arith, h)

hex_digit-hex :
    (d : ℕ)
    → d < 16
    → ((b'0' ≤ hex_digit d) × (hex_digit d ≤ b'9')) ⊎ ((b'A' ≤ hex_digit d) × (hex_digit d ≤ b'F'))
hex_digit-hex d h = elim (Bool-cases (ltb d 10)) [
  | inl e ↦ inl (ground (arith, e), ground (arith, e))
  | inr e ↦ inr (ground (arith, e, h), ground (arith, e, h))
]

hex_digits-values : (i v n : ℕ) → hex_value v (hex_digits i n) ≡ digit_values v i n
unfolding hex_digits
hex_digits-values zero v n = refl
hex_digits-values (suc i) v n =
    ap (λ d. hex_value (v * 16 + d) (hex_digits i n))
      (hex_digit-value (n / 2 ^ (i * 4) % 16) (omega arith))
    ∙ hex_digits-values i (v * 16 + n / 2 ^ (i * 4) % 16) n

hex_digits-hex : (i n : ℕ) → AreHexDigits (hex_digits i n)
unfolding hex_digits
hex_digits-hex zero n = tt
hex_digits-hex (suc i) n = (hex_digit-hex (n / 2 ^ (i * 4) % 16) (omega arith), hex_digits-hex i n)

length-hex_digits : (i n : ℕ) → length (hex_digits i n) ≡ i
unfolding hex_digits
length-hex_digits zero n = refl
length-hex_digits (suc i) n = ap suc (length-hex_digits i n)

pub puthex-IsHex : (w : ℕ) → w < 2 ^ 32 → IsHex w (puthex w)
unfolding puthex
puthex-IsHex w h = record {
  digits = hex_digits 8 w;
  prefix = refl;
  eight = length-hex_digits 8 w;
  hex = hex_digits-hex 8 w;
  value = hex_digits-values 8 0 w ∙ omega (arith, h);
}

pub puts-cstr : (s : List ℕ) → puts s ≡ cstr s
unfolding puts
puts-cstr [] = refl
puts-cstr (c ∷ s) = rw (puts-cstr s) refl
