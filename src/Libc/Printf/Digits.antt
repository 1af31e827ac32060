-- ===== src/Libc/Printf/Digits.antt =====
-- The decimal digits that are printed, read back by `atoi`.
use petix.Prelude.{
  ℕ, zero, suc, ◌+◌, ◌-◌, ◌*◌, ◌/◌, ◌%◌, ◌^◌, ◌≤◌, ◌<◌, ◌≡◌, ◌≢◌, refl, false, List, [], ◌∷◌, ◌++◌,
  ◌==◌, arith, Bool-cases, inl, inr, ==→eq, ==→ne,
}
use petix.Libc.Printf.{max_digits, putuintnz, putuint, atou_from}

abbrev pub AreDigits : List ℕ → Type 0
AreDigits [] = Unit
AreDigits (c ∷ s) = (b'0' ≤ c) × (c ≤ b'9') × AreDigits s

AreDigits-append : (s t : List ℕ) → AreDigits s → AreDigits t → AreDigits (s ++ t)
AreDigits-append [] t h k = k
AreDigits-append (c ∷ s) t h k = (h.0, h.1, AreDigits-append s t h.2 k)

putuintnz-AreDigits : (k n : ℕ) → AreDigits (putuintnz k n)
unfolding putuintnz
putuintnz-AreDigits zero n = tt
putuintnz-AreDigits (suc k) n = elim (Bool-cases (n == 0)) [
  | inl e ↦ rw e tt
  | inr e ↦ rw e (
      AreDigits-append (putuintnz k (n / 10)) ((n % 10 + b'0') ∷ [])
        (putuintnz-AreDigits k (n / 10)) (omega arith, omega arith, tt))
]

atou_from-append :
    (n : ℕ) (s t : List ℕ) → AreDigits s → atou_from n (s ++ t) ≡ atou_from (atou_from n s) t
unfolding atou_from
atou_from-append n [] t h = refl
atou_from-append n (c ∷ s) t h =
    let ih = atou_from-append ((n * 10 + c + 2 ^ 32 - b'0') % 2 ^ 32) s t h.2 in
    ground (arith, ih, h.0)

ten_times : (k n : ℕ) → n < 10 ^ suc k → n / 10 < 10 ^ k
ten_times k n h = omega arith

atou_from-putuintnz : (k n : ℕ) → n < 10 ^ k → atou_from 0 (putuintnz k n) ≡ n % 2 ^ 32
unfolding putuintnz atou_from
atou_from-putuintnz zero n h = omega arith
atou_from-putuintnz (suc k) n h =
    let ih = atou_from-putuintnz k (n / 10) (ten_times k n h) in
    let joined =
      atou_from-append 0 (putuintnz k (n / 10)) ((n % 10 + b'0') ∷ [])
        (putuintnz-AreDigits k (n / 10)) in
    elim (Bool-cases (n == 0)) [
      | inl e ↦ rw e (omega (arith, ==→eq n 0 e))
      | inr e ↦ rw e (ground (arith, ih, joined))
    ]

nil_not_cons : {c : ℕ} {s : List ℕ} → ◌≢◌ {A = List ℕ} [] (c ∷ s)
nil_not_cons f = cc

append_not_nil : (c : ℕ) (s : List ℕ) → s ++ c ∷ [] ≢ []
append_not_nil c [] f = cc
append_not_nil c (d ∷ s) f = cc

putuintnz_nil : (k n : ℕ) → n < 10 ^ k → putuintnz k n ≡ [] → n ≡ 0
unfolding putuintnz
putuintnz_nil zero n h e = omega arith
putuintnz_nil (suc k) n h e = elim (Bool-cases (n == 0)) [
  | inl z ↦ ==→eq n 0 z
  | inr z ↦ absurd (append_not_nil (n % 10 + b'0') (putuintnz k (n / 10)) (rw z at e))
]

-- The first digit is not a zero.
putuintnz_front : (k n c : ℕ) (s : List ℕ) → n < 10 ^ k → putuintnz k n ≡ c ∷ s → c ≢ b'0'
unfolding putuintnz
putuintnz_front zero n c s h e = absurd (nil_not_cons e)
putuintnz_front (suc k) n c s h e = elim (Bool-cases (n == 0)) [
  | inl z ↦ absurd (nil_not_cons (rw z at e))
  | inr z ↦
      by_front (λ front f. putuintnz_front k (n / 10) c front (ten_times k n h) f)
        (putuintnz k (n / 10)) z refl (rw z at e)
]
  where
    by_front :
        ((front : List ℕ) → putuintnz k (n / 10) ≡ c ∷ front → c ≢ b'0')
        → (front : List ℕ) → (n == 0) ≡ false
        → putuintnz k (n / 10) ≡ front
        → front ++ (n % 10 + b'0') ∷ [] ≡ c ∷ s
        → c ≢ b'0'
    by_front ih [] z f g =
        omega (arith, putuintnz_nil k (n / 10) (ten_times k n h) f, ==→ne n 0 z, head g)
      where
        head : {a b : ℕ} {s t : List ℕ} → a ∷ s ≡ b ∷ t → a ≡ b
        head g = cc
    by_front ih (d ∷ front) z f g = ih front (cc (f, g))

-- The number that digits stand for, behind those of `n`.
abbrev pub decimal_value : ℕ → List ℕ → ℕ
decimal_value n [] = n
decimal_value n (c ∷ s) = decimal_value (n * 10 + (c - b'0')) s

decimal_value-append :
    (n : ℕ) (s t : List ℕ) → decimal_value n (s ++ t) ≡ decimal_value (decimal_value n s) t
decimal_value-append n [] t = refl
decimal_value-append n (c ∷ s) t = decimal_value-append (n * 10 + (c - b'0')) s t

decimal_value-putuintnz : (k n : ℕ) → n < 10 ^ k → decimal_value 0 (putuintnz k n) ≡ n
unfolding putuintnz
decimal_value-putuintnz zero n h = omega arith
decimal_value-putuintnz (suc k) n h =
    let ih = decimal_value-putuintnz k (n / 10) (ten_times k n h) in
    let joined = decimal_value-append 0 (putuintnz k (n / 10)) ((n % 10 + b'0') ∷ []) in
    elim (Bool-cases (n == 0)) [
      | inl e ↦ rw e (omega (arith, ==→eq n 0 e))
      | inr e ↦ rw e (omega (arith, ih, joined))
    ]

pub decimal_value-putuint : (n : ℕ) → n < 2 ^ 32 → decimal_value 0 (putuint n) ≡ n
unfolding putuint
decimal_value-putuint n h = elim (Bool-cases (n == 0)) [
  | inl e ↦ rw e (omega (arith, ==→eq n 0 e))
  | inr e ↦ rw e (decimal_value-putuintnz max_digits n (omega arith))
]

-- `putuint` prints a number below `2 ^ 32` in decimal digits, with no zero before them, and `atoi`'s
-- loop reads it back.
pub putuint_lem :
    (n : ℕ)
    → n < 2 ^ 32
    → AreDigits (putuint n)
      × (atou_from 0 (putuint n) ≡ n)
      × ((s : List ℕ) → putuint n ≡ b'0' ∷ s → n ≡ 0)
      × (putuint n ≢ [])
unfolding putuint atou_from
putuint_lem n h = elim (Bool-cases (n == 0)) [
  | inl e ↦
      rw e ((omega arith, omega arith, tt), omega (arith, ==→eq n 0 e), λ s f. ==→eq n 0 e, λ f. cc)
  | inr e ↦ rw e (
    putuintnz-AreDigits max_digits n,
    omega (arith, atou_from-putuintnz max_digits n (omega arith)),
    λ s f. absurd (putuintnz_front max_digits n b'0' s (omega arith) f refl),
    λ f. ==→ne n 0 e (putuintnz_nil max_digits n (omega arith) f),
  )
]
