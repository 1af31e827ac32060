-- ===== src/Libc/Str/Copy.antt =====
-- What the copies of libc/string leave in their destination.
use petix.Prelude.{
  ℕ, zero, suc, ◌+◌, ◌-◌, ◌≤◌, ◌<◌, ◌≡◌, refl, ◌∙◌, ap, List, [], ◌∷◌, ◌++◌, arith, length,
  length-drop, take, drop, replicate,
}
use petix.Libc.Str.{strnlen, memcpy, memset, strncpy, strncat}
use petix.Libc.Str.Compare.{cstr, strnlen-cstr}

-- `memcpy` replaces the first `n` bytes, where both objects hold as many.
pub memcpy_lem :
    (n : ℕ) (dest src : List ℕ)
    → n ≤ length dest
    → n ≤ length src
    → memcpy dest src n ≡ take n src ++ drop n dest
unfolding memcpy
memcpy_lem zero dest src h k = refl
memcpy_lem (suc n) [] src h k = absurd (omega arith)
memcpy_lem (suc n) (d ∷ dest) [] h k = absurd (omega arith)
memcpy_lem (suc n) (d ∷ dest) (c ∷ src) h k =
    ap (λ l. c ∷ l) (memcpy_lem n dest src (omega arith) (omega arith))

memset_lem :
    (n : ℕ) (dest : List ℕ) (c : ℕ)
    → n ≤ length dest
    → memset dest c n ≡ replicate n c ++ drop n dest
unfolding memset
memset_lem zero dest c h = refl
memset_lem (suc n) [] c h = absurd (omega arith)
memset_lem (suc n) (d ∷ dest) c h = ap (λ l. c ∷ l) (memset_lem n dest c (omega arith))

-- `strncpy` writes exactly `n` bytes, where the destination has them: the text cut at `n`, and then
-- zeros. So the copy has a terminator exactly when the text is shorter than `n`.
pub strncpy_lem :
    (n : ℕ) (dest src : List ℕ)
    → n ≤ length dest
    → strncpy dest src n ≡ take n (cstr src) ++ (replicate (n - length (cstr src)) 0 ++ drop n dest)
unfolding strncpy
strncpy_lem zero dest src h = ap (λ k. replicate k 0 ++ dest) {x = 0} (omega arith)
strncpy_lem (suc n) [] src h = absurd (omega arith)
strncpy_lem (suc n) (d ∷ dest) [] h =
    memset_lem (suc n) (d ∷ dest) 0 h
    ∙ ap (λ k. replicate k 0 ++ drop n dest) {x = suc n} (omega arith)
strncpy_lem (suc n) (d ∷ dest) (c ∷ src) h =
    ground (arith, memset_lem (suc n) (d ∷ dest) 0 h, strncpy_lem n dest src (omega arith))

pub cstr-append-zero : (xs ys : List ℕ) → cstr xs ≡ xs → cstr (xs ++ 0 ∷ ys) ≡ xs
cstr-append-zero [] ys h = refl
cstr-append-zero (x ∷ xs) ys h = ground (arith, cstr-append-zero xs ys)

pub cstr-append : (xs ys : List ℕ) → cstr xs ≡ xs → cstr (xs ++ ys) ≡ xs ++ cstr ys
cstr-append [] ys h = refl
cstr-append (x ∷ xs) ys h = ground (arith, cstr-append xs ys)

pub cstr_idem : (s : List ℕ) → cstr (cstr s) ≡ cstr s
cstr_idem [] = refl
cstr_idem (c ∷ s) = ground (arith, cstr_idem s)

pub take-all : (n : ℕ) (xs : List ℕ) → length xs ≤ n → take n xs ≡ xs
take-all zero [] h = refl
take-all zero (x ∷ xs) h = absurd (omega arith)
take-all (suc n) [] h = refl
take-all (suc n) (x ∷ xs) h = ap (λ l. x ∷ l) (take-all n xs (omega arith))

take-cstr : (s : List ℕ) → take (length (cstr s)) s ≡ cstr s
take-cstr [] = refl
take-cstr (c ∷ s) = ground (arith, take-cstr s)

-- A copy by `strncpy` of a text shorter than `n` holds that text.
pub strncpy-cstr :
    (n : ℕ) (dest src : List ℕ)
    → n ≤ length dest
    → length (cstr src) < n
    → cstr (strncpy dest src n) ≡ cstr src
strncpy-cstr n dest src h k =
    let text = cstr src in
    let e : n - length text ≡ suc (n - length text - 1) = omega arith in
    rw (strncpy_lem n dest src h, take-all n text (omega arith), e)
      (cstr-append-zero text (replicate (n - length text - 1) 0 ++ drop n dest) (cstr_idem src))

-- `strncat` on texts that fit together in fewer than `n` bytes appends the second to the first.
pub strncat-cstr :
    (n : ℕ) (dest src : List ℕ)
    → n ≤ length dest
    → length (cstr dest) + length (cstr src) < n
    → cstr (strncat dest src n) ≡ cstr dest ++ cstr src
unfolding strncat
strncat-cstr n dest src h k =
    let off : strnlen dest n ≡ length (cstr dest) = omega (arith, strnlen-cstr dest n) in
    rw (off, take-cstr dest, cstr-append (cstr dest) _ (cstr_idem dest))
      (ap (λ l. cstr dest ++ l)
        (strncpy-cstr (n - length (cstr dest)) (drop (length (cstr dest)) dest) src
          (omega (arith, length-drop (length (cstr dest)) dest)) (omega arith)))
