-- ===== src/Libc/Str/Compare.antt =====
-- The lengths and comparisons of libc/string, against the text that a string holds.
use petix.Prelude.{
  ℕ, zero, suc, ◌+◌, ◌≤◌, min, ◌≡◌, refl, ◌↔◌, List, [], ◌∷◌, arith, ◌==◌, if◌then◌else◌, pos,
  pos_part, neg_part, length, take,
}
use petix.Libc.Str.{strlen, strnlen, strnlen_loop, strcmp, strncmp, memcmp}

-- The text of a C string: the bytes before the first zero.
abbrev pub cstr : List ℕ → List ℕ
cstr [] = []
cstr (c ∷ s) = if c == 0 then [] else c ∷ cstr s

-- `strlen` is the length of the text.
pub strlen-cstr : (s : List ℕ) → strlen s ≡ length (cstr s)
unfolding strlen
strlen-cstr [] = refl
strlen-cstr (c ∷ s) = ground (arith, strlen-cstr s)

strnlen_loop-cstr : (n : ℕ) (s : List ℕ) → strnlen_loop n s ≡ min n (length (cstr s))
unfolding strnlen_loop
strnlen_loop-cstr zero s = omega arith
strnlen_loop-cstr (suc n) [] = omega arith
strnlen_loop-cstr (suc n) (c ∷ s) = ground (arith, strnlen_loop-cstr n s)

-- `strnlen` is the length of the text, cut at one more than its argument.
pub strnlen-cstr : (s : List ℕ) (n : ℕ) → strnlen s n ≡ min (n + 1) (length (cstr s))
unfolding strnlen
strnlen-cstr s n = omega (arith, strnlen_loop-cstr (suc n) s)

strcmp-eq : (s t : List ℕ) → strcmp s t ≡ pos 0 → cstr s ≡ cstr t
unfolding strcmp
strcmp-eq [] [] h = refl
strcmp-eq [] (b ∷ t) h = ground arith
strcmp-eq (a ∷ s) [] h = ground arith
strcmp-eq (a ∷ s) (b ∷ t) h = ground (arith, strcmp-eq s t)

strcmp_of_eq : (s t : List ℕ) → cstr s ≡ cstr t → strcmp s t ≡ pos 0
unfolding strcmp
strcmp_of_eq [] [] h = refl
strcmp_of_eq [] (b ∷ t) h = ground arith
strcmp_of_eq (a ∷ s) [] h = ground arith
strcmp_of_eq (a ∷ s) (b ∷ t) h = ground (arith, strcmp_of_eq s t)

strncmp-eq : (n : ℕ) (s t : List ℕ) → strncmp s t n ≡ pos 0 → take n (cstr s) ≡ take n (cstr t)
unfolding strncmp
strncmp-eq zero s t h = refl
strncmp-eq (suc n) [] [] h = refl
strncmp-eq (suc n) [] (b ∷ t) h = ground arith
strncmp-eq (suc n) (a ∷ s) [] h = ground arith
strncmp-eq (suc n) (a ∷ s) (b ∷ t) h = ground (arith, strncmp-eq n s t)

strncmp_of_eq : (n : ℕ) (s t : List ℕ) → take n (cstr s) ≡ take n (cstr t) → strncmp s t n ≡ pos 0
unfolding strncmp
strncmp_of_eq zero s t h = refl
strncmp_of_eq (suc n) [] [] h = refl
strncmp_of_eq (suc n) [] (b ∷ t) h = ground arith
strncmp_of_eq (suc n) (a ∷ s) [] h = ground arith
strncmp_of_eq (suc n) (a ∷ s) (b ∷ t) h = ground (arith, strncmp_of_eq n s t)

strcmp_symm : (s t : List ℕ) → pos_part (strcmp s t) ≡ neg_part (strcmp t s)
unfolding strcmp
strcmp_symm [] [] = refl
strcmp_symm [] (b ∷ t) = ground arith
strcmp_symm (a ∷ s) [] = ground arith
strcmp_symm (a ∷ s) (b ∷ t) = ground (arith, strcmp_symm s t)

-- `strcmp` is 0 exactly when the two strings hold the same text, and exchanging its arguments
-- changes the sign.
pub strcmp_lem :
    (s t : List ℕ)
    → ((strcmp s t ≡ pos 0) ↔ (cstr s ≡ cstr t)) × (pos_part (strcmp s t) ≡ neg_part (strcmp t s))
strcmp_lem s t = ((strcmp-eq s t, strcmp_of_eq s t), strcmp_symm s t)

-- `strncmp` is 0 exactly when the first `n` bytes of the two texts are the same.
pub strncmp_lem :
    (n : ℕ) (s t : List ℕ) → (strncmp s t n ≡ pos 0) ↔ (take n (cstr s) ≡ take n (cstr t))
strncmp_lem n s t = (strncmp-eq n s t, strncmp_of_eq n s t)

-- `memcmp` of two objects of at least `n` bytes is 0 exactly when their first `n` bytes are the
-- same, zeros included.
pub memcmp_lem :
    (n : ℕ) (s t : List ℕ)
    → n ≤ length s
    → n ≤ length t
    → (memcmp s t n ≡ pos 0) ↔ (take n s ≡ take n t)
unfolding memcmp
memcmp_lem zero s t h k = (λ _. refl, λ _. refl)
memcmp_lem (suc n) [] t h k = absurd (omega arith)
memcmp_lem (suc n) (a ∷ s) [] h k = absurd (omega arith)
memcmp_lem (suc n) (a ∷ s) (b ∷ t) h k =
    let ih = memcmp_lem n s t (omega arith) (omega arith) in
    (λ e. ground (arith, ih.0), λ e. ground (arith, ih.1))
