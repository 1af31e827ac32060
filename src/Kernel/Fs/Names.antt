-- ===== src/Kernel/Fs/Names.antt =====
-- Names of files, which are compared up to the length that a node holds.
use petix.Prelude.{
  ℕ, suc, ◌≤◌, ◌≡◌, refl, ◌∙◌, sym, true, List, [], ◌∷◌, inl, inr, Bool-cases, take, length,
  replicate, eqb_ℤ, pos, negsuc, arith, ℤ, zero,
}
use petix.Libc.Str.{strncmp, strncpy, memset}
use petix.Libc.Str.Compare.{cstr, strncmp_lem}
use petix.Kernel.Fs.{same_name, stored, file_name_len}

-- The part of a name that counts.
abbrev pub known : List ℕ → List ℕ
known s = take file_name_len (cstr s)

eqb_ℤ-zero : (z : ℤ) → eqb_ℤ z (pos 0) ≡ true → z ≡ pos 0
eqb_ℤ-zero (pos n) h = ground arith
eqb_ℤ-zero (negsuc n) h = ground arith

pub same_name-known : (a b : List ℕ) → same_name a b ≡ true → known a ≡ known b
unfolding same_name
same_name-known a b h = (strncmp_lem file_name_len a b).0 (eqb_ℤ-zero (strncmp a b file_name_len) h)

pub known-same_name : (a b : List ℕ) → known a ≡ known b → same_name a b ≡ true
unfolding same_name
known-same_name a b h = rw ((strncmp_lem file_name_len a b).1 h) refl

known_strncpy :
    (n : ℕ) (dest src : List ℕ)
    → n ≤ length dest
    → take n (cstr (strncpy dest src n)) ≡ take n (cstr src)
unfolding strncpy memset
known_strncpy zero dest src h = refl
known_strncpy (suc n) [] src h = absurd (omega arith)
known_strncpy (suc n) (d ∷ dest) [] h = refl
known_strncpy (suc n) (d ∷ dest) (c ∷ src) h =
    ground (arith, known_strncpy n dest src (omega arith))

known-stored : (s : List ℕ) → known (stored s) ≡ known s
unfolding stored
known-stored s = known_strncpy file_name_len (replicate file_name_len 0) s (omega arith)

same_name_iff :
    (a b c d : List ℕ)
    → (known a ≡ known b → known c ≡ known d)
    → (known c ≡ known d → known a ≡ known b)
    → same_name a b ≡ same_name c d
same_name_iff a b c d to from = elim (Bool-cases (same_name a b)) [
  | inl y ↦ y ∙ sym (known-same_name c d (to (same_name-known a b y)))
  | inr n ↦ elim (Bool-cases (same_name c d)) [
    | inl y' ↦ absurd (let y = known-same_name a b (from (same_name-known c d y')) in cc)
    | inr n' ↦ n ∙ sym n'
  ]
]

pub same_name-stored : (a b : List ℕ) → same_name (stored a) b ≡ same_name a b
same_name-stored a b =
    same_name_iff (stored a) b a b (λ h. sym (known-stored a) ∙ h) (λ h. known-stored a ∙ h)

-- Names that are the same have the same answers.
pub same_name-congr : (a i j : List ℕ) → same_name i j ≡ true → same_name a i ≡ same_name a j
same_name-congr a i j h =
    let k = same_name-known i j h in same_name_iff a i a j (λ e. e ∙ k) (λ e. e ∙ sym k)

pub same_name_symm : (a b : List ℕ) → same_name a b ≡ same_name b a
same_name_symm a b = same_name_iff a b b a sym sym

pub same_name-left : (a i j : List ℕ) → same_name a i ≡ true → same_name a j ≡ same_name i j
same_name-left a i j h =
    let k = same_name-known a i h in same_name_iff a j i j (λ e. sym k ∙ e) (λ e. k ∙ e)
