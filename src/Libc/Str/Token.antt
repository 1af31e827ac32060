-- ===== src/Libc/Str/Token.antt =====
-- `strtok_r`: which token it cuts off, and that a loop over the tokens ends.
use petix.Prelude.{
  ℕ, ◌+◌, ◌≤◌, ◌<◌, ◌≡◌, refl, ◌∙◌, ap, sym, ◌↔◌, ◌≢◌, ◌⊎◌, true, false, List, [], ◌∷◌, ◌++◌, none,
  some, arith, ◌==◌, length, length-append, Bool-cases, inl, inr, ==→ne, subst, append-nil,
  some_inj,
}
use petix.Libc.Str.{is_delim, skip_delims, cut_token, token_from, strtok_r}
use petix.Libc.Str.Compare.{cstr}
use petix.Libc.Str.Copy.{cstr-append}

abbrev pub NoDelim : List ℕ → List ℕ → Type 0
NoDelim delim [] = Unit
NoDelim delim (c ∷ s) = (c ≢ 0) × (is_delim delim c ≡ false) × NoDelim delim s

abbrev pub AllDelim : List ℕ → List ℕ → Type 0
AllDelim delim [] = Unit
AllDelim delim (c ∷ s) = (c ≢ 0) × (is_delim delim c ≡ true) × AllDelim delim s

-- What is left behind a token: the string has ended, or a delimiter was skipped.
abbrev pub Behind : List ℕ → List ℕ → List ℕ → Type 0
Behind delim rest save =
    ((cstr rest ≡ []) × (save ≡ rest))
    ⊎ ((c : ℕ) × (rest ≡ c ∷ save) × (c ≢ 0) × (is_delim delim c ≡ true))

AllDelim-cstr : (delim s : List ℕ) → AllDelim delim s → cstr s ≡ s
AllDelim-cstr delim [] h = refl
AllDelim-cstr delim (c ∷ s) h = ground (arith, AllDelim-cstr delim s h.2)

-- What the first loop skips are delimiters, and it stops at the end or at another byte.
skip_delims_lem :
    (delim s : List ℕ)
    → (gap : List ℕ) × (s ≡ gap ++ skip_delims delim s)
      × AllDelim delim gap
      × ((c : ℕ) (rest : List ℕ)
          → skip_delims delim s ≡ c ∷ rest
          → (c ≡ 0) ⊎ (is_delim delim c ≡ false))
unfolding skip_delims
skip_delims_lem delim [] = ([], refl, tt, λ c rest e. cc)
skip_delims_lem delim (c ∷ s) =
    let (gap, e, all, stop) = skip_delims_lem delim s in
    elim (Bool-cases (c == 0)) [
      | inl z ↦ rw z ([], refl, tt, λ b rest e. ground arith)
      | inr nz ↦ elim (Bool-cases (is_delim delim c)) [
        | inl d ↦ rw (nz, d) (c ∷ gap, ap (λ l. c ∷ l) e, (==→ne c 0 nz, d, all), stop)
        | inr d ↦ rw (nz, d) ([], refl, tt, λ b rest e. ground arith)
      ]
    ]

-- What the second loop reads has no delimiter.
cut_token_lem :
    (delim s : List ℕ)
    → (rest : List ℕ) × (s ≡ (cut_token delim s).0 ++ rest)
      × NoDelim delim (cut_token delim s).0
      × Behind delim rest (cut_token delim s).1
unfolding cut_token
cut_token_lem delim [] = ([], refl, tt, inl (refl, refl))
cut_token_lem delim (c ∷ s) =
    let (rest, e, word, behind) = cut_token_lem delim s in
    elim (Bool-cases (c == 0)) [
      | inl z ↦ rw z (c ∷ s, refl, tt, inl (ground arith, refl))
      | inr nz ↦ elim (Bool-cases (is_delim delim c)) [
        | inl d ↦ rw (nz, d) (c ∷ s, refl, tt, inr (c, refl, ==→ne c 0 nz, d))
        | inr d ↦ rw (nz, d) (rest, ap (λ l. c ∷ l) e, (==→ne c 0 nz, d, word), behind)
      ]
    ]

-- What it means for `token` to be the first token of `s`, with `save` behind it.
pub record IsToken (delim s token save : List ℕ) : Type 0 where
  pub gap : List ℕ
  pub rest : List ℕ
  pub splits : s ≡ gap ++ (token ++ rest)
  pub all_delim : AllDelim delim gap
  pub no_delim : NoDelim delim token
  pub not_empty : token ≢ []
  pub behind : Behind delim rest save
  pub shorter : length save < length s

length-append₃ :
    (gap token rest : List ℕ)
    → length (gap ++ (token ++ rest)) ≡ length gap + length token + length rest
length-append₃ gap token rest =
    omega (arith, length-append gap (token ++ rest), length-append token rest)

Behind-length : (delim rest save : List ℕ) → Behind delim rest save → length save ≤ length rest
Behind-length delim rest save (inl h) = omega (arith, ap length h.1)
Behind-length delim rest save (inr h) = omega (arith, ap length h.1)

head_in_token :
    (delim : List ℕ) (c : ℕ) (s : List ℕ)
    → c ≢ 0
    → is_delim delim c ≡ false
    → (cut_token delim (c ∷ s)).0 ≢ []
unfolding cut_token
head_in_token delim c s nz word = ground arith

cut-IsToken :
    (delim gap : List ℕ) (c : ℕ) (s : List ℕ)
    → AllDelim delim gap
    → c ≢ 0
    → is_delim delim c ≡ false
    → let (token, save) = cut_token delim (c ∷ s) in IsToken delim (gap ++ c ∷ s) token save
cut-IsToken delim gap c s all nz word =
    let (rest, e, clean, behind) = cut_token_lem delim (c ∷ s) in
    let filled = head_in_token delim c s nz word in
    record {
      gap = gap;
      rest = rest;
      splits = ap (λ l. gap ++ l) e;
      all_delim = all;
      no_delim = clean;
      not_empty = filled;
      behind = behind;
      shorter = omega (
        arith,
        ap length (ap (λ l. gap ++ l) e),
        length-append₃ gap (cut_token delim (c ∷ s)).0 rest,
        Behind-length delim rest _ behind,
        length-pos _ filled,
      );
    }
  where
    length-pos : (l : List ℕ) → l ≢ [] → 0 < length l
    length-pos [] h = absurd (h refl)
    length-pos (x ∷ l) h = omega arith

AllDelim-cstr-append : (delim gap s : List ℕ) → AllDelim delim gap → cstr (gap ++ s) ≡ gap ++ cstr s
AllDelim-cstr-append delim gap s all = cstr-append gap s (AllDelim-cstr delim gap all)

not_AllDelim :
    (delim gap : List ℕ) (c : ℕ) (s : List ℕ)
    → is_delim delim c ≡ false
    → ¬ AllDelim delim (gap ++ c ∷ s)
not_AllDelim delim [] c s word h = ground arith
not_AllDelim delim (g ∷ gap) c s word h = not_AllDelim delim gap c s word h.2

-- `strtok_r` by what the first loop leaves.
token_from_lem :
    (delim gap k : List ℕ)
    → AllDelim delim gap
    → ((c : ℕ) (rest : List ℕ) → k ≡ c ∷ rest → (c ≡ 0) ⊎ (is_delim delim c ≡ false))
    → ((token save : List ℕ)
        → token_from delim k ≡ some (token, save)
        → IsToken delim (gap ++ k) token save)
      × ((token_from delim k ≡ none) ↔ AllDelim delim (cstr (gap ++ k)))
unfolding token_from
token_from_lem delim gap [] all stop = (
  λ token save e. cc,
  (
    λ _. subst (AllDelim delim) (sym (AllDelim-cstr-append delim gap [] all ∙ append-nil gap)) all,
    λ _. refl,
  ),
)
token_from_lem delim gap (c ∷ s) all stop = elim (Bool-cases (c == 0)) [
  | inl z ↦ rw z (
    λ token save e. cc,
    (
      λ _.
          subst (AllDelim delim)
            (sym (
              AllDelim-cstr-append delim gap (c ∷ s) all
              ∙ ap (λ l. gap ++ l) (zero_cstr c s z)
              ∙ append-nil gap))
            all,
      λ _. refl,
    ),
  )
  | inr nz ↦
      let word : is_delim delim c ≡ false = not_zero (stop c s refl) nz in
      rw nz (
        λ token save e.
            subst (λ r. IsToken delim (gap ++ c ∷ s) r.0 r.1) (some_inj e)
              (cut-IsToken delim gap c s all (==→ne c 0 nz) word),
        (
          λ e. cc,
          λ h. absurd (
              not_AllDelim delim gap c (cstr s) word (
                subst (AllDelim delim)
                  (AllDelim-cstr-append delim gap (c ∷ s) all
                    ∙ ap (λ l. gap ++ l) (nonzero_cstr c s nz))
                  h)),
        ),
      )
]
  where
    zero_cstr : (c : ℕ) (s : List ℕ) → (c == 0) ≡ true → cstr (c ∷ s) ≡ []
    zero_cstr c s z = ground arith

    nonzero_cstr : (c : ℕ) (s : List ℕ) → (c == 0) ≡ false → cstr (c ∷ s) ≡ c ∷ cstr s
    nonzero_cstr c s z = ground arith

    not_zero : (c ≡ 0) ⊎ (is_delim delim c ≡ false) → (c == 0) ≡ false → is_delim delim c ≡ false
    not_zero h nz = ground arith

-- `strtok_r` returns the first token of the string: a gap of delimiters is skipped, the token is
-- not empty and has no delimiter, and `*save` is left behind it, at the end of the text or past one
-- delimiter, and nearer the end of the string than before. It returns NULL exactly when the text
-- has only delimiters.
pub strtok_r_lem :
    (delim s : List ℕ)
    → ((token save : List ℕ) → strtok_r delim s ≡ some (token, save) → IsToken delim s token save)
      × ((strtok_r delim s ≡ none) ↔ AllDelim delim (cstr s))
unfolding strtok_r
strtok_r_lem delim s =
    let (gap, e, all, stop) = skip_delims_lem delim s in
    subst
      (λ l.
        ((token save : List ℕ) → strtok_r delim s ≡ some (token, save) → IsToken delim l token save)
        × ((strtok_r delim s ≡ none) ↔ AllDelim delim (cstr l)))
      (sym e) (token_from_lem delim gap (skip_delims delim s) all stop)
