-- ===== src/Kernel/Fs/Tokens.antt =====
-- The loops over the components of a path.
use petix.Prelude.{
  ℕ, zero, suc, ◌<◌, ◌≡◌, refl, ap, inl, inr, List, [], ◌∷◌, none, some, length, arith,
  Option-cases,
}
use petix.Libc.Str.{strtok_r}
use petix.Libc.Str.Token.{strtok_r_lem}
use petix.Kernel.Fs.{Token, tokens_from, tokens}

fuel_enough :
    (fuel fuel' : ℕ) (s : List ℕ)
    → length s < fuel
    → length s < fuel'
    → tokens_from fuel s ≡ tokens_from fuel' s
unfolding tokens_from
fuel_enough zero fuel' s h h' = absurd (omega arith)
fuel_enough (suc fuel) zero s h h' = absurd (omega arith)
fuel_enough (suc fuel) (suc fuel') s h h' = elim (Option-cases (strtok_r (b'/' ∷ []) s)) [
  | inl e ↦ rw (tokens_from, e) refl
  | inr ((token, save), e) ↦
      let t = (strtok_r_lem (b'/' ∷ []) s).0 token save e in
      let ih = fuel_enough fuel fuel' save (omega (arith, t.shorter)) (omega (arith, t.shorter)) in
      rw (tokens_from, e) (ap (λ ts. (token, save) ∷ ts) ih)
]

-- The components of a path, one `strtok_r` at a time.
abbrev pub first_token : List ℕ → List Token
first_token path = elim (strtok_r (b'/' ∷ []) path) [
  | none ↦ []
  | some (token, save) ↦ (token, save) ∷ tokens save
]

-- The loop of `strtok_r` over a path ends: with more rounds than the path has bytes it gives the same
-- components, however many those rounds are. They are none where the first `strtok_r` finds none,
-- and otherwise its token and the components of what is behind it.
pub tokens_lem :
    (path : List ℕ) (fuel : ℕ)
    → length path < fuel
    → (tokens_from fuel path ≡ tokens path) × (tokens path ≡ first_token path)
unfolding tokens tokens_from
tokens_lem path fuel h = (
  fuel_enough fuel (suc (length path)) path h (omega arith),
  elim (Option-cases (strtok_r (b'/' ∷ []) path)) [
    | inl e ↦ rw (tokens, tokens_from, first_token, e) refl
    | inr ((token, save), e) ↦
        let t = (strtok_r_lem (b'/' ∷ []) path).0 token save e in
        rw (tokens, tokens_from, first_token, e)
          (ap (λ ts. (token, save) ∷ ts)
            (fuel_enough (length path) (suc (length save)) save (omega (arith, t.shorter))
              (omega arith)))
  ],
)
