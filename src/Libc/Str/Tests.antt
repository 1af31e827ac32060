-- ===== src/Libc/Str/Tests.antt =====
-- The string functions on the strings "ab" and "abc".
use petix.Prelude.{ℕ, ◌≡◌, refl, ◌↔◌, List, [], ◌∷◌, none, some, replicate}
use petix.Libc.Str.{strnlen, strnlen_loop, strtok_r}
use petix.Libc.Str.Compare.{cstr}
use petix.Libc.Str.Token.{IsToken, AllDelim, strtok_r_lem}

abbrev ab : List ℕ
ab = b'a' ∷ b'b' ∷ 0 ∷ []

abbrev abc : List ℕ
abc = b'a' ∷ b'b' ∷ b'c' ∷ 0 ∷ []

strnlen-one : strnlen abc 1 ≡ 2
unfolding strnlen strnlen_loop
strnlen-one = refl

abbrev room : List ℕ
room = b'a' ∷ replicate 7 0

-- "/ab" is cut at '/'.
abbrev slash_ab : List ℕ
slash_ab = b'/' ∷ ab

abbrev slash : List ℕ
slash = b'/' ∷ 0 ∷ []

strtok_r_lem_example :
    ((token save : List ℕ)
      → strtok_r slash slash_ab ≡ some (token, save)
      → IsToken slash slash_ab token save)
    × ((strtok_r slash slash_ab ≡ none) ↔ AllDelim slash (cstr slash_ab))
strtok_r_lem_example = strtok_r_lem slash slash_ab
