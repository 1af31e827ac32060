-- ===== src/Libc/Str.antt =====
-- libc/string. A pointer into a string is the list of bytes from there to the end of its object,
-- and a read at the end of the list reads the terminator, 0.
pub mod Compare
pub mod Copy
pub mod Token
mod Tests
use petix.Prelude.{
  ℕ, zero, suc, ◌+◌, ◌-◌, ◌<◌, Bool, true, false, not, ◌&&◌, List, [], ◌∷◌, ◌++◌, Option, none,
  some, leb, ◌==◌, if◌then◌else◌, ℤ, pos, sub_ℕ, drop, take,
}

-- strlen.c
unfoldable pub strlen : List ℕ → ℕ
strlen [] = 0
strlen (c ∷ s) = if c == 0 then 0 else strlen s + 1

-- `strnlen`: the loop goes on while `len <= maxlen`. `rounds` is `maxlen + 1 - len`.
unfoldable pub strnlen_loop : ℕ → List ℕ → ℕ
strnlen_loop zero s = 0
strnlen_loop (suc rounds) [] = 0
strnlen_loop (suc rounds) (c ∷ s) = if c == 0 then 0 else strnlen_loop rounds s + 1

unfoldable pub strnlen : List ℕ → ℕ → ℕ
unfolding strnlen_loop
strnlen s maxlen = strnlen_loop (suc maxlen) s

-- strchr.c: the string from the byte on.
unfoldable pub strchr : List ℕ → ℕ → Option (List ℕ)
strchr [] c = none
strchr (d ∷ s) c = if d == 0 then none else if d == c then some (d ∷ s) else strchr s c

-- memchr.c: the index of the byte.
unfoldable pub memchr : List ℕ → ℕ → ℕ → Option ℕ
memchr s c zero = none
memchr [] c (suc n) = none
memchr (d ∷ s) c (suc n) =
    if d == c then some 0 else elim (memchr s c n) [ none ↦ none | some i ↦ some (i + 1) ]

-- strcmp.c: the difference of the first bytes that differ, read as unsigned.
unfoldable pub strcmp : List ℕ → List ℕ → ℤ
strcmp [] [] = pos 0
strcmp [] (b ∷ t) = sub_ℕ 0 b
strcmp (a ∷ s) [] = sub_ℕ a 0
strcmp (a ∷ s) (b ∷ t) = if a == b && not (a == 0) then strcmp s t else sub_ℕ a b

unfoldable pub strncmp : List ℕ → List ℕ → ℕ → ℤ
strncmp s t zero = pos 0
strncmp [] [] (suc n) = pos 0
strncmp [] (b ∷ t) (suc n) = sub_ℕ 0 b
strncmp (a ∷ s) [] (suc n) = sub_ℕ a 0
strncmp (a ∷ s) (b ∷ t) (suc n) = if a == b && not (a == 0) then strncmp s t n else sub_ℕ a b

-- memcmp.c, over objects of at least `n` bytes.
unfoldable pub memcmp : List ℕ → List ℕ → ℕ → ℤ
memcmp s t zero = pos 0
memcmp [] [] (suc n) = pos 0
memcmp [] (b ∷ t) (suc n) = sub_ℕ 0 b
memcmp (a ∷ s) [] (suc n) = sub_ℕ a 0
memcmp (a ∷ s) (b ∷ t) (suc n) = if a == b then memcmp s t n else sub_ℕ a b

-- memcpy.c and memset.c: the destination afterwards. The loops write its first `n` bytes.
unfoldable pub memcpy : List ℕ → List ℕ → ℕ → List ℕ
memcpy dest src zero = dest
memcpy [] src (suc n) = []
memcpy (d ∷ dest) [] (suc n) = d ∷ dest
memcpy (d ∷ dest) (c ∷ src) (suc n) = c ∷ memcpy dest src n

unfoldable pub memset : List ℕ → ℕ → ℕ → List ℕ
memset dest c zero = dest
memset [] c (suc n) = []
memset (d ∷ dest) c (suc n) = c ∷ memset dest c n

-- strncpy.c: its second loop writes zeros up to `n`.
unfoldable pub strncpy : List ℕ → List ℕ → ℕ → List ℕ
unfolding memset
strncpy dest src zero = dest
strncpy [] src (suc n) = []
strncpy (d ∷ dest) [] (suc n) = memset (d ∷ dest) 0 (suc n)
strncpy (d ∷ dest) (c ∷ src) (suc n) =
    if c == 0 then memset (d ∷ dest) 0 (suc n) else c ∷ strncpy dest src n

-- strcat.c
unfoldable pub strncat : List ℕ → List ℕ → ℕ → List ℕ
unfolding strnlen strncpy
strncat dest src n =
    let off = strnlen dest n in take off dest ++ strncpy (drop off dest) src (n - off)

-- Whether `strchr` finds a byte among the delimiters.
unfoldable pub is_delim : List ℕ → ℕ → Bool
unfolding strchr
is_delim delim c = elim (strchr delim c) [ none ↦ false | some _ ↦ true ]

-- strtok.c: the first loop skips delimiters.
unfoldable pub skip_delims : List ℕ → List ℕ → List ℕ
unfolding is_delim
skip_delims delim [] = []
skip_delims delim (c ∷ s) = if not (c == 0) && is_delim delim c then skip_delims delim s else c ∷ s

-- The second loop ends the token at a delimiter or at the end of the string. The parts are the
-- token and where `*save` points: behind the delimiter, or at the end.
unfoldable pub cut_token : List ℕ → List ℕ → List ℕ × List ℕ
unfolding is_delim
cut_token delim [] = ([], [])
cut_token delim (c ∷ s) =
    let (token, save) = cut_token delim s in
    if c == 0 then ([], c ∷ s) else if is_delim delim c then ([], s) else (c ∷ token, save)

unfoldable pub token_from : List ℕ → List ℕ → Option (List ℕ × List ℕ)
token_from delim [] = none
token_from delim (c ∷ s) = if c == 0 then none else some (cut_token delim (c ∷ s))

-- `strtok_r` on the string, or on `*save` where its argument is NULL. At the end it returns NULL
-- and leaves `*save` as it was.
unfoldable pub strtok_r : List ℕ → List ℕ → Option (List ℕ × List ℕ)
unfolding skip_delims token_from cut_token
strtok_r delim str = token_from delim (skip_delims delim str)
