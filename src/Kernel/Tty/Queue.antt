-- ===== src/Kernel/Tty/Queue.antt =====
-- The ring of the line discipline as two queues: what the reader can have, and the line.
use petix.Prelude.{
  ℕ, zero, suc, ◌+◌, ◌-◌, ◌%◌, ◌≤◌, ◌<◌, ◌≡◌, refl, ◌∙◌, sym, ap, ap₂, List, [], ◌∷◌, ◌++◌, get_or,
  set, take, drop, length, arith, get_or-set_ne, min, ltb, Bool-cases, inl, inr, ◌⊎◌, true, false,
  subst,
}
use native.Mathlib.Decide.{dec_lt}
use petix.Kernel.Tty.{tty_buff_len, Tty, next_index, read_turn}

abbrev pub span : List ℕ → ℕ → ℕ → List ℕ
span buf lo zero = []
span buf lo (suc n) = get_or buf lo 0 ∷ span buf (next_index lo) n

-- How far `b` is behind `a` around the ring.
abbrev pub dist : ℕ → ℕ → ℕ
dist a b = (b + tty_buff_len - a) % tty_buff_len

pub span_append :
    (buf : List ℕ) (m n lo : ℕ)
    → lo < tty_buff_len
    → span buf lo (m + n) ≡ span buf lo m ++ span buf ((lo + m) % tty_buff_len) n
span_append buf zero n lo h = ap₂ (span buf) (omega arith) (omega arith)
span_append buf (suc m) n lo h =
    ap (span buf lo) {x = suc m + n} {y = suc (m + n)} (omega arith)
    ∙ ap (λ l. get_or buf lo 0 ∷ l)
        (span_append buf m n (next_index lo) (omega arith)
          ∙ ap (λ k. span buf (next_index lo) m ++ span buf k n) (omega arith))

-- A byte that is stored outside of a span does not change it.
pub span-set :
    (buf : List ℕ) (n lo i c : ℕ)
    → lo < tty_buff_len
    → i < tty_buff_len
    → n ≤ dist lo i
    → span (set buf i c) lo n ≡ span buf lo n
span-set buf zero lo i c hl hi h = refl
span-set buf (suc n) lo i c hl hi h =
    ap₂ (λ x l. x ∷ l) (get_or-set_ne buf i lo c 0 (λ e. omega arith))
      (span-set buf n (next_index lo) i c (omega arith) hi (omega arith))

drop_cons : (xs : List ℕ) (i : ℕ) → i < length xs → drop i xs ≡ get_or xs i 0 ∷ drop (suc i) xs
drop_cons [] i h = absurd (omega arith)
drop_cons (x ∷ xs) zero h = refl
drop_cons (x ∷ xs) (suc i) h = drop_cons xs i (omega arith)

-- A span that does not wrap around is a part of the buffer.
pub span_straight :
    (buf : List ℕ) (n lo : ℕ)
    → length buf ≡ tty_buff_len
    → lo + n ≤ tty_buff_len
    → span buf lo n ≡ take n (drop lo buf)
span_straight buf zero lo l h = refl
span_straight buf (suc zero) lo l h = rw (drop_cons buf lo (omega (arith, l))) refl
span_straight buf (suc (suc n)) lo l h = rw (drop_cons buf lo (omega (arith, l))) (
    ap (λ z. get_or buf lo 0 ∷ z)
      (ap (λ k. span buf k (suc n)) {x = next_index lo} {y = suc lo} (omega arith)
        ∙ span_straight buf (suc n) (suc lo) l (omega arith)))

pub record IsRing (t : Tty) : Type 0 where
  pub sized : length t.buffer ≡ tty_buff_len
  pub f_small : t.fbase < tty_buff_len
  pub l_small : t.lbase < tty_buff_len
  pub o_small : t.loff < tty_buff_len
  pub order : dist t.fbase t.lbase + dist t.lbase t.loff ≡ dist t.fbase t.loff

-- The bytes that were sent and not read yet, and those of the line.
abbrev pub available : Tty → List ℕ
available t = span t.buffer t.fbase (dist t.fbase t.lbase)

abbrev pub line : Tty → List ℕ
line t = span t.buffer t.lbase (dist t.lbase t.loff)

-- How many bytes a turn copies, and the turn by that.
abbrev copied : ℕ → Tty → ℕ
copied count t = min (dist t.fbase t.lbase) count

abbrev moved : ℕ → Tty → Tty × List ℕ
moved count t = (
  record t { fbase = (t.fbase + copied count t) % tty_buff_len },
  span t.buffer t.fbase (copied count t),
)

abbrev turn : Tty → ℕ → List ℕ → Tty × List ℕ
turn t f out = (record t { fbase = f }, out)

same_turn : (t : Tty) (f f' : ℕ) (l l' : List ℕ) → f ≡ f' → l ≡ l' → turn t f l ≡ turn t f' l'
same_turn t f f' l l' e g = ap₂ (turn t) e g

-- The second part of a copy around the end of the ring.
second_part :
    (t : Tty) (len1 len2 : ℕ)
    → IsRing t
    → (len2 ≡ 0) ⊎ (t.fbase + len1 ≡ tty_buff_len)
    → len2 ≤ tty_buff_len
    → take len2 t.buffer ≡ span t.buffer ((t.fbase + len1) % tty_buff_len) len2
second_part t len1 len2 v (inl z) h =
    ap (λ k. take k t.buffer) z ∙ ap (span t.buffer ((t.fbase + len1) % tty_buff_len)) (sym z)
second_part t len1 len2 v (inr e) h =
    sym (span_straight t.buffer len2 0 v.sized (omega arith))
    ∙ ap (λ k. span t.buffer k len2) {x = 0} {y = (t.fbase + len1) % tty_buff_len}
        (omega (arith, e))

turn_straight :
    (count : ℕ) (t : Tty)
    → IsRing t
    → ltb t.fbase t.lbase ≡ true
    → read_turn count t ≡ moved count t
unfolding read_turn
turn_straight count t v y =
    let lt : t.fbase < t.lbase = ground arith in
    let len = min (t.lbase - t.fbase) count in
    let e : len ≡ copied count t = omega (arith, lt, v.l_small) in
    rw y (
      same_turn t (t.fbase + len) ((t.fbase + copied count t) % tty_buff_len)
        (take len (drop t.fbase t.buffer)) (span t.buffer t.fbase (copied count t))
        (omega (arith, lt, v.l_small))
        (sym (span_straight t.buffer len t.fbase v.sized (omega (arith, lt, v.l_small)))
          ∙ ap (span t.buffer t.fbase) e))

turn_around :
    (count : ℕ) (t : Tty)
    → IsRing t
    → ltb t.fbase t.lbase ≡ false
    → ltb t.lbase t.fbase ≡ true
    → read_turn count t ≡ moved count t
unfolding read_turn
turn_around count t v z y =
    let lt : t.lbase < t.fbase = ground arith in
    let len1 = min (tty_buff_len - t.fbase) count in
    let len2 = min t.lbase (count - len1) in
    let split : (len2 ≡ 0) ⊎ (t.fbase + len1 ≡ tty_buff_len) =
      elim (dec_lt count (tty_buff_len - t.fbase)) [
        | yes few ↦ inl (omega (arith, few))
        | no more ↦ inr (omega (arith, more, v.f_small))
      ] in
    let e : copied count t ≡ len1 + len2 = omega (arith, lt, v.f_small) in
    rw (z, y)
      (same_turn t (((t.fbase + len1) % tty_buff_len + len2) % tty_buff_len)
        ((t.fbase + copied count t) % tty_buff_len)
        (take len1 (drop t.fbase t.buffer) ++ take len2 t.buffer)
        (span t.buffer t.fbase (copied count t)) (omega (arith, e))
        (ap₂ (λ a b. a ++ b)
            (sym (span_straight t.buffer len1 t.fbase v.sized (omega (arith, v.f_small))))
            (second_part t len1 len2 v split (omega (arith, v.l_small)))
          ∙ sym (span_append t.buffer len1 len2 t.fbase v.f_small)
          ∙ ap (span t.buffer t.fbase) (sym e)))

turn_nothing :
    (count : ℕ) (t : Tty)
    → IsRing t
    → ltb t.fbase t.lbase ≡ false
    → ltb t.lbase t.fbase ≡ false
    → read_turn count t ≡ moved count t
unfolding read_turn
turn_nothing count t v z y =
    let e : t.fbase ≡ t.lbase = ground arith in
    let n : copied count t ≡ 0 = omega (arith, e, v.f_small) in
    rw (z, y)
      (same_turn t t.fbase ((t.fbase + copied count t) % tty_buff_len) []
        (span t.buffer t.fbase (copied count t)) (omega (arith, n, v.f_small))
        (ap (span t.buffer t.fbase) (sym n)))

turn_moved : (count : ℕ) (t : Tty) → IsRing t → read_turn count t ≡ moved count t
turn_moved count t v = elim (Bool-cases (ltb t.fbase t.lbase)) [
  | inl y ↦ turn_straight count t v y
  | inr z ↦ elim (Bool-cases (ltb t.lbase t.fbase)) [
    | inl y ↦ turn_around count t v z y
    | inr z' ↦ turn_nothing count t v z z'
  ]
]

length-span : (buf : List ℕ) (n lo : ℕ) → length (span buf lo n) ≡ n
length-span buf zero lo = refl
length-span buf (suc n) lo = omega (arith, length-span buf n (next_index lo))

-- What one turn of `petix_tty_read` makes of the queues: it copies `out`.
pub record ReadTurn (count : ℕ) (t t' : Tty) (out : List ℕ) : Type 0 where
  pub ring : IsRing t'
  pub copies : length out ≡ min (length (available t)) count
  pub first : available t ≡ out ++ available t'
  pub line_kept : line t' ≡ line t

-- One turn of `petix_tty_read` copies what the reader can have, up to `count` bytes, from wherever it
-- starts in the ring, and leaves the rest and the line. It copies nothing only where there is nothing
-- or nothing is asked for, and the ring stays in order.
pub read_turn-ReadTurn :
    (count : ℕ) (t : Tty) → IsRing t → ReadTurn count t (read_turn count t).0 (read_turn count t).1
read_turn-ReadTurn count t v =
    subst (λ r. ReadTurn count t r.0 r.1) (sym (turn_moved count t v))
      (record {
        ring = record {
          sized = v.sized;
          f_small = omega arith;
          l_small = v.l_small;
          o_small = v.o_small;
          order = omega (arith, v.order, v.f_small, v.l_small, v.o_small);
        };
        copies = omega (
          arith,
          length-span t.buffer (copied count t) t.fbase,
          length-span t.buffer (dist t.fbase t.lbase) t.fbase,
        );
        first =
            let rest = dist ((t.fbase + copied count t) % tty_buff_len) t.lbase in
            ap (span t.buffer t.fbase) {x = dist t.fbase t.lbase} {y = copied count t + rest}
              (omega (arith, v.f_small, v.l_small))
            ∙ span_append t.buffer (copied count t) rest t.fbase v.f_small;
        line_kept = refl;
      })
