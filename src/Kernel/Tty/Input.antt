-- ===== src/Kernel/Tty/Input.antt =====
-- Canonical input against two queues: what was sent to the reader, and the line.
use petix.Prelude.{
  ℕ, ◌+◌, ◌-◌, ◌%◌, ◌<◌, ◌≡◌, ◌≢◌, refl, ◌∙◌, sym, ap, ap₂, subst, Bool, true, false, ◌||◌, List,
  [], ◌∷◌, ◌++◌, get_or, set, arith, get_or-set_self, length-set, Bool-cases, inl, inr,
  if◌then◌else◌, ◌==◌, ==→eq, ==→ne, ne→==, eq→==,
}
use petix.Kernel.Tty.{
  tty_buff_len, send_char, Tty, next_index, put_byte, put_bytes, echo_bytes, echo_map,
  petix_tty_write, erase, send, petix_tty_input_seq,
}
use petix.Kernel.Tty.Queue.{span, dist, span_append, span-set, IsRing, available, line}

-- What an operation makes of the two queues.
pub record Queues (t' : Tty) (sent held : List ℕ) : Type 0 where
  pub ring : IsRing t'
  pub sent_is : available t' ≡ sent
  pub held_is : line t' ≡ held

put_byte-Queues :
    (c : ℕ) (t : Tty)
    → IsRing t
    → dist t.fbase t.loff + 1 < tty_buff_len
    → Queues (put_byte c t) (available t) (line t ++ c ∷ [])
unfolding put_byte
put_byte-Queues c t v room =
    let o = v.order in
    let more : dist t.lbase (next_index t.loff) ≡ dist t.lbase t.loff + 1 =
      omega (arith, o, room, v.l_small, v.o_small, v.f_small) in
    record {
      ring = record {
        sized = length-set t.buffer t.loff c ∙ v.sized;
        f_small = v.f_small;
        l_small = v.l_small;
        o_small = omega arith;
        order = omega (arith, o, room, v.l_small, v.o_small, v.f_small);
      };
      sent_is =
          span-set t.buffer (dist t.fbase t.lbase) t.fbase t.loff c v.f_small v.o_small
            (omega (arith, o));
      held_is =
          ap (span (set t.buffer t.loff c) t.lbase) more
          ∙ span_append (set t.buffer t.loff c) (dist t.lbase t.loff) 1 t.lbase v.l_small
          ∙ ap₂ (λ xs x. xs ++ x ∷ [])
              (span-set t.buffer (dist t.lbase t.loff) t.lbase t.loff c v.l_small v.o_small
                (omega arith))
              (ap (λ k. get_or (set t.buffer t.loff c) k 0)
                  {x = (t.lbase + dist t.lbase t.loff) % tty_buff_len} {y = t.loff}
                  (omega (arith, v.l_small, v.o_small))
                ∙ get_or-set_self t.buffer t.loff c 0 (omega (arith, v.sized, v.o_small)));
    }

put_byte_room :
    (c : ℕ) (t : Tty)
    → IsRing t
    → dist t.fbase t.loff + 1 < tty_buff_len
    → dist (put_byte c t).fbase (put_byte c t).loff ≡ dist t.fbase t.loff + 1
unfolding put_byte
put_byte_room c t v room = omega (arith, v.f_small, v.o_small, room)

send-Queues :
    (t : Tty)
    → IsRing t
    → dist t.fbase t.loff + 1 < tty_buff_len
    → Queues (send t) (available t ++ (line t ++ send_char ∷ [])) []
unfolding send
send-Queues t v room =
    let p = put_byte-Queues send_char t v room in
    let t1 = put_byte send_char t in
    let r = p.ring in
    record {
      ring = record {
        sized = r.sized;
        f_small = r.f_small;
        l_small = r.o_small;
        o_small = r.o_small;
        order = omega (arith, r.o_small, r.f_small);
      };
      sent_is =
          ap (span t1.buffer t1.fbase) (sym r.order)
          ∙ span_append t1.buffer (dist t1.fbase t1.lbase) (dist t1.lbase t1.loff) t1.fbase
              r.f_small
          ∙ ap₂ (λ xs ys. xs ++ ys) p.sent_is
              (ap (λ k. span t1.buffer k (dist t1.lbase t1.loff))
                  {x = (t1.fbase + dist t1.fbase t1.lbase) % tty_buff_len} {y = t1.lbase}
                  (omega (arith, r.f_small, r.l_small))
                ∙ p.held_is);
      held_is =
          ap (span t1.buffer t1.loff) {x = dist t1.loff t1.loff} {y = 0} (omega (arith, r.o_small));
    }

erase-Queues :
    (beyond : ℕ → List ℕ) (t : Tty)
    → IsRing t
    → t.loff ≢ t.lbase
    → (x : ℕ) × (held : List ℕ) × (line t ≡ held ++ x ∷ [])
      × Queues (erase beyond t) (available t) held
unfolding erase petix_tty_write
erase-Queues beyond t v n =
    let loff = (t.loff + tty_buff_len - 1) % tty_buff_len in
    let d = dist t.lbase loff in
    let more : dist t.lbase t.loff ≡ d + 1 = omega (arith, v.l_small, v.o_small, n) in
    let e : (t.loff == t.lbase) ≡ false = ne→== t.loff t.lbase n in
    (
      get_or t.buffer ((t.lbase + d) % tty_buff_len) 0,
      span t.buffer t.lbase d,
      ap (span t.buffer t.lbase) more ∙ span_append t.buffer d 1 t.lbase v.l_small,
      rw e (record {
        ring = record {
          sized = v.sized;
          f_small = v.f_small;
          l_small = v.l_small;
          o_small = omega arith;
          order = omega (arith, v.order, v.l_small, v.o_small, v.f_small, n);
        };
        sent_is = refl;
        held_is = refl;
      }),
    )

-- What a byte of input does to the queues in canonical mode.
abbrev pub drop_last : List ℕ → List ℕ
drop_last [] = []
drop_last (x ∷ []) = []
drop_last (x ∷ (y ∷ xs)) = x ∷ drop_last (y ∷ xs)

abbrev pub sent_after : ℕ → List ℕ → List ℕ → List ℕ
sent_after c sent held =
    if c == 10
    then sent ++ ((held ++ 10 ∷ []) ++ send_char ∷ [])
    else if c == 4
    then sent ++ (held ++ send_char ∷ [])
    else sent

abbrev pub held_after : ℕ → List ℕ → List ℕ
held_after c held =
    if c == 8 || c == 127 then drop_last held else if c == 10 || c == 4 then [] else held ++ c ∷ []

drop_last_snoc : (xs : List ℕ) (x : ℕ) → drop_last (xs ++ x ∷ []) ≡ xs
drop_last_snoc [] x = refl
drop_last_snoc (y ∷ []) x = refl
drop_last_snoc (y ∷ (z ∷ xs)) x = ap (λ l. y ∷ l) (drop_last_snoc (z ∷ xs) x)

echoed-Queues :
    (beyond : ℕ → List ℕ) (cs : List ℕ) (b : Bool) (t : Tty) (sent held : List ℕ)
    → Queues t sent held
    → Queues (if b then echo_bytes beyond cs t else t) sent held
      × (dist
            (if b then echo_bytes beyond cs t else t).fbase
            (if b then echo_bytes beyond cs t else t).loff
          ≡ dist t.fbase t.loff)
unfolding echo_bytes petix_tty_write
echoed-Queues beyond cs false t sent held q = (q, refl)
echoed-Queues beyond [] true t sent held q = (q, refl)
echoed-Queues beyond (c ∷ cs) true t sent held q =
    echoed-Queues beyond cs true (petix_tty_write (echo_map beyond c) t) sent held (record {
      ring = record {
        sized = (q.ring).sized;
        f_small = (q.ring).f_small;
        l_small = (q.ring).l_small;
        o_small = (q.ring).o_small;
        order = (q.ring).order;
      };
      sent_is = q.sent_is;
      held_is = q.held_is;
    })

as_Queues :
    (t t' : Tty) (s s' h h' : List ℕ) → t ≡ t' → s ≡ s' → h ≡ h' → Queues t' s' h' → Queues t s h
as_Queues t t' s s' h h' e f g q =
    subst (λ x. Queues x s h) (sym e)
      (subst (λ x. Queues t' x h) (sym f) (subst (λ x. Queues t' s' x) (sym g) q))

abbrev echoed : (ℕ → List ℕ) → ℕ → Tty → Tty
echoed beyond c t = if t.echo then echo_bytes beyond (c ∷ []) (put_byte c t) else put_byte c t

run_erase :
    (beyond : ℕ → List ℕ) (c : ℕ) (t : Tty)
    → (c == 8 || c == 127) ≡ true
    → petix_tty_input_seq beyond c [] t ≡ erase beyond t
unfolding petix_tty_input_seq
run_erase beyond c t y = rw y refl

run_end_of_input :
    (beyond : ℕ → List ℕ) (c : ℕ) (t : Tty)
    → (c == 8 || c == 127) ≡ false
    → (c == 4) ≡ true
    → t.icanon ≡ true
    → petix_tty_input_seq beyond c [] t ≡ send t
unfolding petix_tty_input_seq
run_end_of_input beyond c t n y canon =
    let z : (c == 10) ≡ false = ground arith in simp (n, y, canon, z) refl

run_byte :
    (beyond : ℕ → List ℕ) (c : ℕ) (t : Tty)
    → (c == 8 || c == 127) ≡ false
    → (c == 4) ≡ false
    → t.icanon ≡ true
    → petix_tty_input_seq beyond c [] t
      ≡ (if c == 10 then send (echoed beyond c t) else echoed beyond c t)
unfolding petix_tty_input_seq put_bytes
run_byte beyond c t n z canon = elim (Bool-cases (c == 10)) [
  | inl y ↦ simp (n, z, canon, y) refl
  | inr y ↦ simp (n, z, canon, y) refl
]

erase_empty : (beyond : ℕ → List ℕ) (t : Tty) → t.loff ≡ t.lbase → erase beyond t ≡ t
unfolding erase
erase_empty beyond t e = rw (eq→== t.loff t.lbase e) refl

-- `petix_tty_input_seq` of one byte in canonical mode, where the ring has room for it and a mark,
-- does to the two queues in the ring what it should: a backspace or delete takes the last byte of the
-- line back, the end of a line sends the line with it and a mark, the end of input sends the line
-- with a mark alone, and any other byte goes to the end of the line. The ring stays in order.
pub input_seq-Queues :
    (beyond : ℕ → List ℕ) (c : ℕ) (t : Tty)
    → IsRing t
    → t.icanon ≡ true
    → dist t.fbase t.loff + 2 < tty_buff_len
    → Queues
        (petix_tty_input_seq beyond c [] t)
        (sent_after c (available t) (line t))
        (held_after c (line t))
input_seq-Queues beyond c t v canon room = elim (Bool-cases (c == 8 || c == 127)) [
  | inl y ↦
      let z : (c == 10) ≡ false = ground arith in
      let z' : (c == 4) ≡ false = ground arith in
      elim (Bool-cases (t.loff == t.lbase)) [
        | inl e ↦
            let no_line : line t ≡ [] =
              ap (span t.buffer t.lbase) {x = dist t.lbase t.loff} {y = 0}
                (omega (arith, ==→eq t.loff t.lbase e, v.l_small)) in
            as_Queues (petix_tty_input_seq beyond c [] t) t _ (available t) _ []
              (run_erase beyond c t y ∙ erase_empty beyond t (==→eq t.loff t.lbase e))
              (rw (z, z') refl) (rw y (ap drop_last no_line))
              (record { ring = v; sent_is = refl; held_is = no_line })
        | inr n ↦
            let (x, held, e, q) = erase-Queues beyond t v (==→ne t.loff t.lbase n) in
            as_Queues (petix_tty_input_seq beyond c [] t) (erase beyond t) _ (available t) _ held
              (run_erase beyond c t y) (rw (z, z') refl)
              (rw y (ap drop_last e ∙ drop_last_snoc held x)) q
      ]
  | inr n ↦ elim (Bool-cases (c == 4)) [
    | inl eot ↦
        let z : (c == 10) ≡ false = ground arith in
        as_Queues (petix_tty_input_seq beyond c [] t) (send t) _
          (available t ++ (line t ++ send_char ∷ [])) _ [] (run_end_of_input beyond c t n eot canon)
          (rw (z, eot) refl) (rw (n, z, eot) refl) (send-Queues t v (omega (arith, room)))
    | inr z ↦
        let q =
          echoed-Queues beyond (c ∷ []) t.echo (put_byte c t) (available t) (line t ++ c ∷ [])
            (put_byte-Queues c t v (omega (arith, room))) in
        elim (Bool-cases (c == 10)) [
          | inl nl ↦
              let r =
                send-Queues (echoed beyond c t) (q.0).ring
                  (omega (arith, q.1, put_byte_room c t v (omega (arith, room)), room)) in
              as_Queues (petix_tty_input_seq beyond c [] t) (send (echoed beyond c t)) _
                (available (echoed beyond c t) ++ (line (echoed beyond c t) ++ send_char ∷ [])) _ []
                (run_byte beyond c t n z canon ∙ rw nl refl)
                (rw nl (
                  ap₂ (λ a l. a ++ (l ++ send_char ∷ [])) (sym (q.0).sent_is)
                    (ap (λ k. line t ++ k ∷ []) (sym (==→eq c 10 nl)) ∙ sym (q.0).held_is)))
                (rw (n, nl) refl) r
          | inr plain ↦
              as_Queues (petix_tty_input_seq beyond c [] t) (echoed beyond c t) _ (available t) _
                (line t ++ c ∷ []) (run_byte beyond c t n z canon ∙ rw plain refl)
                (rw (plain, z) refl) (rw (n, plain, z) refl) (q.0)
        ]
  ]
]
