-- ===== src/Libc/Stdio/Rounds.antt =====
-- One round of the loop of `fread` after another.
use petix.Prelude.{
  ℕ, zero, suc, ◌+◌, ◌-◌, ◌≤◌, ◌<◌, ◌≡◌, ◌≢◌, refl, ◌∙◌, ap, sym, subst, Bool, true, false, List,
  [], ◌∷◌, ◌++◌, some, ltb, ◌==◌, length, arith, Bool-cases, inl, inr, ◌⊎◌, append_assoc,
  append-nil, length-append, take, drop, min, length-take, length-drop, take-append-drop, drop-drop,
  drop-length, ==→eq, ==→ne,
}
use petix.Libc.Stdio.{bufsiz, Stream, Device, fread_loop}

-- A device that reads without errors what `rest` says, as a regular file does: at most what it is
-- asked for, and nothing only at its end.
pub record ReadsOn {D : Type 0} (dev : Device D) (rest : D → List ℕ) : Type 0 where
  pub given : ℕ → D → List ℕ
  pub answers : (n : ℕ) (d : D) → (dev.read n d).1 ≡ some (given n d)
  pub moves : (n : ℕ) (d : D) → rest d ≡ given n d ++ rest (dev.read n d).0
  pub bounded : (n : ℕ) (d : D) → length (given n d) ≤ n
  pub ends : (n : ℕ) (d : D) → 0 < n → given n d ≡ [] → rest d ≡ []

-- What is still to be read: the rest of the buffer, and then that of the device.
abbrev pub unread : {D : Type 0} → (D → List ℕ) → Stream → D → List ℕ
unread rest s d = drop s.start s.buffer ++ rest d

-- What the loop does when it has copied `out` and is to copy `total` bytes more.
pub record Got {D : Type 0} (rest : D → List ℕ) (total : ℕ) (out : List ℕ) (s : Stream) (d : D)
    (t : Bool × ℕ × List ℕ × Stream × D) : Type 0 where
  pub fine : t.0 ≡ true
  pub more : List ℕ
  pub copied : t.2 ≡ out ++ more
  pub in_order : unread rest s d ≡ more ++ unread rest t.3 t.4
  pub count : length more + t.1 ≡ total
  pub short : (t.1 ≡ 0) ⊎ ((unread rest t.3 t.4 ≡ []) ⊎ (bufsiz < total))

module _ {D : Type 0} (dev : Device D) (rest : D → List ℕ) (r : ReadsOn dev rest) where
  abbrev taken : ℕ → Stream → ℕ
  taken total s = min (length s.buffer - s.start) total

  abbrev front : ℕ → Stream → List ℕ
  front total s = take (taken total s) (drop s.start s.buffer)

  abbrev past : ℕ → Stream → Stream
  past total s = record s { start = s.start + taken total s }

  past-unread :
      (total : ℕ) (s : Stream) (d : D)
      → unread rest s d ≡ front total s ++ unread rest (past total s) d
  past-unread total s d =
      ap (λ l. l ++ rest d)
        (sym (take-append-drop (taken total s) (drop s.start s.buffer))
          ∙ ap (λ l. front total s ++ l) (drop-drop s.start (taken total s) s.buffer))
      ∙ append_assoc (front total s) (drop (s.start + taken total s) s.buffer) (rest d)

  length-front : (total : ℕ) (s : Stream) → length (front total s) ≡ taken total s
  length-front total s =
      omega
        (arith, length-take (taken total s) (drop s.start s.buffer), length-drop s.start s.buffer)

  -- When the buffer is used up, what is unread is that of the device.
  used_up :
      (total : ℕ) (s : Stream) (d : D)
      → total - taken total s ≢ 0
      → unread rest (past total s) d ≡ rest d
  used_up total s d h =
      ap (λ l. l ++ rest d) (drop-length (s.start + taken total s) s.buffer (omega arith))

  -- Enough rounds: one for each byte, and one to fill an empty buffer.
  abbrev Enough : ℕ → ℕ → Stream → Type 0
  Enough rounds total s =
      (total + 1 ≤ rounds) ⊎ ((0 < total) × (total ≤ rounds) × (s.start < length s.buffer))

  -- One round of the loop, by its branches.
  module _ (rounds total : ℕ) (out : List ℕ) (s : Stream) (d : D) where
    abbrev left : ℕ
    left = total - taken total s

    abbrev run : Bool × ℕ × List ℕ × Stream × D
    run = fread_loop dev (suc rounds) total out s d

    run-zero : (total == 0) ≡ true → run ≡ (true, 0, out, s, d)
    unfolding fread_loop
    run-zero z = rw z refl

    run-direct :
        (total == 0) ≡ false
        → ltb bufsiz left ≡ true
        → run ≡ (
          true,
          left - length (r.given left d),
          (out ++ front total s) ++ r.given left d,
          past total s,
          (dev.read left d).0,
        )
    unfolding fread_loop
    run-direct nz large = rw (nz, large, r.answers left d) refl

    run-full :
        (total == 0) ≡ false
        → ltb bufsiz left ≡ false
        → (left == 0) ≡ true
        → run ≡ (true, 0, out ++ front total s, past total s, d)
    unfolding fread_loop
    run-full nz small full = rw (nz, small, full) refl

    run-end :
        (total == 0) ≡ false
        → ltb bufsiz left ≡ false
        → (left == 0) ≡ false
        → r.given bufsiz d ≡ []
        → run ≡ (
          true,
          left,
          out ++ front total s,
          record (past total s) { start = 0; buffer = [] },
          (dev.read bufsiz d).0,
        )
    unfolding fread_loop
    run-end nz small part e = rw (nz, small, part, r.answers bufsiz d, e) refl

    run-refill :
        (b : ℕ) (bs : List ℕ)
        → (total == 0) ≡ false
        → ltb bufsiz left ≡ false
        → (left == 0) ≡ false
        → r.given bufsiz d ≡ b ∷ bs
        → run
          ≡ fread_loop dev rounds left
              (out ++ front total s)
              (record (past total s) { start = 0; buffer = b ∷ bs })
              (dev.read bufsiz d).0
    unfolding fread_loop
    run-refill b bs nz small part e = rw (nz, small, part, r.answers bufsiz d, e) refl

  -- The bytes of the buffer come first, and then what was read.
  joined :
      (total : ℕ) (s : Stream) (d : D) (xs ys : List ℕ)
      → total - taken total s ≢ 0
      → rest d ≡ xs ++ ys
      → unread rest s d ≡ (front total s ++ xs) ++ ys
  joined total s d xs ys h e =
      past-unread total s d
      ∙ ap (λ l. front total s ++ l) (used_up total s d h ∙ e)
      ∙ sym (append_assoc (front total s) xs ys)

  pub loop-Got :
      (rounds total : ℕ) (out : List ℕ) (s : Stream) (d : D)
      → Enough rounds total s
      → Got rest total out s d (fread_loop dev rounds total out s d)
  loop-Got zero total out s d e = absurd (omega arith)
  loop-Got (suc rounds) total out s d e = elim (Bool-cases (total == 0)) [
    | inl z ↦ subst (Got rest total out s d) (sym (run-zero rounds total out s d z)) record {
      fine = refl;
      more = [];
      copied = sym (append-nil out);
      in_order = refl;
      count = omega (arith, ==→eq total 0 z);
      short = inl refl;
    }
    | inr nz ↦ elim (Bool-cases (ltb bufsiz (total - taken total s))) [
      | inl large ↦
          let m = total - taken total s in
          let nonzero : m ≢ 0 = ground arith in
          let bs = r.given m d in
          subst (Got rest total out s d) (sym (run-direct rounds total out s d nz large)) record {
            fine = refl;
            more = front total s ++ bs;
            copied = append_assoc out (front total s) bs;
            in_order =
                joined total s d bs (rest (dev.read m d).0) nonzero (r.moves m d)
                ∙ ap (λ l. (front total s ++ bs) ++ l)
                    (sym (used_up total s (dev.read m d).0 nonzero));
            count =
                omega
                  (arith, length-append (front total s) bs, length-front total s, r.bounded m d);
            short = inr (inr (ground arith));
          }
      | inr small ↦ elim (Bool-cases (total - taken total s == 0)) [
        | inl full ↦
            subst (Got rest total out s d) (sym (run-full rounds total out s d nz small full))
              record {
                fine = refl;
                more = front total s;
                copied = refl;
                in_order = past-unread total s d;
                count = omega (arith, length-front total s, ==→eq _ 0 full);
                short = inl refl;
              }
        | inr part ↦
            refill
              (λ s1 d1 enough.
                loop-Got rounds (total - taken total s) (out ++ front total s) s1 d1 enough)
              (r.given bufsiz d) nz small part refl
      ]
    ]
  ]
    where
      refill :
          ((s1 : Stream) (d1 : D)
            → Enough rounds (total - taken total s) s1
            → Got rest
                (total - taken total s)
                (out ++ front total s)
                s1
                d1
                (fread_loop dev rounds (total - taken total s) (out ++ front total s) s1 d1))
          → (bs : List ℕ) → (total == 0) ≡ false
          → ltb bufsiz (total - taken total s) ≡ false
          → (total - taken total s == 0) ≡ false
          → r.given bufsiz d ≡ bs
          → Got rest total out s d (fread_loop dev (suc rounds) total out s d)
      refill ih [] nz small part g =
          let d1 = (dev.read bufsiz d).0 in
          let same : rest d ≡ rest d1 = r.moves bufsiz d ∙ ap (λ l. l ++ rest d1) g in
          let nonzero = ==→ne (total - taken total s) 0 part in
          subst (Got rest total out s d) (sym (run-end rounds total out s d nz small part g))
            record {
              fine = refl;
              more = front total s;
              copied = refl;
              in_order =
                  past-unread total s d
                  ∙ ap (λ l. front total s ++ l) (used_up total s d nonzero ∙ same);
              count = omega (arith, length-front total s);
              short = inr (inl (sym same ∙ r.ends bufsiz d (omega arith) g));
            }
      refill ih (b ∷ bs) nz small part g =
          let d1 = (dev.read bufsiz d).0 in
          let s1 = record (past total s) { start = 0; buffer = b ∷ bs } in
          let here : rest d ≡ unread rest s1 d1 = r.moves bufsiz d ∙ ap (λ l. l ++ rest d1) g in
          let nonzero = ==→ne (total - taken total s) 0 part in
          let got = ih s1 d1 (inr (omega arith, ground arith, omega arith)) in
          subst (Got rest total out s d)
            (sym (run-refill rounds total out s d b bs nz small part g))
            record {
              fine = got.fine;
              more = front total s ++ got.more;
              copied = got.copied ∙ append_assoc out (front total s) got.more;
              in_order = joined total s d got.more _ nonzero (here ∙ got.in_order);
              count =
                  omega (
                    arith,
                    length-append (front total s) got.more,
                    length-front total s,
                    got.count,
                  );
              short = elim got.short [
                | inl e ↦ inl e
                | inr (inl e) ↦ inr (inl e)
                | inr (inr e) ↦ inr (inr (omega arith))
              ];
            }
