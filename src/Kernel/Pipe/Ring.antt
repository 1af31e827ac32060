-- ===== src/Kernel/Pipe/Ring.antt =====
-- The bytes that a pipe holds, and what the two loops do to them.
use petix.Prelude.{
  ℕ, zero, suc, ◌+◌, ◌-◌, ◌%◌, ◌<◌, ◌≡◌, refl, ◌≢◌, ◌∙◌, ap, ap₂, sym, ◌⊎◌, inl, inr, Bool, true,
  false, List, [], ◌∷◌, ◌++◌, append_assoc, arith, ◌==◌, get_or, set, length, length-set,
  length-append, get_or-set_self, get_or-set_ne, ==→ne, Bool-cases,
}
use petix.Kernel.Pipe.{Pipe, pipe_size, drain, fill, read_turn, write_turn}

-- The `n` bytes from index `lo` on, round the end of the buffer.
abbrev pub span : List ℕ → ℕ → ℕ → List ℕ
span buf lo zero = []
span buf lo (suc n) = get_or buf lo 0 ∷ span buf ((lo + 1) % pipe_size) n

abbrev pub held : Pipe → ℕ
held p = (p.hi + pipe_size - p.lo) % pipe_size

abbrev pub contents : Pipe → List ℕ
contents p = span p.buffer p.lo (held p)

-- Both indices stay inside the buffer.
pub record IsRing (p : Pipe) : Type 0 where
  pub lo_in : p.lo < pipe_size
  pub hi_in : p.hi < pipe_size
  pub storage : length p.buffer ≡ pipe_size

pub length-span : (buf : List ℕ) (lo n : ℕ) → length (span buf lo n) ≡ n
length-span buf lo zero = refl
length-span buf lo (suc n) = ap suc (length-span buf ((lo + 1) % pipe_size) n)

span_of_pos :
    (buf : List ℕ) (lo n : ℕ)
    → n ≢ 0
    → span buf lo n ≡ get_or buf lo 0 ∷ span buf ((lo + 1) % pipe_size) (n - 1)
span_of_pos buf lo zero h = absurd (h refl)
span_of_pos buf lo (suc n) h = ap (λ k. span buf lo (suc k)) (omega arith)

-- A write just behind the held bytes appends one.
span-set :
    (buf : List ℕ) (x n lo hi : ℕ)
    → length buf ≡ pipe_size
    → lo < pipe_size
    → suc n < pipe_size
    → hi ≡ (lo + n) % pipe_size
    → span (set buf hi x) lo (suc n) ≡ span buf lo n ++ x ∷ []
span-set buf x zero lo hi st l h e =
    let e' : hi ≡ lo = omega arith in
    ap (λ (y : ℕ). y ∷ [])
      (ap (λ k. get_or (set buf hi x) k 0) (sym e') ∙ get_or-set_self buf hi x 0 (omega arith))
span-set buf x (suc n) lo hi st l h e =
    ap₂ ◌∷◌ (get_or-set_ne buf hi lo x 0 (omega arith))
      (span-set buf x n ((lo + 1) % pipe_size) hi st (omega arith) (omega arith) (omega arith))

pub contents-pop :
    (p : Pipe)
    → IsRing p
    → p.hi ≢ p.lo
    → contents p ≡ get_or p.buffer p.lo 0 ∷ contents (record p { lo = (p.lo + 1) % pipe_size })
contents-pop p v h =
    span_of_pos p.buffer p.lo (held p) (omega arith)
    ∙ ap (λ k. get_or p.buffer p.lo 0 ∷ span p.buffer ((p.lo + 1) % pipe_size) k) (omega arith)

pub contents-push :
    (p : Pipe) (x : ℕ)
    → IsRing p
    → (p.hi + 1) % pipe_size ≢ p.lo
    → contents (record p { buffer = set p.buffer p.hi x; hi = (p.hi + 1) % pipe_size })
      ≡ contents p ++ x ∷ []
contents-push p x v h =
    ap (λ k. span (set p.buffer p.hi x) p.lo k) {y = suc (held p)} (omega arith)
    ∙ span-set p.buffer x (held p) p.lo p.hi v.storage v.lo_in (omega arith) (omega arith)

pub contents_of_eq : (p : Pipe) → IsRing p → p.hi ≡ p.lo → contents p ≡ []
contents_of_eq p v h = ap (λ k. span p.buffer p.lo k) {y = 0} (omega arith)

-- What the loop of `pread` leaves, started with the bytes `got` already read.
pub record Drained (p : Pipe) (count : ℕ) (got : List ℕ) (out : Pipe × ℕ × List ℕ) : Type 0 where
  pub ring : IsRing out.0
  pub bytes : got ++ contents p ≡ out.2 ++ contents out.0
  pub counted : out.1 + length out.2 ≡ count + length got
  pub stops : (out.1 ≡ 0) ⊎ (out.0.hi ≡ out.0.lo)
  pub level : held out.0 + length out.2 ≡ held p + length got
  pub same_owrite : out.0.owrite ≡ p.owrite
  pub same_oread : out.0.oread ≡ p.oread
  pub same_rcond : out.0.rcond ≡ p.rcond
  pub same_wcond : out.0.wcond ≡ p.wcond

pub drain-Drained :
    (count : ℕ) (p : Pipe) (got : List ℕ) → IsRing p → Drained p count got (drain count p got)
unfolding drain
drain-Drained zero p got v = ground arith
drain-Drained (suc count) p got v = elim (Bool-cases (p.hi == p.lo)) [
  | inl e ↦ ground arith
  | inr e ↦
      let x : ℕ = get_or p.buffer p.lo 0 in
      let q : Pipe = record p { lo = (p.lo + 1) % pipe_size } in
      let w : IsRing q = record { lo_in = omega arith; hi_in = v.hi_in; storage = v.storage } in
      ground (
        arith,
        drain-Drained count q (got ++ x ∷ []) w,
        contents-pop p v (==→ne _ _ e),
        append_assoc got (x ∷ []) (contents q),
        length-append got (x ∷ []),
      )
]

-- What the loop of `pwrite` leaves.
pub record Filled (p : Pipe) (bs : List ℕ) (out : Pipe × List ℕ) : Type 0 where
  pub ring : IsRing out.0
  pub bytes : contents p ++ bs ≡ contents out.0 ++ out.1
  pub stops : (out.1 ≡ []) ⊎ ((out.0.hi + 1) % pipe_size ≡ out.0.lo)
  pub same_owrite : out.0.owrite ≡ p.owrite
  pub same_oread : out.0.oread ≡ p.oread
  pub same_rcond : out.0.rcond ≡ p.rcond
  pub same_wcond : out.0.wcond ≡ p.wcond

pub fill-Filled : (bs : List ℕ) (p : Pipe) → IsRing p → Filled p bs (fill bs p)
unfolding fill
fill-Filled [] p v = ground arith
fill-Filled (b ∷ bs) p v = elim (Bool-cases ((p.hi + 1) % pipe_size == p.lo)) [
  | inl e ↦ ground arith
  | inr e ↦
      let q : Pipe = record p { buffer = set p.buffer p.hi b; hi = (p.hi + 1) % pipe_size } in
      let w : IsRing q = record {
        lo_in = v.lo_in;
        hi_in = omega arith;
        storage = length-set p.buffer p.hi b ∙ v.storage;
      } in
      ground (
        arith,
        fill-Filled bs q w,
        contents-push p b v (==→ne _ _ e),
        append_assoc (contents p) (b ∷ []) bs,
      )
]

-- What a turn of `pread` leaves: the writer is woken unless the pipe is full still, and a call that
-- does not return has its count or waits at an empty pipe with an open writer.
pub record ReadTurned (p : Pipe) (got : List ℕ) (q : Pipe) (rest : ℕ) (got' : List ℕ) (eof : Bool)
    : Type 0 where
  pub ring : IsRing q
  pub bytes : got ++ contents p ≡ got' ++ contents q
  pub same_owrite : q.owrite ≡ p.owrite
  pub same_oread : q.oread ≡ p.oread
  pub same_rcond : q.rcond ≡ p.rcond
  pub wakes : (q.wcond ≡ 1) ⊎ ((q.wcond ≡ p.wcond) × ((q.hi + 1) % pipe_size ≡ q.lo))
  pub ends : eof ≡ true → (q.owrite ≡ false) × (contents q ≡ [])
  pub stops : eof ≡ false → (rest ≡ 0) ⊎ ((q.hi ≡ q.lo) × (q.owrite ≡ true))

pub read_turn-ReadTurned :
    (count : ℕ) (p : Pipe) (got : List ℕ)
    → IsRing p
    → let (q, rest, got', eof) = read_turn count p got in ReadTurned p got q rest got' eof
unfolding read_turn
read_turn-ReadTurned count p got v =
    let d = drain-Drained count p got v in
    ground (arith, d, contents_of_eq (drain count p got).0 d.ring)

pub record WriteTurned (p : Pipe) (bs : List ℕ) (q : Pipe) (rest : List ℕ) : Type 0 where
  pub ring : IsRing q
  pub bytes : contents p ++ bs ≡ contents q ++ rest
  pub same_owrite : q.owrite ≡ p.owrite
  pub same_oread : q.oread ≡ p.oread
  pub same_wcond : q.wcond ≡ p.wcond
  pub wakes : (q.rcond ≡ 1) ⊎ ((q.rcond ≡ p.rcond) × (q.hi ≡ q.lo))
  pub stops : (rest ≡ []) ⊎ ((q.hi + 1) % pipe_size ≡ q.lo)

pub write_turn-WriteTurned :
    (bs : List ℕ) (p : Pipe) → IsRing p → let (q, rest) = write_turn bs p in WriteTurned p bs q rest
unfolding write_turn
write_turn-WriteTurned bs p v = let d = fill-Filled bs p v in ground (arith, d)
