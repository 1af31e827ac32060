-- ===== src/Kernel/Pipe/Delivery.antt =====
-- A pipe delivers what was written, in order, and the two processes never wait for one another.
use petix.Prelude.{
  ℕ, zero, suc, ◌+◌, ◌%◌, ◌≡◌, refl, ◌∙◌, ap, subst, sym, ◌⊎◌, Bool, true, false, List, [], ◌∷◌,
  ◌++◌, append-nil, append_assoc, arith, length-replicate,
}
use petix.Kernel.Pipe.{Pipe, pipe_size}
use petix.Kernel.Pipe.Ring.{
  contents, IsRing, ReadTurned, read_turn-ReadTurned, WriteTurned, write_turn-WriteTurned,
}
use petix.Kernel.Pipe.System.{
  Reader, Writer, System, after_read, after_write, test_oread, reads, writes, closes_reader,
  closes_writer, Step, call_read, turn_read, wake_reader, close_reader, call_write, check_write,
  turn_write, wake_writer, close_writer, start, Reach, here, next,
}

-- The bytes of the writer's call that are not in the pipe yet.
abbrev pub pending : Writer → List ℕ
pending Writer.idle = []
pending (Writer.looping bs) = bs
pending (Writer.checked bs) = bs
pending (Writer.waiting bs) = bs
pending Writer.gone = []

-- A reader that is to sleep has found nothing to read, and a writer can still come.
abbrev pub ReaderSleeps : Reader → Pipe → Type 0
ReaderSleeps (Reader.waiting count) p = p.rcond ≡ 0 → (p.hi ≡ p.lo) × (p.owrite ≡ true)
ReaderSleeps _ p = Unit

-- A writer that is to sleep has found the pipe full, and the reader can still come.
abbrev pub WriterSleeps : Writer → Pipe → Type 0
WriterSleeps (Writer.waiting bs) p =
    p.wcond ≡ 0 → ((p.hi + 1) % pipe_size ≡ p.lo) × (p.oread ≡ true)
WriterSleeps (Writer.checked bs) p = p.wcond ≡ 0 → p.oread ≡ true
WriterSleeps _ p = Unit

abbrev pub ReaderOpen : Reader → Pipe → Type 0
ReaderOpen Reader.gone p = Unit
ReaderOpen _ p = p.oread ≡ true

pub record Inv (p : Pipe) (r : Reader) (w : Writer) (asked got : List ℕ) : Type 0 where
  pub ring : IsRing p
  pub order : p.oread ≡ true → asked ≡ got ++ contents p ++ pending w
  pub prefix : (later : List ℕ) × (asked ≡ got ++ later)
  pub reader_open : ReaderOpen r p
  pub reader_sleeps : ReaderSleeps r p
  pub writer_sleeps : WriterSleeps w p

abbrev pub IsSound : System → Type 0
IsSound s = Inv s.pipe s.reader s.writer s.asked s.got

start-IsSound : IsSound start
unfolding start
start-IsSound = record {
  ring = record {
    lo_in = omega arith;
    hi_in = omega arith;
    storage = length-replicate {A = ℕ} pipe_size 0;
  };
  order = λ _. refl;
  prefix = ([], refl);
  reader_open = refl;
  reader_sleeps = tt;
  writer_sleeps = tt;
}

writer_part :
    (w : Writer) (p q : Pipe)
    → WriterSleeps w p
    → q.oread ≡ p.oread
    → (q.wcond ≡ 1) ⊎ ((q.wcond ≡ p.wcond) × ((q.hi + 1) % pipe_size ≡ q.lo))
    → WriterSleeps w q
writer_part (Writer.waiting bs) p q h e k = ground arith
writer_part (Writer.checked bs) p q h e k = ground arith
writer_part _ p q h e k = tt

reader_part :
    (eof : Bool) (rest : ℕ) (p q : Pipe) {got got' : List ℕ}
    → ReadTurned p got q rest got' eof
    → q.oread ≡ true
    → ReaderOpen (after_read eof rest) q × ReaderSleeps (after_read eof rest) q
reader_part true rest p q t o = (o, tt)
reader_part false zero p q t o = (o, tt)
reader_part false (suc rest) p q t o = (o, ground arith)

read_keeps :
    {p q : Pipe} (count rest : ℕ) (w : Writer) (asked got got' : List ℕ) (eof : Bool)
    → Inv p (Reader.looping count) w asked got
    → ReadTurned p got q rest got' eof
    → Inv q (after_read eof rest) w asked got'
read_keeps {p} {q} count rest w asked got got' eof v t = record {
  ring = t.ring;
  order = λ _. whole;
  prefix = (contents q ++ pending w, whole ∙ append_assoc got' (contents q) (pending w));
  reader_open = parts.0;
  reader_sleeps = parts.1;
  writer_sleeps = writer_part w p q v.writer_sleeps t.same_oread t.wakes;
}
  where
    open_q : q.oread ≡ true
    open_q = t.same_oread ∙ v.reader_open

    whole : asked ≡ got' ++ contents q ++ pending w
    whole = v.order v.reader_open ∙ ap (λ l. l ++ pending w) t.bytes

    parts : ReaderOpen (after_read eof rest) q × ReaderSleeps (after_read eof rest) q
    parts = reader_part eof rest p q t open_q

reader_kept :
    (r : Reader) (p q : Pipe)
    → ReaderOpen r p × ReaderSleeps r p
    → q.oread ≡ p.oread
    → q.owrite ≡ p.owrite
    → (q.rcond ≡ 1) ⊎ ((q.rcond ≡ p.rcond) × (q.hi ≡ q.lo))
    → ReaderOpen r q × ReaderSleeps r q
reader_kept Reader.idle p q h e f k = ground arith
reader_kept (Reader.looping count) p q h e f k = ground arith
reader_kept (Reader.waiting count) p q h e f k = ground arith
reader_kept Reader.gone p q h e f k = (tt, tt)

pending-after_write : (rest : List ℕ) → pending (after_write rest) ≡ rest
pending-after_write [] = refl
pending-after_write (b ∷ bs) = refl

writer_waits :
    (rest : List ℕ) (q : Pipe)
    → (rest ≡ []) ⊎ ((q.hi + 1) % pipe_size ≡ q.lo)
    → (q.wcond ≡ 0 → q.oread ≡ true)
    → WriterSleeps (after_write rest) q
writer_waits [] q h k = tt
writer_waits (b ∷ bs) q h k = ground arith

write_keeps :
    {p q : Pipe} (r : Reader) (bs rest : List ℕ) (asked got : List ℕ)
    → Inv p r (Writer.checked bs) asked got
    → WriteTurned p bs q rest
    → Inv q r (after_write rest) asked got
write_keeps {p} {q} r bs rest asked got v t =
    let kept =
      reader_kept r p q (v.reader_open, v.reader_sleeps) t.same_oread t.same_owrite t.wakes in
    record {
      ring = t.ring;
      order = λ o.
          v.order (sym t.same_oread ∙ o)
          ∙ append_assoc got (contents p) bs
          ∙ ap (λ l. got ++ l) t.bytes
          ∙ sym (append_assoc got (contents q) rest)
          ∙ ap (λ l. got ++ contents q ++ l) (sym (pending-after_write rest));
      prefix = v.prefix;
      reader_open = kept.0;
      reader_sleeps = kept.1;
      writer_sleeps = writer_waits rest q t.stops (ground (arith, v.writer_sleeps));
    }

reader_awake :
    (r : Reader) (p q : Pipe)
    → ReaderOpen r p
    → q.oread ≡ p.oread
    → q.rcond ≡ 1
    → ReaderOpen r q × ReaderSleeps r q
reader_awake Reader.idle p q h e k = ground arith
reader_awake (Reader.looping count) p q h e k = ground arith
reader_awake (Reader.waiting count) p q h e k = ground arith
reader_awake Reader.gone p q h e k = (tt, tt)

writer_awake : (w : Writer) (p : Pipe) → p.wcond ≡ 1 → WriterSleeps w p
writer_awake (Writer.waiting bs) p h = ground arith
writer_awake (Writer.checked bs) p h = ground arith
writer_awake _ p h = tt

writes-IsSound :
    (s : System) (bs : List ℕ)
    → Inv s.pipe s.reader (Writer.checked bs) s.asked s.got
    → IsSound (writes bs s)
unfolding writes
writes-IsSound s bs v =
    write_keeps s.reader bs _ s.asked s.got v (write_turn-WriteTurned bs s.pipe v.ring)

reads-IsSound :
    (s : System) (count : ℕ)
    → Inv s.pipe (Reader.looping count) s.writer s.asked s.got
    → IsSound (reads count s)
unfolding reads
reads-IsSound s zero v = ground (arith, v)
reads-IsSound s (suc count) v =
    read_keeps (suc count) _ s.writer s.asked s.got _ _ v
      (read_turn-ReadTurned (suc count) s.pipe s.got v.ring)

test_oread-Inv :
    (o : Bool) (p : Pipe) (r : Reader) (bs asked got : List ℕ)
    → p.oread ≡ o
    → Inv p r (Writer.looping bs) asked got
    → Inv p r (test_oread o bs) asked got
test_oread-Inv o p r [] asked got e v = ground (arith, v)
test_oread-Inv true p r (b ∷ bs) asked got e v = ground (arith, v)
test_oread-Inv false p r (b ∷ bs) asked got e v = ground (arith, v)

closes_reader-IsSound : (s : System) → IsSound s → IsSound (closes_reader s)
unfolding closes_reader
closes_reader-IsSound s v = record {
  ring = record { lo_in = v.ring.lo_in; hi_in = v.ring.hi_in; storage = v.ring.storage };
  order = λ o. cc;
  prefix = v.prefix;
  reader_open = tt;
  reader_sleeps = tt;
  writer_sleeps = writer_awake s.writer (closes_reader s).pipe refl;
}

closes_writer-IsSound :
    (s : System) → Inv s.pipe s.reader Writer.idle s.asked s.got → IsSound (closes_writer s)
unfolding closes_writer
closes_writer-IsSound s v =
    let kept = reader_awake s.reader s.pipe (closes_writer s).pipe v.reader_open refl refl in
    record {
      ring = record { lo_in = v.ring.lo_in; hi_in = v.ring.hi_in; storage = v.ring.storage };
      order = v.order;
      prefix = v.prefix;
      reader_open = kept.0;
      reader_sleeps = kept.1;
      writer_sleeps = tt;
    }

reader_at :
    (s : System) {r : Reader} → s.reader ≡ r → IsSound s → Inv s.pipe r s.writer s.asked s.got
reader_at s e v = subst (λ r. Inv s.pipe r s.writer s.asked s.got) e v

writer_at :
    (s : System) {w : Writer} → s.writer ≡ w → IsSound s → Inv s.pipe s.reader w s.asked s.got
writer_at s e v = subst (λ w. Inv s.pipe s.reader w s.asked s.got) e v

Step-IsSound : {s t : System} → Step s t → IsSound s → IsSound t
Step-IsSound (call_read s count e) v = let u = reader_at s e v in ground (arith, u)
Step-IsSound (turn_read s count e) v = reads-IsSound s count (reader_at s e v)
Step-IsSound (wake_reader s count units e k) v = let u = reader_at s e v in ground (arith, u)
Step-IsSound (close_reader s e) v = closes_reader-IsSound s v
Step-IsSound (call_write s bs e) v =
    let u = writer_at s e v in
    record {
      ring = u.ring;
      order = λ o. ap (λ l. l ++ bs) (u.order o ∙ append-nil (s.got ++ contents s.pipe));
      prefix = (v.prefix.0 ++ bs, ap (λ l. l ++ bs) v.prefix.1 ∙ append_assoc s.got v.prefix.0 bs);
      reader_open = u.reader_open;
      reader_sleeps = u.reader_sleeps;
      writer_sleeps = tt;
    }
Step-IsSound (check_write s bs e) v =
    test_oread-Inv s.pipe.oread s.pipe s.reader bs s.asked s.got refl (writer_at s e v)
Step-IsSound (turn_write s bs e) v = writes-IsSound s bs (writer_at s e v)
Step-IsSound (wake_writer s bs units e k) v = let u = writer_at s e v in ground (arith, u)
Step-IsSound (close_writer s e) v = closes_writer-IsSound s (writer_at s e v)

Reach-IsSound : {s : System} → Reach s → IsSound s
Reach-IsSound here = start-IsSound
Reach-IsSound (next r st) = Step-IsSound st (Reach-IsSound r)

-- In every reachable state of one reader and one writer, what was read is a prefix of what was
-- written, in order. While the reading end is open nothing is lost: what `pwrite` was called with
-- is what was read, then what the pipe holds, then what the call still has to write.
pub delivery :
    {s : System}
    → Reach s
    → ((later : List ℕ) × (s.asked ≡ s.got ++ later))
      × (s.pipe.oread ≡ true → s.asked ≡ s.got ++ contents s.pipe ++ pending s.writer)
delivery r = let v = Reach-IsSound r in (v.prefix, v.order)

-- In every reachable state a reader in `cond_wait` with nothing to take is at an empty pipe whose
-- writer has not closed, and a writer there is at a full pipe whose reader has not closed, so that
-- no wakeup is lost; the two are never both there.
pub no_lost_wakeup :
    {s : System}
    → Reach s
    → (count : ℕ) (bs : List ℕ)
    → ((s.reader ≡ Reader.waiting count) × (s.pipe.rcond ≡ 0)
        → (s.pipe.hi ≡ s.pipe.lo) × (s.pipe.owrite ≡ true))
      × ((s.writer ≡ Writer.waiting bs) × (s.pipe.wcond ≡ 0)
          → ((s.pipe.hi + 1) % pipe_size ≡ s.pipe.lo) × (s.pipe.oread ≡ true))
      × ¬ (
          (s.reader ≡ Reader.waiting count)
          × (s.pipe.rcond ≡ 0)
          × (s.writer ≡ Writer.waiting bs)
          × (s.pipe.wcond ≡ 0))
no_lost_wakeup {s} r count bs = (
  reader_part',
  writer_part',
  λ h.
      let a = reader_part' (h.0, h.1) in
      let b = writer_part' (h.2, h.3) in absurd (omega (arith, v.ring.lo_in)),
)
  where
    v : IsSound s
    v = Reach-IsSound r

    reader_part' :
        (s.reader ≡ Reader.waiting count) × (s.pipe.rcond ≡ 0)
        → (s.pipe.hi ≡ s.pipe.lo) × (s.pipe.owrite ≡ true)
    reader_part' h = (reader_at s h.0 v).reader_sleeps h.1

    writer_part' :
        (s.writer ≡ Writer.waiting bs) × (s.pipe.wcond ≡ 0)
        → ((s.pipe.hi + 1) % pipe_size ≡ s.pipe.lo) × (s.pipe.oread ≡ true)
    writer_part' h = (writer_at s h.0 v).writer_sleeps h.1
