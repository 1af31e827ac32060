-- ===== src/Libc/Stdio/Write.antt =====
-- What is written to a stream reaches its device in order, but for what the buffer still holds.
use petix.Prelude.{
  subst, ℕ, ◌+◌, ◌≤◌, ◌≡◌, refl, ◌∙◌, ap, sym, true, false, not, ◌&&◌, List, [], ◌++◌, Option, some,
  leb, ◌==◌, if◌then◌else◌, length, arith, Bool-cases, inl, inr, append_assoc, append-nil,
  length-append,
}
use petix.Libc.Stdio.{
  bufsiz, Stream, Device, is_unbuffered, is_line, has_newline, write_through, write_both, fwrite,
  fflush,
}

-- The buffer has at most its size, and none is kept where there is none.
pub record IsStream (s : Stream) : Type 0 where
  pub valid : s.valid ≡ true
  pub small : length s.buffer ≤ bufsiz
  pub none_kept : is_unbuffered s.bf ≡ true → s.buffer ≡ []

-- A device that writes all that it is given, as a regular file does. `sent` is what it has got.
pub record WritesAll {D : Type 0} (dev : Device D) (sent : D → List ℕ) : Type 0 where
  pub whole : (bs : List ℕ) (d : D) → (dev.write bs d).1 ≡ some (length bs)
  pub in_order : (bs : List ℕ) (d : D) → sent (dev.write bs d).0 ≡ sent d ++ bs

-- What `fwrite` of `bs` does.
pub record Written {D : Type 0} (sent : D → List ℕ) (bs : List ℕ) (s : Stream) (d : D)
    (r : Option ℕ) (s' : Stream) (d' : D) : Type 0 where
  pub kept : IsStream s'
  pub same : (s'.bf ≡ s.bf) × (s'.start ≡ s.start)
  pub all_there : sent d' ++ s'.buffer ≡ (sent d ++ s.buffer) ++ bs
  pub line_sent : is_line s.bf && has_newline bs ≡ true → s'.buffer ≡ []
  pub returned : r ≡ some (if length s'.buffer == 0 then length s.buffer + length bs else length bs)

module _ {D : Type 0} (dev : Device D) (sent : D → List ℕ) (w : WritesAll dev sent) where
  unbuffered_run :
      (bs : List ℕ) (s : Stream) (d : D)
      → s.valid ≡ true
      → is_unbuffered s.bf ≡ true
      → fwrite dev bs s d ≡ (some (length bs), s, (dev.write bs d).0)
  unfolding fwrite write_through
  unbuffered_run bs s d v u = ground (arith, v, u, w.whole bs d)

  buffered_run :
      (bs : List ℕ) (s : Stream) (d : D)
      → s.valid ≡ true
      → is_unbuffered s.bf ≡ false
      → leb (length bs + length s.buffer) bufsiz && not (is_line s.bf && has_newline bs) ≡ true
      → fwrite dev bs s d ≡ (some (length bs), record s { buffer = s.buffer ++ bs }, d)
  unfolding fwrite
  buffered_run bs s d v u room = ground (arith, v, u, room)

  flushed_run :
      (bs : List ℕ) (s : Stream) (d : D)
      → s.valid ≡ true
      → is_unbuffered s.bf ≡ false
      → leb (length bs + length s.buffer) bufsiz && not (is_line s.bf && has_newline bs) ≡ false
      → fwrite dev bs s d ≡ (
        some (length s.buffer + length bs),
        record s { buffer = [] },
        (dev.write bs (dev.write s.buffer d).0).0,
      )
  unfolding fwrite write_both
  flushed_run bs s d v u room =
      ground (arith, v, u, room, w.whole s.buffer d, w.whole bs (dev.write s.buffer d).0)

  abbrev IsWritten : List ℕ → Stream → D → Option ℕ × Stream × D → Type 0
  IsWritten bs s d t = Written sent bs s d t.0 t.1 t.2

  -- On a device that writes all it is given, what it has got and what the buffer holds are together
  -- all that was written, in order, and a line buffered stream keeps nothing of a line that ended.
  -- The count that is returned includes the bytes that were in the buffer, where it was sent.
  pub fwrite-Written :
      (bs : List ℕ) (s : Stream) (d : D)
      → IsStream s
      → let (r, s', d') = fwrite dev bs s d in Written sent bs s d r s' d'
  fwrite-Written bs s d v = elim (Bool-cases (is_unbuffered s.bf)) [
    | inl u ↦ subst (IsWritten bs s d) (sym (unbuffered_run bs s d v.valid u)) record {
      kept = v;
      same = (refl, refl);
      all_there =
          rw (v.none_kept u, w.in_order bs d)
            (append-nil (sent d ++ bs) ∙ ap (λ l. l ++ bs) (sym (append-nil (sent d))));
      line_sent = λ _. v.none_kept u;
      returned = rw (v.none_kept u) (ap some (omega arith));
    }
    | inr b ↦
        elim (Bool-cases
          (leb (length bs + length s.buffer) bufsiz && not (is_line s.bf && has_newline bs))) [
            | inl room ↦
                subst (IsWritten bs s d) (sym (buffered_run bs s d v.valid b room)) record {
                  kept = record {
                    valid = v.valid;
                    small = ground (arith, room, length-append s.buffer bs);
                    none_kept = λ u. absurd (cc (u, b));
                  };
                  same = (refl, refl);
                  all_there = sym (append_assoc (sent d) s.buffer bs);
                  line_sent = λ h. absurd (ground (arith, room, h));
                  returned = ap some (ground (arith, length-append s.buffer bs));
                }
            | inr flush ↦
                subst (IsWritten bs s d) (sym (flushed_run bs s d v.valid b flush)) record {
                  kept = record { valid = v.valid; small = omega arith; none_kept = λ _. refl };
                  same = (refl, refl);
                  all_there =
                      append-nil (sent (dev.write bs (dev.write s.buffer d).0).0)
                      ∙ w.in_order bs (dev.write s.buffer d).0
                      ∙ ap (λ l. l ++ bs) (w.in_order s.buffer d);
                  line_sent = λ _. refl;
                  returned = refl;
                }
          ]
  ]

  -- `fflush` leaves nothing in the buffer, and the device has all that was written.
  pub fflush-sent :
      (s : Stream) (d : D)
      → IsStream s
      → let (ok, s', d') = fflush dev s d in
        (ok ≡ true) × (s'.buffer ≡ []) × (sent d' ≡ sent d ++ s.buffer)
  unfolding fflush
  fflush-sent s d v = rw v.valid (refl, refl, w.in_order s.buffer d)
