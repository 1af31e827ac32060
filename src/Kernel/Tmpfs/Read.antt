-- ===== src/Kernel/Tmpfs/Read.antt =====
-- What `tmp_read` stores and returns.
use petix.Prelude.{
  ℕ, zero, suc, ◌+◌, ◌-◌, ◌*◌, ◌/◌, ◌%◌, ◌^◌, ◌≤◌, ◌<◌, ◌≡◌, refl, ◌∙◌, sym, ap, ◌⊎◌, inl, inr,
  true, List, [], ◌++◌, some, append_assoc, get_elem?, get_or, take, drop, length, length-append,
  length-drop, length-take, take-append-drop, arith, Bool-cases, ltb, min,
}
use petix.Kernel.Tmpfs.{page_size, TmpFile, read_pages, read_length, tmp_read}
use petix.Kernel.Tmpfs.Flat.{flat, ArePages, length-flat, At, flat-At, append_inj, cut_middle}

-- The bytes that a read copies stand at the offset, and go on to the end of a page.
pub record Copied (ps : List (List ℕ)) (off end : ℕ) (out : List ℕ) : Type 0 where
  pub before : List ℕ
  pub behind : List ℕ
  pub splits : flat ps ≡ before ++ (out ++ behind)
  pub starts : length before ≡ off
  pub enough : end ≤ off + length out
  pub ends : (out ≡ []) ⊎ ((off + length out) % page_size ≡ 0)

Copied-Copied :
    (off end : ℕ) (ps : List (List ℕ)) (out : List ℕ)
    → (a : At ps (off / page_size)) → Copied ps (off + (page_size - off % page_size)) end out
    → Copied ps off end (drop (off % page_size) (get_or ps (off / page_size) []) ++ out)
Copied-Copied off end ps out a c =
    let p = get_or ps (off / page_size) [] in
    let l = length-drop (off % page_size) p in
    let l' = length-append (drop (off % page_size) p) out in
    let j =
      append_inj (a.before ++ p) c.before a.behind (out ++ c.behind)
        (omega (arith, length-append a.before p, a.starts, a.is_page, c.starts))
        (append_assoc a.before p a.behind ∙ sym a.splits ∙ c.splits) in
    record {
      before = a.before ++ take (off % page_size) p;
      behind = c.behind;
      splits =
          a.splits
          ∙ cut_middle a.before p a.behind (off % page_size)
          ∙ ap (λ z. (a.before ++ take (off % page_size) p) ++ (drop (off % page_size) p ++ z)) j.1
          ∙ ap (λ z. (a.before ++ take (off % page_size) p) ++ z)
              (sym (append_assoc (drop (off % page_size) p) out c.behind));
      starts = omega (
        arith,
        length-append a.before (take (off % page_size) p),
        length-take (off % page_size) p,
        a.starts,
        a.is_page,
      );
      enough = omega (arith, c.enough, l, l', a.is_page);
      ends = inr (elim (c.ends) [
        | inl e ↦ omega (arith, ap length e, l, l', a.is_page)
        | inr e ↦ omega (arith, e, l, l', a.is_page)
      ]);
    }

run-read_pages :
    (fuel off end : ℕ) (ps : List (List ℕ)) (bytes : List ℕ)
    → off < end
    → get_elem? ps (off / page_size) ≡ some (get_or ps (off / page_size) [])
    → read_pages fuel (off + (page_size - off % page_size)) end ps ≡ some bytes
    → read_pages (suc fuel) off end ps
      ≡ some (drop (off % page_size) (get_or ps (off / page_size) []) ++ bytes)
unfolding read_pages
run-read_pages fuel off end ps bytes lt there rest =
    let l : ltb off end ≡ true = ground arith in rw (l, there, rest) refl

read_pages-Copied :
    (fuel off end : ℕ) (ps : List (List ℕ))
    → ArePages ps
    → off ≤ length ps * page_size
    → end ≤ length ps * page_size
    → end - off < fuel
    → (out : List ℕ) × (read_pages fuel off end ps ≡ some out) × Copied ps off end out
unfolding read_pages
read_pages-Copied zero off end ps full ho he hf = absurd (omega arith)
read_pages-Copied (suc fuel) off end ps full ho he hf = elim (Bool-cases (ltb off end)) [
  | inr ge ↦ (
    [],
    rw ge refl,
    record {
      before = take off (flat ps);
      behind = drop off (flat ps);
      splits = sym (take-append-drop off (flat ps));
      starts = omega (arith, length-take off (flat ps), length-flat ps full);
      enough = ground arith;
      ends = inl refl;
    },
  )
  | inl lt ↦
      let lt' : off < end = ground arith in
      let a = flat-At ps (off / page_size) full (omega (arith, lt', he)) in
      let (out, e, c) =
        read_pages-Copied fuel (off + (page_size - off % page_size)) end ps full
          (omega (arith, lt', he)) he (omega (arith, lt', hf)) in
      (
        drop (off % page_size) (get_or ps (off / page_size) []) ++ out,
        run-read_pages fuel off end ps out lt' a.there e,
        Copied-Copied off end ps out a c,
      )
]

-- A file in order: its pages are full and hold its size, and the offset is inside.
pub record IsFile (f : TmpFile) : Type 0 where
  pub full : ArePages f.pages
  pub holds : f.size ≤ length f.pages * page_size
  pub inside : f.offset ≤ f.size
  pub small : f.size < 2 ^ 32

-- What `tmp_read` makes of a read: `len` bytes, where the buffer holds those of the file and `over`
-- tells that the stores go on to the end of a page.
pub record ReadOut (f f' : TmpFile) (n : ℕ) (out : List ℕ) (len : ℕ) : Type 0 where
  pub length_is : len ≡ min (f.size - f.offset) n
  pub moved : f' ≡ record f { offset = f.offset + len }
  pub before : List ℕ
  pub behind : List ℕ
  pub splits : flat f.pages ≡ before ++ (take len out ++ behind)
  pub starts : length before ≡ f.offset
  pub enough : len ≤ length out
  pub over : (out ≡ []) ⊎ ((f.offset + length out) % page_size ≡ 0)

read_length_lem : (f : TmpFile) (n : ℕ) → IsFile f → read_length f n ≡ min (f.size - f.offset) n
unfolding read_length
read_length_lem f n v = ground (arith, v.small, v.inside)

-- `tmp_read` on a file in order ends and finds its pages. It returns the smaller of `n` and what the
-- file has behind the offset, stores the file's bytes there from the buffer on, and moves the offset.
-- Where it stores anything it goes on to the end of a page, behind the `n` bytes of the buffer too.
pub tmp_read-ReadOut :
    (f : TmpFile) (n : ℕ)
    → IsFile f
    → (f' : TmpFile) × (out : List ℕ) × (len : ℕ) × (tmp_read f n ≡ some (f', out, len))
      × ReadOut f f' n out len
unfolding tmp_read
tmp_read-ReadOut f n v =
    let len = read_length f n in
    let l = read_length_lem f n v in
    let (out, e, c) =
      read_pages-Copied (suc len) f.offset (f.offset + len) f.pages v.full
        (omega (arith, v.inside, v.holds)) (omega (arith, l, v.inside, v.holds))
        (omega (arith, l)) in
    (
      record f { offset = f.offset + len },
      out,
      len,
      rw (tmp_read, e) refl,
      record {
        length_is = l;
        moved = refl;
        before = c.before;
        behind = drop len out ++ c.behind;
        splits =
            c.splits
            ∙ ap (λ z. c.before ++ (z ++ c.behind)) (sym (take-append-drop len out))
            ∙ ap (λ z. c.before ++ z) (append_assoc (take len out) (drop len out) c.behind);
        starts = c.starts;
        enough = omega (arith, c.enough);
        over = c.ends;
      },
    )
