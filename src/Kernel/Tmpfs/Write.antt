-- ===== src/Kernel/Tmpfs/Write.antt =====
-- What `tmp_write` leaves in the pages.
use petix.Prelude.{
  ℕ, zero, suc, ◌+◌, ◌-◌, ◌*◌, ◌/◌, ◌%◌, ◌^◌, ◌≤◌, ◌<◌, ◌≡◌, refl, ◌∙◌, sym, ap, subst, ◌⊎◌, inl,
  inr, true, false, List, [], ◌++◌, some, append_assoc, get_or, set, take, drop, length,
  length-append, length-drop, length-take, take-append-drop, arith, Bool-cases, ltb, min, max,
  length-set,
}
use petix.Kernel.Tmpfs.{page_size, TmpFile, write_pages, new_pages, ceil_pages, tmp_write, tmp_read}
use petix.Kernel.Tmpfs.Flat.{
  flat, ArePages, length-flat, At, flat-At, append_inj, cut_middle, take-append, take_append,
  take-take, new_pages-ArePages,
}
use petix.Kernel.Tmpfs.Read.{IsFile, tmp_read-ReadOut}

-- The bytes that a write replaces go from the offset to the end of a page.
pub record Stored (ps ps' : List (List ℕ)) (off end : ℕ) (memory : List ℕ) : Type 0 where
  pub before : List ℕ
  pub old : List ℕ
  pub behind : List ℕ
  pub splits : flat ps ≡ before ++ (old ++ behind)
  pub splits' : flat ps' ≡ before ++ (take (length old) memory ++ behind)
  pub starts : length before ≡ off
  pub enough : end ≤ off + length old
  pub ends : (length old ≡ 0) ⊎ ((off + length old) % page_size ≡ 0)
  pub full : ArePages ps'
  pub same_length : length ps' ≡ length ps

abbrev stored_page : List ℕ → ℕ → List ℕ → List ℕ
stored_page p poff memory = take poff p ++ take (page_size - poff) memory

run-write_pages :
    (fuel off end : ℕ) (memory : List ℕ) (ps ps' : List (List ℕ))
    → off < end
    → off / page_size < length ps
    → write_pages fuel
        (off + min (page_size - off % page_size) (end - off % page_size))
        end
        (drop (min (page_size - off % page_size) (end - off % page_size)) memory)
        (set ps
          (off / page_size)
          (stored_page (get_or ps (off / page_size) []) (off % page_size) memory))
      ≡ some ps'
    → write_pages (suc fuel) off end memory ps ≡ some ps'
unfolding write_pages
run-write_pages fuel off end memory ps ps' lt inside rest =
    let l : ltb off end ≡ true = ground arith in
    let l' : ltb (off / page_size) (length ps) ≡ true = ground arith in rw (l, l', rest) refl

-- The store into one page.
one_page :
    (off end : ℕ) (memory : List ℕ) (ps : List (List ℕ))
    → At ps (off / page_size)
    → end ≤ off + (page_size - off % page_size)
    → page_size - off % page_size ≤ length memory
    → (s : Stored ps
        (set ps
          (off / page_size)
          (stored_page (get_or ps (off / page_size) []) (off % page_size) memory))
        off
        end
        memory)
      × (length s.old ≡ page_size - off % page_size)
one_page off end memory ps a he hm =
    let r = off % page_size in
    let p = get_or ps (off / page_size) [] in
    let l : length (drop r p) ≡ page_size - r = omega (arith, length-drop r p, a.is_page) in
    let q = stored_page p r memory in
    (
      record {
        before = a.before ++ take r p;
        old = drop r p;
        behind = a.behind;
        splits = a.splits ∙ cut_middle a.before p a.behind r;
        splits' =
            a.replaced q
            ∙ ap (λ z. a.before ++ z)
                (append_assoc (take r p) (take (page_size - r) memory) a.behind)
            ∙ sym (append_assoc a.before (take r p) (take (page_size - r) memory ++ a.behind))
            ∙ ap (λ k. (a.before ++ take r p) ++ (take k memory ++ a.behind)) (sym l);
        starts =
            omega (arith, length-append a.before (take r p), length-take r p, a.starts, a.is_page);
        enough = omega (arith, he, l);
        ends = inr (omega (arith, l));
        full = a.kept q (
            omega (
              arith,
              length-append (take r p) (take (page_size - r) memory),
              length-take r p,
              length-take (page_size - r) memory,
              a.is_page,
              hm,
            ));
        same_length = length-set ps (off / page_size) q;
      },
      l,
    )

-- A store up to the end of a page, and one from there on.
Stored-Stored :
    (off mid end : ℕ) (memory : List ℕ) (ps ps1 ps' : List (List ℕ))
    → (a : Stored ps ps1 off mid memory) → off + length a.old ≡ mid
    → mid - off ≤ length memory
    → (c : Stored ps1 ps' mid end (drop (mid - off) memory)) → Stored ps ps' off end memory
Stored-Stored off mid end memory ps ps1 ps' a m hm c =
    let k = length a.old in
    let e : mid - off ≡ k = omega (arith, m) in
    let j =
      append_inj (a.before ++ take k memory) c.before a.behind (c.old ++ c.behind)
        (omega (
          arith,
          length-append a.before (take k memory),
          length-take k memory,
          a.starts,
          c.starts,
          m,
          hm,
        ))
        (append_assoc a.before (take k memory) a.behind ∙ sym a.splits' ∙ c.splits) in
    record {
      before = a.before;
      old = a.old ++ c.old;
      behind = c.behind;
      splits =
          a.splits
          ∙ ap (λ z. a.before ++ (a.old ++ z)) j.1
          ∙ ap (λ z. a.before ++ z) (sym (append_assoc a.old c.old c.behind));
      splits' =
          c.splits'
          ∙ ap (λ z. z ++ (take (length c.old) (drop (mid - off) memory) ++ c.behind)) (sym j.0)
          ∙ append_assoc a.before (take k memory)
              (take (length c.old) (drop (mid - off) memory) ++ c.behind)
          ∙ ap (λ z. a.before ++ z)
              (sym (
                append_assoc (take k memory) (take (length c.old) (drop (mid - off) memory))
                  c.behind))
          ∙ ap (λ z. a.before ++ (z ++ c.behind))
              (ap (λ d. take k memory ++ take (length c.old) (drop d memory)) e
                ∙ take_append k (length c.old) memory
                ∙ ap (λ i. take i memory) (sym (length-append a.old c.old)));
      starts = a.starts;
      enough = omega (arith, c.enough, m, length-append a.old c.old);
      ends = elim (c.ends) [
        | inr h ↦ inr (omega (arith, h, m, length-append a.old c.old))
        | inl z ↦ elim (a.ends) [
          | inr h ↦ inr (omega (arith, h, z, length-append a.old c.old))
          | inl z' ↦ inl (omega (arith, z, z', length-append a.old c.old))
        ]
      ];
      full = c.full;
      same_length = c.same_length ∙ a.same_length;
    }

write_pages_done :
    (fuel off end : ℕ) (memory : List ℕ) (ps : List (List ℕ))
    → 0 < fuel
    → end ≤ off
    → write_pages fuel off end memory ps ≡ some ps
unfolding write_pages
write_pages_done zero off end memory ps h le = absurd (omega arith)
write_pages_done (suc fuel) off end memory ps h le =
    let l : ltb off end ≡ false = ground arith in rw l refl

write_pages-Stored :
    (fuel off end : ℕ) (memory : List ℕ) (ps : List (List ℕ))
    → ArePages ps
    → off ≤ length ps * page_size
    → end ≤ length ps * page_size
    → length ps * page_size ≤ off + length memory
    → end - off < fuel
    → (ps' : List (List ℕ)) × (write_pages fuel off end memory ps ≡ some ps')
      × Stored ps ps' off end memory
write_pages-Stored zero off end memory ps full ho he hm hf = absurd (omega arith)
write_pages-Stored (suc fuel) off end memory ps full ho he hm hf = elim (Bool-cases (ltb off end)) [
  | inr ge ↦ (
    ps,
    write_pages_done (suc fuel) off end memory ps (omega arith) (ground arith),
    record {
      before = take off (flat ps);
      old = [];
      behind = drop off (flat ps);
      splits = sym (take-append-drop off (flat ps));
      splits' = sym (take-append-drop off (flat ps));
      starts = omega (arith, length-take off (flat ps), length-flat ps full);
      enough = ground arith;
      ends = inl refl;
      full = full;
      same_length = refl;
    },
  )
  | inl lt ↦
      let lt' : off < end = ground arith in
      let inside : off / page_size < length ps = omega (arith, lt', he) in
      let a = flat-At ps (off / page_size) full inside in
      let r = off % page_size in
      let ps1 = set ps (off / page_size) (stored_page (get_or ps (off / page_size) []) r memory) in
      elim (Bool-cases (ltb (off + (page_size - r)) end)) [
        | inr last ↦
            let last' : end ≤ off + (page_size - r) = ground arith in
            (
              ps1,
              run-write_pages fuel off end memory ps ps1 lt' inside (
                  write_pages_done fuel (off + min (page_size - r) (end - r)) end
                    (drop (min (page_size - r) (end - r)) memory) ps1 (omega (arith, hf, lt'))
                    (omega (arith, last', lt'))),
              (one_page off end memory ps a last' (omega (arith, hm, lt', he))).0,
            )
        | inl more ↦
            let more' : off + (page_size - r) < end = ground arith in
            let d : min (page_size - r) (end - r) ≡ page_size - r = omega (arith, more', lt') in
            let (s, l) =
              one_page off (off + (page_size - r)) memory ps a (omega arith)
                (omega (arith, hm, lt', he)) in
            let (ps', e, c) =
              write_pages-Stored fuel (off + (page_size - r)) end (drop (page_size - r) memory) ps1
                s.full (omega (arith, s.same_length, lt', he)) (omega (arith, s.same_length, he))
                (omega (arith, s.same_length, hm, length-drop (page_size - r) memory))
                (omega (arith, hf, lt')) in
            let m : off + (page_size - r) - off ≡ page_size - r = omega arith in
            (
              ps',
              run-write_pages fuel off end memory ps ps' lt' inside (
                  subst (λ k. write_pages fuel (off + k) end (drop k memory) ps1 ≡ some ps') (sym d)
                    e),
              Stored-Stored off (off + (page_size - r)) end memory ps ps1 ps' s (omega (arith, l))
                  (omega (arith, hm, lt', he))
                  (subst (λ k. Stored ps1 ps' (off + (page_size - r)) end (drop k memory)) (sym m)
                    c),
            )
      ]
]

-- What `tmp_write` makes of a file: `n` bytes are stored, over the old ones or over new pages, and
-- what stands in memory behind them goes to the end of the last page.
pub record Written (f f' : TmpFile) (garbage memory : List ℕ) (n : ℕ) : Type 0 where
  pub file : IsFile f'
  pub moved : f'.offset ≡ f.offset + n
  pub size : f'.size ≡ max f.size (f.offset + n)
  pub node : f'.node_size ≡ f'.size
  pub pages : ceil_pages f'.size ≡ length f'.pages
  pub new : ℕ
  pub bytes : Stored (f.pages ++ new_pages new garbage) f'.pages f.offset (f.offset + n) memory

-- `tmp_write` on a file in order that does not need fewer pages than it has ends and leaves a file in
-- order, with its offset behind the `n` bytes and a size that reaches there. It stores the bytes of
-- the buffer from the offset on, over the old pages and those that it takes, keeps the bytes before
-- them and those behind their last page, and fills that page up with what stands behind the buffer.
pub tmp_write-Written :
    (f : TmpFile) (garbage memory : List ℕ) (n : ℕ)
    → IsFile f
    → length garbage ≡ page_size
    → ceil_pages f.size ≡ length f.pages
    → ceil_pages f.size ≤ ceil_pages (f.offset + n)
    → f.offset + n < 2 ^ 32
    → n + page_size ≤ length memory
    → (f' : TmpFile) × (tmp_write garbage f memory n ≡ some (f', n)) × Written f f' garbage memory n
unfolding tmp_write
tmp_write-Written f garbage memory n v g pages grows small room =
    let new = ceil_pages (f.offset + n) - ceil_pages f.size in
    let (full, total) = new_pages-ArePages f.pages new garbage v.full g in
    let all = f.pages ++ new_pages new garbage in
    let count : length all ≡ ceil_pages (f.offset + n) = omega (arith, total, pages, grows) in
    let (pages', e, s) =
      write_pages-Stored (suc n) f.offset (f.offset + n) memory all full (omega (arith, count))
        (omega (arith, count)) (omega (arith, count, room)) (omega arith) in
    let l : ltb (ceil_pages (f.offset + n)) (ceil_pages f.size) ≡ false = ground arith in
    (
      record {
        pages = pages';
        node_size = max f.size (f.offset + n);
        size = max f.size (f.offset + n);
        offset = f.offset + n;
      },
      rw (l, e) refl,
      record {
        file = record {
          full = s.full;
          holds = omega (arith, s.same_length, count, grows);
          inside = omega arith;
          small = omega (arith, v.small);
        };
        moved = refl;
        size = refl;
        node = refl;
        pages = omega (arith, s.same_length, count, grows);
        new = new;
        bytes = s;
      },
    )

-- For a file in order, whose offset is inside it and which has exactly the pages that its size takes:
-- what `tmp_write` stores `tmp_read` gives back, where the write ends in the last page of the file or
-- behind it and below 2^32, and the memory of the buffer goes on for a page. After the write, with
-- the offset set to where it began, a read of `n` bytes returns `n` and stores the bytes of the
-- buffer. A write whose end needs fewer pages than the file has is not covered.
pub tmp_read-tmp_write :
    (f : TmpFile) (garbage memory : List ℕ) (n : ℕ)
    → IsFile f
    → length garbage ≡ page_size
    → ceil_pages f.size ≡ length f.pages
    → ceil_pages f.size ≤ ceil_pages (f.offset + n)
    → f.offset + n < 2 ^ 32
    → n + page_size ≤ length memory
    → (f' f'' : TmpFile) × (out : List ℕ) × (tmp_write garbage f memory n ≡ some (f', n))
      × (tmp_read (record f' { offset = f.offset }) n ≡ some (f'', out, n))
      × (take n out ≡ take n memory)
      × (f''.offset ≡ f.offset + n)
tmp_read-tmp_write f garbage memory n v g pages grows small room =
    let (f', e, w) = tmp_write-Written f garbage memory n v g pages grows small room in
    let back = record f' { offset = f.offset } in
    let (f'', out, len, e', r) = tmp_read-ReadOut back n (record {
      full = (w.file).full;
      holds = (w.file).holds;
      inside = omega (arith, w.size);
      small = (w.file).small;
    }) in
    let all : len ≡ n = omega (arith, r.length_is, w.size) in
    let s = w.bytes in
    let j =
      append_inj r.before s.before (take len out ++ r.behind)
        (take (length s.old) memory ++ s.behind) (r.starts ∙ sym s.starts)
        (sym r.splits ∙ s.splits') in
    (
      f',
      f'',
      out,
      e,
      subst (λ k. tmp_read back n ≡ some (f'', out, k)) all e',
      sym (take-take n len out (omega (arith, all)))
          ∙ sym (
              take-append n (take len out) r.behind
                (omega (arith, all, r.enough, length-take len out)))
          ∙ ap (take n) j.1
          ∙ take-append n (take (length s.old) memory) s.behind
              (omega (arith, s.enough, room, length-take (length s.old) memory))
          ∙ take-take n (length s.old) memory (omega (arith, s.enough)),
      ap (λ t. t.offset) r.moved ∙ omega (arith, all),
    )
