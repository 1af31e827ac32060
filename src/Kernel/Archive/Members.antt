-- ===== src/Kernel/Archive/Members.antt =====
-- The lookup over the members of an archive.
use petix.Prelude.{
  ℕ, zero, suc, ◌+◌, ◌/◌, ◌^◌, ◌<◌, ◌≤◌, ◌≡◌, refl, sym, ap, ◌∙◌, true, false, List, [], ◌∷◌, ◌++◌,
  append_assoc, Option, some, ◌==◌, if◌then◌else◌, length, length-append, get_or, arith, Bool-cases,
  inl, inr,
}
use petix.Kernel.Errno.{enoent}
use petix.Kernel.Fs.{Result, found, failed}
use petix.Kernel.Archive.{
  block_read, Header, tar_field, tar_next_blk, TarInode, is_member, member_inode, found_member,
  tar_lookup, topen,
}

-- A member: its header, and the blocks of its contents, which may look like headers.
pub record Member : Type 0 where
  pub header : Header
  pub contents : List Header

-- A member has a name, and as many blocks of contents as its size takes.
pub record IsMember (m : Member) : Type 0 where
  pub named : (get_or m.header.name 0 0 == 0) ≡ false
  pub filled : length m.contents ≡ (tar_field m.header.size + 511) / 512
  pub fits : tar_field m.header.size + 511 < 2 ^ 32

pub data AreMembers : List Member → Type 0 where
  end : AreMembers []
  member : {m : Member} → {ms : List Member} → IsMember m → AreMembers ms → AreMembers (m ∷ ms)

-- The blocks of an archive of members before the block `last`.
abbrev pub archive : List Member → Header → List Header
archive [] last = last ∷ []
archive (m ∷ ms) last = m.header ∷ (m.contents ++ archive ms last)

-- The inode is that of a member with the name, and the blocks from where `topen` lets a file of it
-- begin are the member's contents.
pub record Opens (ms : List Member) (all : List Header) (last : Header) (path : List ℕ)
    (i : TarInode) : Type 0 where
  pub before : List Member
  pub m : Member
  pub after : List Member
  pub among : ms ≡ before ++ (m ∷ after)
  pub named : is_member m.header path ≡ true
  pub sized : i.size ≡ tar_field m.header.size
  pub reads :
      (k : ℕ)
      → k < length m.contents
      → get_or all (topen i / 512 + k) last ≡ get_or m.contents k last

-- The first member with the name, in the order of the archive; `blk` is where the members begin.
abbrev pub first_member : List Member → List ℕ → TarInode → ℕ → Option (Result TarInode)
first_member [] path in' blk = some (failed enoent)
first_member (m ∷ ms) path in' blk =
    if is_member m.header path
    then found_member (member_inode m.header blk in')
    else first_member ms path in' (blk + 1 + length m.contents)

get_or-append :
    (pre : List Header) (h d : Header) (post : List Header)
    → get_or (pre ++ (h ∷ post)) (length pre) d ≡ h
get_or-append [] h d post = refl
get_or-append (x ∷ pre) h d post = get_or-append pre h d post

next_member :
    (m : Member) (blk : ℕ)
    → IsMember m
    → blk + 1 + length m.contents < 2 ^ 32
    → tar_next_blk m.header blk ≡ blk + 1 + length m.contents
unfolding tar_next_blk
next_member m blk w h = omega (arith, w.filled, w.fits)

member_inode-stores :
    (h : Header) (blk : ℕ) (in' i : TarInode)
    → found_member (member_inode h blk in') ≡ some (found i)
    → (i.inode_id ≡ blk) × (i.size ≡ tar_field h.size)
unfolding member_inode
member_inode-stores h blk in' i e = ground (arith, e)

topen-begins : (i : TarInode) → i.inode_id + 1 < 2 ^ 23 → topen i / 512 ≡ i.inode_id + 1
unfolding topen
topen-begins i h = ground arith

get_or-contents :
    (pre : List Header) (h : Header) (cs rest : List Header) (i k : ℕ) (d : Header)
    → k < length cs
    → i ≡ length pre + 1 + k
    → get_or (pre ++ (h ∷ (cs ++ rest))) i d ≡ get_or cs k d
get_or-contents pre h cs rest zero k d l e = absurd (omega arith)
get_or-contents [] h [] rest (suc i) k d l e = absurd (omega arith)
get_or-contents [] h (c ∷ cs) rest (suc zero) zero d l e = refl
get_or-contents [] h (c ∷ cs) rest (suc zero) (suc k) d l e = absurd (omega arith)
get_or-contents [] h (c ∷ cs) rest (suc (suc i)) zero d l e = absurd (omega arith)
get_or-contents [] h (c ∷ cs) rest (suc (suc i)) (suc k) d l e =
    get_or-contents [] c cs rest (suc i) k d (omega arith) (omega arith)
get_or-contents (x ∷ pre) h cs rest (suc i) k d l e =
    get_or-contents pre h cs rest i k d l (omega arith)

archive-length : (ms : List Member) (last : Header) → 0 < length (archive ms last)
archive-length [] last = omega arith
archive-length (m ∷ ms) last = omega arith

-- The offset of a block of an archive of at most 4 GiB does not wrap around.
own_block :
    (last : Header) (pre : List Header) (ms : List Member) (all : List Header) (blk : ℕ)
    → all ≡ pre ++ archive ms last
    → blk ≡ length pre
    → length all ≤ 2 ^ 23
    → block_read blk ≡ blk
own_block last pre ms all blk e b l =
    omega (arith, b, l, ap length e, length-append pre (archive ms last), archive-length ms last)

module _ (path : List ℕ) (in' : TarInode) (last : Header)
    (ends : (get_or last.name 0 0 == 0) ≡ true) where
  tar_lookup_from :
      (ms : List Member) (pre all : List Header) (blk fuel : ℕ)
      → all ≡ pre ++ archive ms last
      → blk ≡ length pre
      → length all ≤ 2 ^ 23
      → AreMembers ms
      → length ms < fuel
      → tar_lookup (λ i. get_or all i last) path in' fuel blk ≡ first_member ms path in' blk
  unfolding tar_lookup
  tar_lookup_from ms pre all blk zero e b l ws h = absurd (omega arith)
  tar_lookup_from [] pre all blk (suc fuel) e b l ws h =
      let own = own_block last pre [] all blk e b l in
      let here : get_or all (block_read blk) last ≡ last =
        rw (own, e, b) (get_or-append pre last last []) in
      rw (here, ends) refl
  tar_lookup_from (m ∷ ms) pre all blk (suc fuel) e b l (member w ws) h =
      let cs = m.contents in
      let own = own_block last pre (m ∷ ms) all blk e b l in
      let room : blk + 1 + length cs < 2 ^ 32 = omega (
        arith,
        b,
        l,
        ap length e,
        length-append pre (archive (m ∷ ms) last),
        length-append cs (archive ms last),
      ) in
      let here : get_or all (block_read blk) last ≡ m.header =
        rw (own, e, b) (get_or-append pre m.header last (cs ++ archive ms last)) in
      let rest : tar_lookup (λ i. get_or all i last) path in' fuel (blk + 1 + length cs)
          ≡ first_member ms path in' (blk + 1 + length cs) =
        tar_lookup_from ms (pre ++ (m.header ∷ cs)) all (blk + 1 + length cs) fuel
          (e ∙ sym (append_assoc pre (m.header ∷ cs) (archive ms last)))
          (omega (arith, b, length-append pre (m.header ∷ cs))) l ws (omega arith) in
      rw (here, w.named, next_member m blk w room, rest) refl

  -- For an archive of at most 2^23 blocks, which is 4 GiB, of members that have a name and as many
  -- blocks of contents as their sizes take, before a block without a name, the lookup of tarfs with
  -- more rounds than members gives what the first member with the path for name, in the order of the
  -- archive, gives, with the block of its header for inode number, and ENOENT where there is no such
  -- member. No contents are taken for a header.
  pub tar_lookup-first_member :
      (ms : List Member) (fuel : ℕ)
      → AreMembers ms
      → length ms < fuel
      → length (archive ms last) ≤ 2 ^ 23
      → tar_lookup (λ i. get_or (archive ms last) i last) path in' fuel 0
        ≡ first_member ms path in' 0
  tar_lookup-first_member ms fuel ws h l =
      tar_lookup_from ms [] (archive ms last) 0 fuel refl refl l ws h

  first_member-Opens :
      (ms : List Member) (pre all : List Header) (blk : ℕ) (i : TarInode)
      → all ≡ pre ++ archive ms last
      → blk ≡ length pre
      → length all ≤ 2 ^ 23
      → first_member ms path in' blk ≡ some (found i)
      → Opens ms all last path i
  first_member-Opens [] pre all blk i e b l f = absurd (ground (arith, f))
  first_member-Opens (m ∷ ms) pre all blk i e b l f = elim (Bool-cases (is_member m.header path)) [
    | inl t ↦
        let f' : found_member (member_inode m.header blk in') ≡ some (found i) =
          sym (rw t refl) ∙ f in
        let (id, size) = member_inode-stores m.header blk in' i f' in
        let room : blk + 1 < 2 ^ 23 = omega (
          arith,
          b,
          l,
          ap length e,
          length-append pre (archive (m ∷ ms) last),
          length-append m.contents (archive ms last),
          archive-length ms last,
        ) in
        let begins : topen i / 512 ≡ i.inode_id + 1 = topen-begins i (omega arith) in
        record {
          before = [];
          m = m;
          after = ms;
          among = refl;
          named = t;
          sized = size;
          reads = λ k h. rw e (
              get_or-contents pre m.header m.contents (archive ms last) (topen i / 512 + k) k last h
                (omega arith));
        }
    | inr t ↦
        let f' : first_member ms path in' (blk + 1 + length m.contents) ≡ some (found i) =
          sym (rw t refl) ∙ f in
        let o =
          first_member-Opens ms (pre ++ (m.header ∷ m.contents)) all (blk + 1 + length m.contents) i
            (e ∙ sym (append_assoc pre (m.header ∷ m.contents) (archive ms last)))
            (omega (arith, b, length-append pre (m.header ∷ m.contents))) l f' in
        record {
          before = m ∷ o.before;
          m = o.m;
          after = o.after;
          among = ap (λ r. m ∷ r) o.among;
          named = o.named;
          sized = o.sized;
          reads = o.reads;
        }
  ]

  -- For an archive of at most 2^23 blocks, which is 4 GiB, of members that have a name and as many
  -- blocks of contents as their sizes take, before a block without a name: an inode that the lookup
  -- of tarfs gives, with more rounds than members, is that of one of the members with the path for
  -- name. It has the size of the member's header, and block by block, what stands in the archive from
  -- where `topen` lets the file begin are the contents of that member.
  pub tar_lookup-topen :
      (ms : List Member) (fuel : ℕ) (i : TarInode)
      → AreMembers ms
      → length ms < fuel
      → length (archive ms last) ≤ 2 ^ 23
      → tar_lookup (λ k. get_or (archive ms last) k last) path in' fuel 0 ≡ some (found i)
      → Opens ms (archive ms last) last path i
  tar_lookup-topen ms fuel i ws h l f =
      first_member-Opens ms [] (archive ms last) 0 i refl refl l
        (sym (tar_lookup-first_member ms fuel ws h l) ∙ f)
