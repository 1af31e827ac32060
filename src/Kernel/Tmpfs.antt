-- ===== src/Kernel/Tmpfs.antt =====
-- kernel/fs/tmpfs.c: reading and writing the pages of a regular file.
pub mod Flat
pub mod Directory
pub mod Read
pub mod Write
mod Tests
pub use petix.Kernel.Mem.{page_size}
use petix.Prelude.{
  ℕ, zero, suc, ◌+◌, ◌-◌, ◌*◌, ◌/◌, ◌%◌, ◌^◌, Bool, true, false, List, [], ◌∷◌, ◌++◌, Option, none,
  some, ltb, leb, ◌==◌, if◌then◌else◌, min, max, take, drop, set, get_elem?, get_or, length,
}

-- A file that is open on a node: `pages` are the items of the node's list, `node_size` is the size
-- in its inode.
pub record TmpFile : Type 0 where
  pub pages : List (List ℕ)
  pub node_size : ℕ
  pub size : ℕ
  pub offset : ℕ

-- The loop of `tmp_read`: the bytes that it copies to the buffer and behind it. `none` is a page
-- that the list does not have, or a loop that has not ended.
unfoldable pub read_pages : ℕ → ℕ → ℕ → List (List ℕ) → Option (List ℕ)
read_pages zero off end pages = none
read_pages (suc fuel) off end pages =
    let rest = read_pages fuel (off + (page_size - off % page_size)) end pages in
    if ltb off end
    then elim (get_elem? pages (off / page_size)) [
      | none ↦ none
      | some data_of ↦ elim rest [
        | none ↦ none
        | some bytes ↦ some (drop (off % page_size) data_of ++ bytes)
      ]
    ]
    else some []

-- `MIN(f->size - f->offset, n)`, which compares signed numbers of 64 bits: where the offset is past
-- the size, the negative difference is the less, and wraps around as a `size_t`.
unfoldable pub read_length : TmpFile → ℕ → ℕ
read_length f n =
    if ltb f.size f.offset
    then (2 ^ 32 - (f.offset - f.size) % 2 ^ 32) % 2 ^ 32
    else min (f.size - f.offset) n

-- `tmp_read`: the file, the bytes stored from the buffer on, and the length that is returned.
unfoldable pub tmp_read : TmpFile → ℕ → Option (TmpFile × List ℕ × ℕ)
tmp_read f n =
    let len = read_length f n in
    elim (read_pages (suc len) f.offset (f.offset + len) f.pages) [
      | none ↦ none
      | some bytes ↦ some (record f { offset = f.offset + len }, bytes, len)
    ]

abbrev pub ceil_pages : ℕ → ℕ
ceil_pages x = (x + page_size - 1) / page_size

-- The pages that `alloc_page_ptr` hands out hold `garbage`.
abbrev pub new_pages : ℕ → List ℕ → List (List ℕ)
new_pages zero garbage = []
new_pages (suc n) garbage = garbage ∷ new_pages n garbage

-- The loop of `tmp_write` that copies. `memory` is what stands from the buffer on.
unfoldable pub write_pages : ℕ → ℕ → ℕ → List ℕ → List (List ℕ) → Option (List (List ℕ))
write_pages zero off end memory pages = none
write_pages (suc fuel) off end memory pages =
    let poff = off % page_size in
    let delta = min (page_size - poff) (end - poff) in
    let page = get_or pages (off / page_size) [] in
    let rest =
      write_pages fuel (off + delta) end (drop delta memory)
        (set pages (off / page_size) (take poff page ++ take (page_size - poff) memory)) in
    if ltb off end then if ltb (off / page_size) (length pages) then rest else none else some pages

-- `tmp_write`. Where fewer pages are needed than the file has, their difference wraps around, and
-- the loop takes pages until there are none: that is `none` too.
unfoldable pub tmp_write : List ℕ → TmpFile → List ℕ → ℕ → Option (TmpFile × ℕ)
tmp_write garbage f memory n =
    let curr = ceil_pages f.size in
    let needed = ceil_pages (f.offset + n) in
    let pages = f.pages ++ new_pages (needed - curr) garbage in
    if ltb needed curr
    then none
    else elim (write_pages (suc n) f.offset (f.offset + n) memory pages) [
      | none ↦ none
      | some pages' ↦ some (
        record {
          pages = pages';
          node_size = max f.size (f.offset + n);
          size = max f.size (f.offset + n);
          offset = f.offset + n;
        },
        n,
      )
    ]
