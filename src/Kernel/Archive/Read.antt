-- ===== src/Kernel/Archive/Read.antt =====
-- Reading a file of an archive.
use petix.Prelude.{ℕ, ◌+◌, ◌^◌, ◌≤◌, ◌<◌, ◌≡◌, List, arith, ℤ, pos_part}
use petix.Kernel.Archive.{TarFile, tread_length, tread}

-- Where the archive's `read` returns at most the length that it was asked for, a file whose offset is
-- inside it keeps it inside, and the offset moves by what was read.
pub tread-inside :
    (read : ℕ → ℕ → ℤ × List ℕ) (f : TarFile) (n : ℕ)
    → ((at len : ℕ) → pos_part (read at len).0 ≤ len)
    → f.offset ≤ f.size
    → f.size < 2 ^ 32
    → ((tread read f n).0.offset ≤ f.size)
      × ((tread read f n).0.offset ≡ f.offset + pos_part (tread read f n).1)
unfolding tread tread_length
tread-inside read f n h o l =
    let len = tread_length f n in let r = h (f.private_data + f.offset) len in ground (arith, r)
