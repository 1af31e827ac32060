-- ===== src/Libc/Stdio/Read.antt =====
-- What `fread` copies is what the device holds, in order.
use petix.Prelude.{ℕ, ◌≤◌, ◌<◌, ◌≡◌, true, List, [], ◌++◌, length, ◌⊎◌}
use petix.Libc.Stdio.{bufsiz, Stream}
use petix.Libc.Stdio.Rounds.{unread}

-- What `fread` of `total` bytes returned, copied and left.
pub record IsInOrder {D : Type 0} (rest : D → List ℕ) (total : ℕ) (s : Stream) (d : D)
    (t : ℕ × List ℕ × Stream × D) : Type 0 where
  pub order : unread rest s d ≡ t.1 ++ unread rest t.2 t.3
  pub returned : length t.1 ≡ t.0
  pub bounded : t.0 ≤ total
  pub short : (t.0 ≡ total) ⊎ ((unread rest t.2 t.3 ≡ []) ⊎ (bufsiz < total))
  pub at_end : t.0 ≡ 0 → t.2.eof ≡ true
