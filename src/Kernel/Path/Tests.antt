-- ===== src/Kernel/Path/Tests.antt =====
-- The path "/etc/motd".
use petix.Prelude.{ℕ, ◌≡◌, List, [], ◌∷◌, ◌++◌, some, none, arith}
use petix.Kernel.Path.{split_dir_path}
use petix.Kernel.Path.Split.{split_dir_path-joined}

abbrev etc : List ℕ
etc = b'/' ∷ b'e' ∷ b't' ∷ b'c' ∷ []

abbrev motd : List ℕ
motd = b'm' ∷ b'o' ∷ b't' ∷ b'd' ∷ []

split_dir_path-joined_example :
    (split_dir_path (etc ++ b'/' ∷ motd) ≡ some (etc, motd)) × (split_dir_path motd ≡ none)
split_dir_path-joined_example =
    split_dir_path-joined etc motd (omega arith, (omega arith, (omega arith, (omega arith, tt))))
      (
        omega arith,
        omega arith,
        (omega arith, omega arith, (omega arith, omega arith, (omega arith, omega arith, tt))),
      )
