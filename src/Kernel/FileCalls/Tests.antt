-- ===== src/Kernel/FileCalls/Tests.antt =====
-- Processes without descriptors, and a file system in which every path is the directory 1.
use petix.Prelude.{ℕ, List, [], ◌∷◌, none, replicate}
use petix.Kernel.Fd.{max_fds, closed, State}
use petix.Kernel.Path.{directory, FileSystem}

abbrev idle : State
idle = record { files = λ a. none; fds = λ p. replicate max_fds closed }

abbrev one_directory : FileSystem ℕ
one_directory = record { fs_lookup = λ path x. directory 1; creat = none; mkdir = none }

abbrev slash_a : List ℕ
slash_a = b'/' ∷ b'a' ∷ []
