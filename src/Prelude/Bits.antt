-- ===== src/Prelude/Bits.antt =====
-- Single bits of a machine word, and flags as sums of powers of two.
use Prim.Native.Nat.{ℕ, ◌/◌, ◌%◌, ◌^◌}
use mathlib.Core.Bool.{Bool}
use petix.Prelude.Tests.{◌==◌}

-- `x & (1 << k)`, as a test.
abbrev pub bit : ℕ → ℕ → Bool
bit x k = (x / 2 ^ k) % 2 == 1
