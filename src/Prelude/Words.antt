-- ===== src/Prelude/Words.antt =====
-- int64 as its bit pattern, a number below 2^64: sums wrap, and the top bit is the sign.
use Prim.Native.Nat.{ℕ, ◌+◌, ◌-◌, ◌/◌, ◌%◌, ◌^◌}
use mathlib.Core.Bool.{Bool}
use pok.Prelude.Int.{ℤ, pos, negsuc}
use pok.Prelude.Tests.{ltb, if◌then◌else◌}

unfoldable pub add_int64 : ℕ → ℕ → ℕ
add_int64 a b = (a + b) % 2 ^ 64

-- The value that the pattern stands for.
unfoldable pub signed : ℕ → ℤ
signed a = if ltb a (2 ^ 63) then pos a else negsuc (2 ^ 64 - a - 1)

unfoldable pub less_int64 : ℕ → ℕ → Bool
less_int64 a b = ltb ((a + 2 ^ 63) % 2 ^ 64) ((b + 2 ^ 63) % 2 ^ 64)

-- The division by a positive constant drops the fraction, on either side of 0.
unfoldable pub div_int64 : ℕ → ℕ → ℕ
div_int64 a d = if ltb a (2 ^ 63) then a / d else (2 ^ 64 - (2 ^ 64 - a) / d) % 2 ^ 64
