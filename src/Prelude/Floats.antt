-- ===== src/Prelude/Floats.antt =====
-- Go's float64, with the operations that the apps apply: its arithmetic is not modelled, so
-- nothing is known of a value but what it is computed from.
use pok.Prelude.Bytes.{Bytes}
use mathlib.Core.Bool.{Bool}
use pok.Prelude.Int.{ℤ}

pub record Floats : Type 1 where
  pub Float : Type 0
  -- the conversion float64(n), and the constants of the source
  pub of_int : ℤ → Float
  -- int64(f), which drops the fraction
  pub to_int : Float → ℤ
  pub add : Float → Float → Float
  pub mul : Float → Float → Float
  pub div : Float → Float → Float
  -- strconv.ParseFloat(s, 64): the value that it returns, and whether its error is nil
  pub parse_float : Bytes → Float × Bool
