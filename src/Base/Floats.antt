-- ===== src/Base/Floats.antt =====
-- Python's `float`.
use candle_mind.Base.Int.{ℤ}
use mathlib.Core.Bool.{Bool}
use mathlib.Core.List.{List}
use mathlib.Core.Option.{Option}
use Prim.Native.Nat.{ℕ}
use candle_mind.Base.Text.{Text}

-- Floating-point numbers and the operations that the program calls; no law of them is used.
pub record Floats : Type 1 where
  pub F : Type 0
  -- A literal of the source, as it is written.
  pub literal : Text → F
  pub from_int : ℤ → F
  pub is_finite : F → Bool
  pub le : F → F → Bool
  pub lt : F → F → Bool
  pub add : F → F → F
  pub sub : F → F → F
  pub mul : F → F → F
  pub div : F → F → F
  pub pow : F → ℕ → F
  pub fsum : List F → F
  -- `sum`
  pub sum : List F → F
  -- `float(text)`, `int(text)` and `int(x)`, or `none` where it raises.
  pub parse_float : Text → Option F
  pub parse_int : Text → Option ℤ
  pub truncate : F → Option ℤ
