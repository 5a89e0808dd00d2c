-- ===== src/Base/Scalar.antt =====
-- The values of a JSON document that Python's `float` and `int` convert.
use candle_mind.Base.Checked.{Checked, refused, accepted, crashed}
use candle_mind.Base.Floats.{Floats}
use candle_mind.Base.Int.{ℤ, pos}
use candle_mind.Base.Text.{Text, codes}
use mathlib.Core.Bool.{Bool, true, false}
use mathlib.Core.Option.{Option, some, none}

pub data Scalar (R : Floats) : Type 0 where
  float_value : R.F → Scalar R
  int_value : ℤ → Scalar R
  bool_value : Bool → Scalar R
  text_value : Text → Scalar R
  -- null, a list or an object.
  other_value : Scalar R

abbrev pub and_then : {A B : Type 0} → Checked A → (A → Checked B) → Checked B
and_then (accepted a) f = f a
and_then (refused m) f = refused m
and_then crashed f = crashed

-- `d[key]`; a KeyError counts as crashed.
abbrev pub required : {A : Type 0} → Option A → Checked A
required (some a) = accepted a
required none = crashed

-- What was converted, or a ValueError.
abbrev pub converted : {A : Type 0} → Option A → Checked A
converted (some a) = accepted a
converted none = refused (codes "could not convert")

abbrev pub int_of_bool : Bool → ℤ
int_of_bool true = pos 1
int_of_bool false = pos 0

module _ (R : Floats) where
  -- `float(value)`; the OverflowError of a great integer is left out.
  abbrev pub float_of : Scalar R → Checked R.F
  float_of (float_value x) = accepted x
  float_of (int_value n) = accepted (R.from_int n)
  float_of (bool_value b) = accepted (R.from_int (int_of_bool b))
  float_of (text_value t) = converted (R.parse_float t)
  float_of other_value = crashed

  -- `int(value)`; the OverflowError of an infinite float counts as a ValueError.
  abbrev pub int_of : Scalar R → Checked ℤ
  int_of (float_value x) = converted (R.truncate x)
  int_of (int_value n) = accepted n
  int_of (bool_value b) = accepted (int_of_bool b)
  int_of (text_value t) = converted (R.parse_int t)
  int_of other_value = crashed
