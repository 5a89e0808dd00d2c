-- ===== src/Base/Checked.antt =====
-- Validations that raise a ValueError.
use mathlib.Core.Bool.{Bool, ◌||◌, ◌&&◌}
use mathlib.Core.Option.{Option, some}
use candle_mind.Base.Text.{Text}
use candle_mind.Base.Tests.{if◌then◌else◌}
use candle_mind.Base.Int.{ℤ, pos, negsuc, eq_ℤ, leb_ℤ}

-- A ValueError with its message, or a value.
pub data Checked (A : Type 0) : Type 0 where
  refused : Text → Checked A
  accepted : A → Checked A
  -- An AssertionError, an IndexError, a KeyError or a TypeError.
  crashed : Checked A

-- The checks of a validation, in order: the message of the first that fails.
abbrev pub refuse_if : Bool → Text → Option Text → Option Text
refuse_if b message later = if b then some message else later

abbrev pub is_side : ℤ → Bool
is_side d = eq_ℤ d (negsuc 0) || eq_ℤ d (pos 1)

-- Flat, or one to `max_layers` layers on one side.
abbrev pub is_position : ℤ → ℤ × ℤ → Bool
is_position max_layers (d, l) =
    if eq_ℤ d (pos 0) then eq_ℤ l (pos 0) else is_side d && leb_ℤ (pos 1) l && leb_ℤ l max_layers
