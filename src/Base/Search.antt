-- ===== src/Base/Search.antt =====
-- Python's `s in t` of two strings.
use candle_mind.Base.{◌==◌, if◌then◌else◌, [], ◌||◌, none, ◌∷◌, some, is_some, Option, Bool}
use candle_mind.Base.Text.{Text}

-- What of the text follows `s`, if it starts with `s`.
unfoldable pub strip_prefix : Text → Text → Option Text
strip_prefix [] t = some t
strip_prefix (a ∷ s) [] = none
strip_prefix (a ∷ s) (b ∷ t) = let rest = strip_prefix s t in if a == b then rest else none

-- `s in t`
unfoldable pub contains : Text → Text → Bool
unfolding strip_prefix
contains s [] = is_some (strip_prefix s [])
contains s (b ∷ t) = is_some (strip_prefix s (b ∷ t)) || contains s t
