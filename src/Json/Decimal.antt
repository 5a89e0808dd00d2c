-- ===== src/Json/Decimal.antt =====
-- `Decimal(str(value))` of Python's decimal module, and the comparison of two finite decimals.
-- A number is `(-1) ^ negative * coefficient * 10 ^ exponent`.
use candle_mind.Base.Search.{strip_prefix}
use candle_mind.Base.Int.{pos, neg_part, negsuc, pos_part, sub_ℕ}
use candle_mind.Base.Table.{select}
use candle_mind.Json.{ℤ, Json, int_text}
use candle_mind.Base.Text.{lower, codes, strip, text_eq, Text}
use candle_mind.Base.{
  zero, refl, true, [], length, some, ◌-◌, ◌^◌, ◌+◌, ◌==◌, ◌≡◌, not, suc, ◌*◌, leb, none, false,
  ◌||◌, if◌then◌else◌, ◌∷◌, ◌&&◌, Option, ltb, all, ℕ, Bool,
}

pub data Decimal : Type 0 where
  number : Bool → ℕ → ℤ → Decimal
  infinite : Decimal
  nan : Decimal
  -- A signalling NaN: to compare it raises InvalidOperation.
  snan : Decimal

-- The digits at the front, as (value, how many, what follows) on top of a value and a count.
unfoldable pub digits : Text → ℕ → ℕ → ℕ × ℕ × Text
digits [] v n = (v, n, [])
digits (c ∷ t) v n =
    let rest = digits t (v * 10 + (c - b'0')) (suc n) in
    if leb b'0' c && leb c b'9' then rest else (v, n, c ∷ t)

-- The exponent `e` less the `k` digits after the point.
abbrev scaled : Bool → ℕ → ℕ → ℤ
scaled minus e k = if minus then sub_ℕ 0 (e + k) else sub_ℕ e k

exponent_digits : Bool → ℕ → ℕ → Bool → Text → Option Decimal
unfolding digits
exponent_digits negative v k minus t =
    let (e, n, rest) = digits t 0 0 in
    if n == 0 || ltb 0 (length rest) then none else some (number negative v (scaled minus e k))

-- What follows an "e": a sign, and digits.
signed_exponent : Bool → ℕ → ℕ → Text → Option Decimal
unfolding exponent_digits
signed_exponent negative v k [] = none
signed_exponent negative v k (c ∷ t) =
    if c == b'-'
    then exponent_digits negative v k true t
    else if c == b'+'
    then exponent_digits negative v k false t
    else exponent_digits negative v k false (c ∷ t)

exponent_of : Bool → ℕ → ℕ → ℕ → Text → Option Decimal
unfolding signed_exponent
exponent_of negative v zero k t = none
exponent_of negative v (suc n) k [] = some (number negative v (scaled false 0 k))
exponent_of negative v (suc n) k (c ∷ t) =
    if c == b'e' then signed_exponent negative v k t else none

fraction_of : Bool → ℕ → ℕ → Text → Option Decimal
unfolding exponent_of digits
fraction_of negative v n [] = exponent_of negative v n 0 []
fraction_of negative v n (c ∷ t) =
    let (w, k, rest) = digits t v 0 in
    if c == b'.' then exponent_of negative w (n + k) k rest else exponent_of negative v n 0 (c ∷ t)

all_digits : Text → Bool
all_digits t = all (λ c. leb b'0' c && leb c b'9') t

-- After "nan" come digits only.
payload : Option Text → Bool
unfolding all_digits
payload none = false
payload (some t) = all_digits t

-- A decimal without its sign, in lower case.
unsigned_of : Bool → Text → Option Decimal
unfolding fraction_of digits payload text_eq strip_prefix
unsigned_of negative t =
    let (v, n, rest) = digits t 0 0 in
    if text_eq t (codes "inf") || text_eq t (codes "infinity")
    then some infinite
    else if payload (strip_prefix (codes "nan") t)
    then some nan
    else if payload (strip_prefix (codes "snan") t)
    then some snan
    else fraction_of negative v n rest

signed_of : Text → Option Decimal
unfolding unsigned_of
signed_of [] = none
signed_of (c ∷ t) =
    if c == b'-'
    then unsigned_of true t
    else if c == b'+'
    then unsigned_of false t
    else unsigned_of false (c ∷ t)

-- `Decimal(text)`; `none` is InvalidOperation.
unfoldable pub decimal_of_text : Text → Option Decimal
unfolding signed_of select strip lower
decimal_of_text t = signed_of (lower (select (λ c. not (c == b'_')) (strip t)))

-- `Decimal(str(value))`; the texts of None, of a bool, of a list and of a dict are no decimals.
unfoldable pub decimal_of : Json → Option Decimal
unfolding decimal_of_text int_text
decimal_of (Json.int n) = decimal_of_text (int_text n)
decimal_of (Json.float t) = decimal_of_text t
decimal_of (Json.str t) = decimal_of_text t
decimal_of _ = none

-- `c * 10 ^ e` equals `d * 10 ^ f`.
abbrev pub same_magnitude : ℕ → ℤ → ℕ → ℤ → Bool
same_magnitude c e d f = c * 10 ^ (pos_part e + neg_part f) == d * 10 ^ (pos_part f + neg_part e)

abbrev same_sign : Bool → Bool → Bool
same_sign true true = true
same_sign false false = true
same_sign _ _ = false

-- `a == b` of decimals that are no signalling NaN.
unfoldable pub decimal_eq : Decimal → Decimal → Bool
decimal_eq (number s c e) (number t d f) = same_magnitude c e d f && (same_sign s t || c == 0)
decimal_eq _ _ = false

-- `a.is_finite() and a > 0`
unfoldable pub is_positive_decimal : Decimal → Bool
is_positive_decimal (number false c e) = ltb 0 c
is_positive_decimal _ = false

decimal_test :
    (decimal_of (Json.float (codes "1.50")) ≡ some (number false 150 (negsuc 1)))
    × (decimal_of (Json.str (codes "-2e3")) ≡ some (number true 2 (pos 3)))
    × (decimal_of Json.null ≡ none)
unfolding decimal_of
decimal_test = (refl, refl, refl)
