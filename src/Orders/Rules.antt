-- ===== src/Orders/Rules.antt =====
-- exchange_executor.py: decimals, the rules of a symbol, and the quantity of a layer.
use candle_mind.Base.Text.{Text}
use candle_mind.Base.Int.{pos, ltb_ℤ, ℤ}
use candle_mind.Base.Result.{◌>>=◌, err, ok, Result}
use candle_mind.Json.Value.{Json}
use candle_mind.Base.{refl, none, some, Option, Bool, not, false, true, ◌≡◌, if◌then◌else◌}

-- ExchangeExecutionError, UnsupportedAccountError, the gateway's three errors, RecoveryRequiredError,
-- and the ValueError or TypeError of `int`.
pub data ExecutionFault : Type 0 where
  execution_error unsupported_account : ExecutionFault
  gateway_unavailable gateway_rejected gateway_authentication : ExecutionFault
  recovery_required conversion_error : ExecutionFault

abbrev pub refuse :
    {A : Type 0} → Bool → ExecutionFault → Result ExecutionFault A → Result ExecutionFault A
refuse b f r = if b then err f else r

pub refuse-parts :
    {A : Type 0} (b : Bool) (f : ExecutionFault) (r : Result ExecutionFault A) (y : A)
    → refuse b f r ≡ ok y
    → (b ≡ false) × (r ≡ ok y)
refuse-parts true f r y h = cc
refuse-parts false f r y h = (refl, h)

pub ok-injective :
    {A : Type 0} (r : Result ExecutionFault A) (x y : A) → r ≡ ok x → r ≡ ok y → x ≡ y
ok-injective (ok a) x y h k = cc
ok-injective (err f) x y h k = cc

pub not-false : (b : Bool) → not b ≡ false → b ≡ true
not-false true h = refl
not-false false h = cc

-- Python's `Decimal` and the operations that the program calls; no law of them is used.
pub record Decimals : Type 1 where
  pub D : Type 0
  pub zero : D
  pub one : D
  -- `Decimal(str(value))`, or `none` where it raises.
  pub decimal_of : Json → Option D
  pub from_int : ℤ → D
  pub is_finite : D → Bool
  pub lt : D → D → Bool
  pub mul : D → D → D
  pub div : D → D → D
  pub add : D → D → D
  pub abs : D → D
  -- `to_integral_value(rounding=ROUND_DOWN)`
  pub round_down : D → D
  -- `format(value, "f")`
  pub show : D → Text
  -- `int(text)`, and of a float by its repr `int(x)` and `x == 0`; `none` where it raises.
  pub int_of_text : Text → Option ℤ
  pub int_of_float : Text → Option ℤ
  pub is_zero_float : Text → Bool

module _ (K : Decimals) where
  -- `_decimal` of what `Decimal(str(value))` gives.
  abbrev pub finite_decimal : Option K.D → Result ExecutionFault K.D
  finite_decimal none = err ExecutionFault.execution_error
  finite_decimal (some x) = refuse (not (K.is_finite x)) ExecutionFault.execution_error (ok x)

  -- `_positive_decimal` and `_non_negative_decimal`
  abbrev pub positive_decimal : Option K.D → Result ExecutionFault K.D
  positive_decimal o =
      finite_decimal o >>= λ x. refuse (not (K.lt K.zero x)) ExecutionFault.execution_error (ok x)

  abbrev pub non_negative_decimal : Option K.D → Result ExecutionFault K.D
  non_negative_decimal o =
      finite_decimal o >>= λ x. refuse (K.lt x K.zero) ExecutionFault.execution_error (ok x)

  pub record SymbolRules : Type 0 where
    pub step_size : K.D
    pub min_quantity : K.D
    pub max_quantity : K.D
    pub min_notional : K.D

  abbrev floored : SymbolRules → K.D → K.D
  floored rules value = K.mul (K.round_down (K.div value rules.step_size)) rules.step_size

  abbrev pub within : SymbolRules → K.D → Result ExecutionFault K.D
  within rules q =
      refuse (K.lt q rules.min_quantity) ExecutionFault.execution_error
        (refuse (K.lt rules.max_quantity q) ExecutionFault.execution_error (ok q))

  -- `floor_quantity`
  unfoldable pub floor_quantity : SymbolRules → K.D → Result ExecutionFault K.D
  floor_quantity rules quantity =
      positive_decimal (some quantity) >>= λ value. within rules (floored rules value)

  abbrev notional : SymbolRules → K.D → K.D → Result ExecutionFault K.D
  notional rules quantity price =
      refuse (K.lt (K.mul quantity price) rules.min_notional) ExecutionFault.execution_error
        (ok quantity)

  -- `validate_notional`, which gives the quantity again where it does not raise.
  unfoldable pub validate_notional : SymbolRules → K.D → Option K.D → Result ExecutionFault K.D
  validate_notional rules quantity price =
      positive_decimal price >>= λ reference. notional rules quantity reference

  abbrev smaller : K.D → K.D → K.D
  smaller a b = if K.lt b a then b else a

  abbrev sized : SymbolRules → K.D → K.D → Result ExecutionFault K.D
  sized rules budget price = floor_quantity rules (K.div budget price) >>= λ quantity.
      validate_notional rules quantity (some price)

  abbrev up_to_one : K.D → Result ExecutionFault K.D
  up_to_one x = refuse (K.lt K.one x) ExecutionFault.execution_error (ok x)

  -- `layer_quantity`; the four values are what `Decimal(str(value))` gives.
  unfoldable pub layer_quantity :
      SymbolRules
      → Option K.D
      → Option K.D
      → Option K.D
      → ℤ
      → Option K.D
      → Result ExecutionFault K.D
  unfolding floor_quantity validate_notional
  layer_quantity rules available_balance capital_limit reference_price layers target_fraction =
      refuse (ltb_ℤ layers (pos 1)) ExecutionFault.execution_error (
        non_negative_decimal available_balance >>= λ available.
        positive_decimal capital_limit >>= λ limit. positive_decimal reference_price >>= λ price.
        positive_decimal target_fraction >>= λ fraction. up_to_one fraction >>= λ _.
        sized rules (K.div (K.mul (smaller available limit) fraction) (K.from_int layers)) price)

  -- `weighted_layer_quantity`
  unfoldable pub weighted_layer_quantity :
      SymbolRules → Option K.D → Option K.D → Option K.D → Option K.D → Result ExecutionFault K.D
  unfolding floor_quantity validate_notional
  weighted_layer_quantity rules available_balance capital_limit reference_price capital_weight =
      non_negative_decimal available_balance >>= λ available.
      positive_decimal capital_limit >>= λ limit. positive_decimal reference_price >>= λ price.
      positive_decimal capital_weight >>= λ weight.
      up_to_one weight >>= λ _. sized rules (smaller available (K.mul limit weight)) price
