-- ===== src/Orders/Account.antt =====
-- exchange_executor.py: what an account must look like. The gateway's answers are arguments, each a
-- list of rows or what the gateway raises; a missing amount or price is "0".
use candle_mind.Orders.Intents.{normalized_symbol}
use candle_mind.Json.Value.{Json, Items, Fields}
use candle_mind.Base.Int.{negsuc, eq_ℤ, pos, ℤ}
use candle_mind.Base.Result.{err, ◌>>=◌, Result, ok}
use candle_mind.Base.Table.{find}
use candle_mind.Base.Text.{codes, upper, text_eq, Text}
use candle_mind.Orders.Rules.{
  ExecutionFault, non_negative_decimal, finite_decimal, refuse, Decimals,
}
use candle_mind.Base.{
  get_or, none, ◌+◌, ltb, some, ℕ, ◌||◌, Option, Bool, [], not, ◌∷◌, ◌&&◌, false, true, List,
  if◌then◌else◌,
}

module _ (K : Decimals) where
  pub record PositionRow : Type 0 where
    pub position_amt : Json
    pub entry_price : Json
    -- `none` is a missing value or None.
    pub isolated : Option Json
    pub leverage : Option Json

  pub record ConfigRow : Type 0 where
    pub symbol : Text
    -- `str(row.get("marginType", ""))`
    pub margin_type : Text
    pub leverage : Option Json

  pub record BalanceRow : Type 0 where
    pub asset : Text
    -- `row.get("availableBalance", row.get("withdrawAvailable", "0"))`
    pub available : Json

  pub record ExchangePosition : Type 0 where
    pub symbol : Text
    pub direction : ℤ
    pub quantity : K.D
    pub entry_price : K.D
    pub isolated : Bool
    pub leverage : ℤ

  pub record AccountValidation : Type 0 where
    pub symbol : Text
    pub position_quantity : K.D
    pub open_order_count : ℕ

  abbrev pub Answered : Type 0 → Type 0
  Answered A = Result ExecutionFault A

  -- `bool(quantity)` of a decimal.
  abbrev pub is_nonzero : K.D → Bool
  is_nonzero x = K.lt x K.zero || K.lt K.zero x

  abbrev pub amount_of : PositionRow → Answered K.D
  amount_of row = finite_decimal K (K.decimal_of row.position_amt)

  -- `sum(…, Decimal("0"))`
  unfoldable pub total_amount : K.D → List PositionRow → Answered K.D
  total_amount total [] = ok total
  total_amount total (row ∷ rows) = amount_of row >>= λ x. total_amount (K.add total x) rows

  abbrev pub cons_if : Bool → PositionRow → List PositionRow → List PositionRow
  cons_if b row rows = if b then row ∷ rows else rows

  -- The rows whose position is not flat.
  unfoldable pub non_flat : List PositionRow → Answered (List PositionRow)
  non_flat [] = ok []
  non_flat (row ∷ rows) =
      amount_of row >>= λ x. non_flat rows >>= λ rest. ok (cons_if (is_nonzero x) row rest)

  -- `bool(value)`
  abbrev pub truth : Json → Bool
  truth Json.null = false
  truth (Json.bool b) = b
  truth (Json.int n) = not (eq_ℤ n (pos 0))
  truth (Json.float t) = not (K.is_zero_float t)
  truth (Json.str []) = false
  truth (Json.str (c ∷ cs)) = true
  truth (Json.arr Items.nil) = false
  truth (Json.arr (Items.cons v vs)) = true
  truth (Json.obj Fields.end) = false
  truth (Json.obj (Fields.field k v fs)) = true

  abbrev pub converted : Option ℤ → Answered ℤ
  converted none = err ExecutionFault.conversion_error
  converted (some n) = ok n

  -- `int(value)`
  abbrev pub int_of : Json → Answered ℤ
  int_of (Json.bool b) = ok (if b then pos 1 else pos 0)
  int_of (Json.int n) = ok n
  int_of (Json.float t) = converted (K.int_of_float t)
  int_of (Json.str t) = converted (K.int_of_text t)
  int_of _ = err ExecutionFault.conversion_error

  abbrev pub config_of : Option ConfigRow → Answered (Bool × ℤ)
  config_of none = err ExecutionFault.execution_error
  config_of (some row) = int_of (get_or row.leverage (Json.int (pos 0))) >>= λ leverage.
      ok (text_eq (upper row.margin_type) (codes "ISOLATED"), leverage)

  -- `_symbol_risk_config`
  unfoldable pub symbol_risk_config : Text → Answered (List ConfigRow) → Answered (Bool × ℤ)
  unfolding find text_eq upper
  symbol_risk_config symbol configs =
      configs >>= λ rows. config_of (find (λ row. text_eq row.symbol symbol) rows)

  abbrev pub direction_of : K.D → ℤ
  direction_of q = if K.lt K.zero q then pos 1 else if K.lt q K.zero then negsuc 0 else pos 0

  abbrev pub position_of : Text → PositionRow → K.D → Json × Json → Answered ExchangePosition
  position_of symbol row q risk = non_negative_decimal K (K.decimal_of row.entry_price) >>= λ price.
      int_of risk.1 >>= λ leverage. ok (record {
        symbol = symbol;
        direction = direction_of q;
        quantity = K.abs q;
        entry_price = price;
        isolated = truth risk.0;
        leverage = leverage;
      })

  -- The row's own values, and those of the configuration for what it lacks.
  abbrev pub risk_of : PositionRow → Answered (Bool × ℤ) → Answered (Json × Json)
  risk_of row config = elim row.isolated [
    | none ↦ config >>= λ c. ok (Json.bool c.0, get_or row.leverage (Json.int c.1))
    | some isolated ↦ elim row.leverage [
      | none ↦ config >>= λ c. ok (isolated, Json.int c.1)
      | some leverage ↦ ok (isolated, leverage)
    ]
  ]

  abbrev pub row_position : Text → Answered (Bool × ℤ) → PositionRow → Answered ExchangePosition
  row_position symbol config row =
      amount_of row >>= λ q. risk_of row config >>= λ risk. position_of symbol row q risk

  abbrev pub one_position :
      Text → Answered (Bool × ℤ) → PositionRow → List PositionRow → Answered ExchangePosition
  one_position symbol config first [] = row_position symbol config first
  one_position symbol config first (row ∷ []) = row_position symbol config row
  one_position symbol config first (row ∷ other ∷ rows) = err ExecutionFault.unsupported_account

  abbrev pub flat_position : Text → Bool × ℤ → ExchangePosition
  flat_position symbol risk = record {
    symbol = symbol;
    direction = pos 0;
    quantity = K.zero;
    entry_price = K.zero;
    isolated = risk.0;
    leverage = risk.1;
  }

  abbrev pub position_in : Text → Answered (Bool × ℤ) → List PositionRow → Answered ExchangePosition
  position_in symbol config [] = config >>= λ risk. ok (flat_position symbol risk)
  position_in symbol config (row ∷ rows) =
      non_flat (row ∷ rows) >>= λ held. one_position symbol config row held

  -- `current_position`
  unfoldable pub current_position :
      Text → Answered (List PositionRow) → Answered (List ConfigRow) → Answered ExchangePosition
  current_position symbol positions configs = normalized_symbol symbol >>= λ normalized.
      positions >>= λ rows. position_in normalized (symbol_risk_config normalized configs) rows

  abbrev pub unleveraged : ExchangePosition → Answered ExchangePosition
  unleveraged p =
      refuse (not p.isolated) ExecutionFault.unsupported_account
        (refuse (not (eq_ℤ p.leverage (pos 1))) ExecutionFault.unsupported_account (ok p))

  -- `validate_symbol_risk`
  unfoldable pub validate_symbol_risk :
      Text → Answered (List PositionRow) → Answered (List ConfigRow) → Answered ExchangePosition
  validate_symbol_risk symbol positions configs =
      current_position symbol positions configs >>= λ p. unleveraged p

  -- `validate_one_way_account`; the last three answers are the position rows, and the counts of the
  -- open orders and of the open algo orders.
  unfoldable pub validate_one_way_account :
      Bool
      → Bool
      → Text
      → Answered Bool
      → Answered (List PositionRow)
      → Answered ℕ
      → Answered ℕ
      → Answered AccountValidation
  unfolding total_amount
  validate_one_way_account allow_existing_position allow_open_orders symbol dual positions orders
        algo_orders =
      normalized_symbol symbol >>= λ normalized. dual >>= λ hedged.
      refuse hedged ExecutionFault.unsupported_account (
        positions >>= λ rows. total_amount K.zero rows >>= λ quantity.
        refuse (is_nonzero quantity && not allow_existing_position)
          ExecutionFault.unsupported_account
          (orders >>= λ open_orders. algo_orders >>= λ open_algo_orders.
            refuse (ltb 0 (open_orders + open_algo_orders) && not allow_open_orders)
              ExecutionFault.unsupported_account
              (ok (record {
                symbol = normalized;
                position_quantity = quantity;
                open_order_count = open_orders + open_algo_orders;
              }))))

  abbrev pub balance_of : Option BalanceRow → Answered K.D
  balance_of none = err ExecutionFault.execution_error
  balance_of (some row) = non_negative_decimal K (K.decimal_of row.available)

  -- `available_balance`
  unfoldable pub available_balance : Text → Answered (List BalanceRow) → Answered K.D
  unfolding find text_eq
  available_balance asset balances =
      balances >>= λ rows. balance_of (find (λ row. text_eq row.asset asset) rows)
