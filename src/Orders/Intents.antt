-- ===== src/Orders/Intents.antt =====
-- exchange_executor.py: what an order is made of, and what the exchange answers.
use candle_mind.Orders.Rules.{refuse, non_negative_decimal, ExecutionFault, Decimals}
use candle_mind.Journal.Validate.{is_alnum}
use candle_mind.Json.Value.{Json}
use candle_mind.Base.Result.{ok, ◌>>=◌, Result}
use candle_mind.Base.Int.{pos, eq_ℤ, ℤ}
use candle_mind.Json.{int_text}
use candle_mind.Base.Text.{text_eq, upper, codes, strip, Text}
use candle_mind.Base.{
  take, all, ◌||◌, get_or, any, Option, eq_Bool, Bool, [], not, ◌∷◌, ◌++◌, false, true,
  if◌then◌else◌,
}

pub data OrderIntentType : Type 0 where
  opening adding closing : OrderIntentType

abbrev pub is_closing : OrderIntentType → Bool
is_closing OrderIntentType.closing = true
is_closing _ = false

-- `action.value`
abbrev pub action_value : OrderIntentType → Text
action_value OrderIntentType.opening = codes "open"
action_value OrderIntentType.adding = codes "add"
action_value OrderIntentType.closing = codes "close"

-- `_symbol`; the letters and digits are those of ASCII.
unfoldable pub normalized_symbol : Text → Result ExecutionFault Text
unfolding strip upper text_eq
normalized_symbol value =
    let normalized = upper (strip value) in
    refuse (text_eq normalized [] || not (all is_alnum normalized)) ExecutionFault.execution_error
      (ok normalized)

module _ (K : Decimals) where
  pub record OrderIntent : Type 0 where
    pub symbol : Text
    pub action : OrderIntentType
    pub direction : ℤ
    pub quantity : K.D
    pub decision_id : Text
    pub ordinal : ℤ

  -- The parameters of `futures_create_order` that differ from order to order.
  pub record OrderParams : Type 0 where
    pub symbol : Text
    pub side : Text
    pub quantity : Text
    pub new_client_order_id : Text
    pub reduce_only : Bool

  -- An answer's fields; `none` is a key that is missing, and of `status` also None and ""; a missing
  -- quantity or price is "0".
  pub record Payload : Type 0 where
    pub symbol : Option Text
    pub status : Option Text
    pub side : Option Text
    pub executed_qty : Json
    pub avg_price : Json
    pub order_id : Option ℤ
    pub client_order_id : Option Text

  pub record ExecutionResult : Type 0 where
    pub symbol : Text
    pub action : OrderIntentType
    pub status : Text
    pub side : Text
    pub quantity : K.D
    pub executed_quantity : K.D
    pub average_price : K.D
    pub order_id : Option ℤ
    pub client_order_id : Text
    pub recovered_after_ambiguous_submit : Bool

  -- `side`
  unfoldable pub side_of : OrderIntent → Text
  side_of i =
      if eq_Bool (eq_ℤ i.direction (pos 1)) (is_closing i.action) then codes "SELL" else codes "BUY"

  abbrev id_of : (Text → Text) → OrderIntent → Text → Text
  id_of sha256 i symbol =
      codes "cm"
      ++ take 30 (
          sha256 (
            symbol
            ++ codes "|"
            ++ action_value i.action
            ++ codes "|"
            ++ int_text i.direction
            ++ codes "|"
            ++ i.decision_id
            ++ codes "|"
            ++ int_text i.ordinal))

  -- `deterministic_client_order_id`; `sha256` is `hashlib.sha256(source).hexdigest()`.
  unfoldable pub deterministic_client_order_id :
      (Text → Text) → OrderIntent → Result ExecutionFault Text
  unfolding normalized_symbol int_text
  deterministic_client_order_id sha256 i =
      normalized_symbol i.symbol >>= λ symbol. ok (id_of sha256 i symbol)

  abbrev pub result_of :
      OrderIntent → K.D → Text → Payload → Bool → Text → K.D → K.D → ExecutionResult
  result_of i quantity client_order_id p recovered symbol executed average = record {
    symbol = symbol;
    action = i.action;
    status = upper (get_or p.status (codes "UNKNOWN"));
    side = upper (get_or p.side (side_of i));
    quantity = quantity;
    executed_quantity = executed;
    average_price = average;
    order_id = p.order_id;
    client_order_id = get_or p.client_order_id client_order_id;
    recovered_after_ambiguous_submit = recovered;
  }

  -- `_normalize_result`
  unfoldable pub normalize_result :
      OrderIntent → K.D → Text → Payload → Bool → Result ExecutionFault ExecutionResult
  unfolding normalized_symbol upper side_of
  normalize_result i quantity client_order_id p recovered =
      normalized_symbol (get_or p.symbol []) >>= λ symbol.
      non_negative_decimal K (K.decimal_of p.executed_qty) >>= λ executed.
      non_negative_decimal K (K.decimal_of p.avg_price) >>= λ average.
      ok (result_of i quantity client_order_id p recovered symbol executed average)

  -- `status in {"FILLED", "REJECTED", "EXPIRED", "CANCELED"}`
  unfoldable pub is_final : ExecutionResult → Bool
  unfolding text_eq
  is_final r =
      any (text_eq r.status)
        (codes "FILLED" ∷ codes "REJECTED" ∷ codes "EXPIRED" ∷ codes "CANCELED" ∷ [])
