-- ===== src/Orders/Tests.antt =====
-- The executor with whole numbers that stand for decimals, and its theorems at an order.
use candle_mind.Orders.Safe.{validate_symbol_risk-IsSafe}
use candle_mind.Orders.Risk.{IsSafe}
use candle_mind.Base.Table.{find}
use candle_mind.Base.Result.{ok}
use candle_mind.Orders.Account.{
  symbol_risk_config, non_flat, current_position, validate_symbol_risk, PositionRow, ConfigRow,
  ExchangePosition,
}
use candle_mind.Binance.Classify.{classify_binance_failure}
use candle_mind.Json.{int_text}
use candle_mind.Json.Value.{Json}
use candle_mind.Orders.Submits.{execute-Executes, Executes}
use candle_mind.Base.Int.{neg_part, pos_part, ltb_ℤ, ℤ, pos}
use candle_mind.Base.Text.{lower, upper, is_space, lstrip, strip, text_eq, codes, Text}
use candle_mind.Binance.Failure.{Exception}
use candle_mind.Binance.Executor.{
  may_repeat, after_failure, send, remaining, cool_down, attempts, run_call, default_policy,
  is_policy,
}
use candle_mind.Orders.Lookup.{lookup_order-Looks, Looks}
use candle_mind.Orders.Execute.{
  poll, order, is_authorized, submission_failed, Network, submit, prepare, assertion_error,
  lookup_order, Market, execute, Desk,
}
use candle_mind.Orders.Intents.{
  normalize_result, is_final, side_of, deterministic_client_order_id, normalized_symbol,
  OrderIntentType, Payload, OrderIntent,
}
use candle_mind.Orders.Rules.{floor_quantity, SymbolRules, Decimals}
use candle_mind.Base.{
  ◌/◌, ◌+◌, ◌*◌, inr, refl, map, none, inl, ◌==◌, Bool, some, [], ◌∷◌, true, false, ◌≡◌, List,
  if◌then◌else◌,
}

abbrev whole : Decimals
whole = record {
  D = ℤ;
  zero = pos 0;
  one = pos 1;
  decimal_of = λ j. elim j [ Json.int n ↦ some n | _ ↦ some (pos 0) ];
  from_int = λ n. n;
  is_finite = λ x. true;
  lt = ltb_ℤ;
  mul = λ x y. pos (pos_part x * pos_part y);
  div = λ x y. pos (pos_part x / pos_part y);
  add = λ x y. pos (pos_part x + pos_part y);
  abs = λ x. pos (pos_part x + neg_part x);
  round_down = λ x. x;
  show = int_text;
  int_of_text = λ t. none;
  int_of_float = λ t. none;
  is_zero_float = λ t. false;
}

abbrev filled : Payload whole
filled = record {
  symbol = some (codes "BTCUSDT");
  status = some (codes "FILLED");
  side = some (codes "SELL");
  executed_qty = Json.int (pos 6);
  avg_price = Json.int (pos 100);
  order_id = some (pos 9);
  client_order_id = none;
}

abbrev timed_out : Exception
timed_out = record assertion_error { is_timeout = true }

-- The submission times out, and the lookup finds the order filled.
abbrev market : Market whole
market = record {
  sha256 = λ t. t;
  policy = default_policy;
  answers = λ n. record {
    answer = λ k. if n == 0 then inl timed_out else inr filled;
    answered_at = λ k t. t + 100;
    wakes_at = λ t d. t + d;
    random = λ k. pos 0;
    wall_clock = λ t. t;
  };
  is_os_error = λ e. e.is_timeout;
  trading_enabled = codes "true";
  wakes_at = λ t d. t + d;
}

abbrev rules : SymbolRules whole
rules = record {
  step_size = pos 2;
  min_quantity = pos 2;
  max_quantity = pos 100;
  min_notional = pos 5;
}

-- To close a long of seven.
abbrev intent : OrderIntent whole
intent = record {
  symbol = codes " btcusdt ";
  action = OrderIntentType.closing;
  direction = pos 1;
  quantity = pos 7;
  decision_id = codes "d1";
  ordinal = pos 0;
}

abbrev desk : Desk whole
desk = record {
  world = record { clock = 1000; deadline = 0; slept = 0; requests = [] };
  runs = 0;
  submitted = [];
}

abbrev sides_of : Desk whole → List (Text × Text × Bool)
sides_of d = map (λ s. (s.params.side, s.params.quantity, s.params.reduce_only)) d.submitted

close_test :
    sides_of (execute whole market rules (some Network.mainnet) intent desk).1
    ≡ (codes "SELL", codes "6", true) ∷ []
unfolding execute prepare submit submission_failed is_authorized normalized_symbol floor_quantity
    deterministic_client_order_id side_of int_text order poll is_final normalize_result run_call
    attempts cool_down remaining send after_failure may_repeat classify_binance_failure text_eq
    strip lstrip is_space upper lower
close_test = refl

execute-Executes_example :
    Executes whole market rules
      (some Network.mainnet)
      intent
      desk
      (execute whole market rules (some Network.mainnet) intent desk)
unfolding is_policy
execute-Executes_example =
    execute-Executes whole market rules (some Network.mainnet) intent desk refl

lookup_order-Looks_example : Looks whole market desk (lookup_order whole market rules intent desk)
lookup_order-Looks_example = lookup_order-Looks whole market rules intent desk

abbrev row : PositionRow whole
row = record {
  position_amt = Json.int (pos 7);
  entry_price = Json.int (pos 90);
  isolated = some (Json.bool true);
  leverage = none;
}

abbrev settings : List (ConfigRow whole)
settings =
    record {
      symbol = codes "BTCUSDT";
      margin_type = codes "isolated";
      leverage = some (Json.int (pos 1));
    }
    ∷ []

abbrev position : ExchangePosition whole
position = record {
  symbol = codes "BTCUSDT";
  direction = pos 1;
  quantity = pos 7;
  entry_price = pos 90;
  isolated = true;
  leverage = pos 1;
}

position_valid :
    validate_symbol_risk whole (codes "btcusdt") (ok (row ∷ [])) (ok settings) ≡ ok position
unfolding validate_symbol_risk current_position normalized_symbol non_flat symbol_risk_config find
    text_eq upper strip lstrip is_space
position_valid = refl

validate_symbol_risk-IsSafe_example :
    (normalized_symbol (codes "btcusdt") ≡ ok position.symbol)
    × IsSafe whole position.symbol (ok (row ∷ [])) (ok settings) position
validate_symbol_risk-IsSafe_example =
    validate_symbol_risk-IsSafe whole (codes "btcusdt") (ok (row ∷ [])) (ok settings) position
      position_valid
