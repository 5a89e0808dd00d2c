-- ===== src/Orders/Execute.antt =====
-- exchange_executor.py: `execute` and `lookup`. Each request goes through the retry executor, so that a
-- submission or a lookup is one run of it.
use candle_mind.Base.Checked.{is_side}
use candle_mind.Binance.Classify.{classify_binance_failure}
use candle_mind.Base.Int.{ltb_ℤ, pos}
use candle_mind.Base.Result.{ok, ◌>>=◌, err, Result}
use candle_mind.Binance.Executor.{
  is_not_accepted, Outside, Request, BinanceRetryPolicy, Answer, Outcome, BinanceOperation, World,
  run_call,
}
use candle_mind.Orders.Intents.{
  is_closing, side_of, ExecutionResult, deterministic_client_order_id, is_final, Payload,
  normalized_symbol, OrderParams, OrderIntent, normalize_result,
}
use candle_mind.Orders.Rules.{refuse, ExecutionFault, SymbolRules, floor_quantity, Decimals}
use candle_mind.Base.Text.{codes, strip, lower, Text, text_eq}
use candle_mind.Binance.Failure.{Attribute, BinanceFailureCategory, Exception}
use candle_mind.Base.{
  any, is_some, inl, some, suc, inr, ◌||◌, none, Option, ℕ, Bool, [], not, ◌∷◌, false, true, List,
  if◌then◌else◌, zero,
}

pub data Network : Type 0 where
  testnet mainnet : Network

-- `BinanceCooldownActive()`
abbrev pub cooldown_exception : Exception
cooldown_exception = record {
  is_ssl_error = false;
  is_timeout = false;
  is_connection_error = false;
  is_request_exception = false;
  is_api_exception = false;
  status_code = Attribute.integer (pos 418);
  code = Attribute.missing;
  message = some (codes "Binance process cooldown is active");
  response = none;
}

-- The AssertionError of a loop that ends.
abbrev pub assertion_error : Exception
assertion_error = record cooldown_exception { status_code = Attribute.missing; message = none }

-- What a run of the retry executor raises or returns.
abbrev pub answer_of : {T : Type 0} → Outcome T → Answer T
answer_of (Outcome.returned v) = inr v
answer_of (Outcome.raised e) = inl e
answer_of Outcome.cooldown_active = inl cooldown_exception
answer_of Outcome.exhausted = inl assertion_error

-- The tests of `_require_write_authorized`; `enabled` is CANDLEMIND_MAINNET_TRADING_ENABLED.
unfoldable pub is_authorized : Option Network → Text → Bool
unfolding text_eq lower strip
is_authorized none enabled = false
is_authorized (some Network.testnet) enabled = true
is_authorized (some Network.mainnet) enabled =
    any (text_eq (lower (strip enabled))) (codes "1" ∷ codes "true" ∷ codes "yes" ∷ [])

module _ (K : Decimals) where
  -- What is outside of the executor: SHA-256, how the n-th run of the retry executor is answered,
  -- which exceptions are an OSError, the environment's variable, and when a sleep ends.
  pub record Market : Type 0 where
    pub sha256 : Text → Text
    pub policy : BinanceRetryPolicy
    pub answers : ℕ → Outside (Payload K)
    pub is_os_error : Exception → Bool
    pub trading_enabled : Text
    pub wakes_at : ℕ → ℕ → ℕ

  -- A run with WRITE_SUBMIT: the order, and the requests that were sent, the last one first.
  pub record Submission : Type 0 where
    pub params : OrderParams K
    pub requests : List Request

  -- The clock and the cooldown, how many runs there were, and the submissions, the last one first.
  pub record Desk : Type 0 where
    pub world : World
    pub runs : ℕ
    pub submitted : List Submission

  module _ (market : Market) where
    -- One run of the retry executor.
    abbrev pub run_of : BinanceOperation → Desk → Outcome (Payload K) × World
    run_of operation desk =
        run_call market.policy (market.answers desk.runs) operation
          (record desk.world { requests = [] })

    -- `self.gateway.retry_executor.run(WRITE_SUBMIT, …)`
    unfoldable pub submit : OrderParams K → Desk → Answer (Payload K) × Desk
    unfolding run_call
    submit params desk = (
      answer_of (run_of BinanceOperation.write_submit desk).0,
      record {
        world = (run_of BinanceOperation.write_submit desk).1;
        runs = suc desk.runs;
        submitted =
            record {
              params = params;
              requests = (run_of BinanceOperation.write_submit desk).1.requests;
            }
            ∷ desk.submitted;
      },
    )

    -- `self.gateway.order(…)`
    unfoldable pub order : Desk → Answer (Payload K) × Desk
    unfolding run_call
    order desk = (
      answer_of (run_of BinanceOperation.write_reconcile desk).0,
      record desk {
        world = (run_of BinanceOperation.write_reconcile desk).1;
        runs = suc desk.runs;
      },
    )

    -- `time.sleep(0.2)`
    abbrev pub sleeps : Desk → Desk
    sleeps desk = record desk {
      world = record desk.world { clock = market.wakes_at desk.world.clock 200000 };
    }

    abbrev pub Reply : Type 0
    Reply = Result ExecutionFault (ExecutionResult K) × Desk

    module _ (i : OrderIntent K) (quantity : K.D) (client_order_id : Text) (recovered : Bool) where
      -- A result that `_normalize_result` made, or what it raises.
      abbrev pub with_result :
          (ExecutionResult K → Desk → Reply)
          → Result ExecutionFault (ExecutionResult K)
          → Desk
          → Reply
      with_result next (err f) desk = (err f, desk)
      with_result next (ok r) desk = next r desk

      abbrev pub polled : (ExecutionResult K → Desk → Reply) → Answer (Payload K) × Desk → Reply
      polled next (inl e, desk) = (err ExecutionFault.recovery_required, desk)
      polled next (inr p, desk) =
          with_result next (normalize_result K i quantity client_order_id p recovered) desk

      -- The loop of `execute`, of which `left` rounds are left.
      unfoldable pub poll : ℕ → ExecutionResult K → Desk → Reply
      unfolding order is_final normalize_result
      poll zero r desk = (err ExecutionFault.recovery_required, desk)
      poll (suc left) r desk =
          if is_final K r then (ok r, desk) else polled (poll left) (order (sleeps desk))

      abbrev pub started : Payload K → Desk → Reply
      started p desk =
          with_result (poll 5) (normalize_result K i quantity client_order_id p recovered) desk

    -- The lookup after a submission whose outcome is unknown.
    abbrev pub recovers : OrderIntent K → K.D → Text → Answer (Payload K) × Desk → Reply
    recovers i quantity client_order_id (inl e, desk) = (err ExecutionFault.recovery_required, desk)
    recovers i quantity client_order_id (inr p, desk) =
        if is_some p.status
        then started i quantity client_order_id true p desk
        else (err ExecutionFault.recovery_required, desk)

    abbrev pub is_unknown : Exception → Bool
    is_unknown e =
        (classify_binance_failure e).retryable || e.is_request_exception || market.is_os_error e

    abbrev pub is_authentication : BinanceFailureCategory → Bool
    is_authentication BinanceFailureCategory.authentication = true
    is_authentication _ = false

    -- The `except` block of a submission.
    unfoldable pub submission_failed : OrderIntent K → K.D → Text → Exception → Desk → Reply
    submission_failed i quantity client_order_id e desk =
        if is_not_accepted (classify_binance_failure e).submission_outcome
        then (if (classify_binance_failure e).retryable
            then (err ExecutionFault.gateway_unavailable, desk)
            else (err ExecutionFault.gateway_rejected, desk))
        else if not (is_unknown e)
        then (if is_authentication (classify_binance_failure e).category
            then (err ExecutionFault.gateway_authentication, desk)
            else (err ExecutionFault.gateway_rejected, desk))
        else recovers i quantity client_order_id (order desk)

    abbrev pub submitted_with : OrderIntent K → K.D → Text → Answer (Payload K) × Desk → Reply
    submitted_with i quantity client_order_id (inr p, desk) =
        started i quantity client_order_id false p desk
    submitted_with i quantity client_order_id (inl e, desk) =
        submission_failed i quantity client_order_id e desk

    abbrev pub params_of : OrderIntent K → Text → K.D → Text → OrderParams K
    params_of i symbol quantity client_order_id = record {
      symbol = symbol;
      side = side_of K i;
      quantity = K.show quantity;
      new_client_order_id = client_order_id;
      reduce_only = is_closing i.action;
    }

    -- What an order is made from, where no check raises.
    pub record Prepared : Type 0 where
      pub symbol : Text
      pub quantity : K.D
      pub client_order_id : Text

    -- The checks of `execute`, in order.
    unfoldable pub prepare :
        SymbolRules K → Option Network → OrderIntent K → Result ExecutionFault Prepared
    unfolding is_authorized normalized_symbol floor_quantity deterministic_client_order_id strip
        text_eq
    prepare rules network i =
        refuse (not (is_authorized network market.trading_enabled))
          ExecutionFault.unsupported_account
          (normalized_symbol i.symbol >>= λ symbol.
            refuse (not (is_side i.direction)) ExecutionFault.execution_error (
              refuse (text_eq (strip i.decision_id) [] || ltb_ℤ i.ordinal (pos 0))
                ExecutionFault.execution_error
                (floor_quantity K rules i.quantity >>= λ quantity.
                  deterministic_client_order_id K market.sha256 i >>= λ client_order_id.
                  ok (record {
                    symbol = symbol;
                    quantity = quantity;
                    client_order_id = client_order_id;
                  }))))

    abbrev pub executed : OrderIntent K → Result ExecutionFault Prepared → Desk → Reply
    executed i (err f) desk = (err f, desk)
    executed i (ok o) desk =
        submitted_with i o.quantity o.client_order_id
          (submit (params_of i o.symbol o.quantity o.client_order_id) desk)

    -- `execute`
    unfoldable pub execute : SymbolRules K → Option Network → OrderIntent K → Desk → Reply
    execute rules network i desk = executed i (prepare rules network i) desk

    abbrev pub found : OrderIntent K → K.D → Text → Answer (Payload K) × Desk → Reply
    found i quantity client_order_id (inl e, desk) = (err ExecutionFault.recovery_required, desk)
    found i quantity client_order_id (inr p, desk) =
        if is_some p.status
        then (normalize_result K i quantity client_order_id p true, desk)
        else (err ExecutionFault.recovery_required, desk)

    abbrev pub looked_up : OrderIntent K → Result ExecutionFault (K.D × Text) → Desk → Reply
    looked_up i (err f) desk = (err f, desk)
    looked_up i (ok (quantity, client_order_id)) desk =
        found i quantity client_order_id (order desk)

    -- `lookup`
    unfoldable pub lookup_order : SymbolRules K → OrderIntent K → Desk → Reply
    lookup_order rules i desk =
        looked_up i
          (normalized_symbol i.symbol >>= λ symbol.
            floor_quantity K rules i.quantity >>= λ quantity.
            deterministic_client_order_id K market.sha256 i >>= λ client_order_id.
            ok (quantity, client_order_id))
          desk
