-- ===== src/Live/Tests.antt =====
-- live_layered_runtime.py: the runtime on whole numbers that stand for floats, and the theorems on it
-- at a baseline and at a bar that opens a position.
use candle_mind.Layered.Checks.{validate_position, validate_signal}
use candle_mind.Layered.Transition.{
  get_elem?, geometric_layer_weights, entry_action, layer_triggered, decide, transition_sar_layered,
}
use candle_mind.Paper.Broker.{is_price}
use candle_mind.Layered.Checks.{validate_config}
use candle_mind.Base.Result.{ok}
use candle_mind.Json.{int_text}
use candle_mind.Base.Text.{text_eq, codes}
use candle_mind.Live.Strategies.{layered_decision, layered_state, layered_strategy}
use candle_mind.Live.Contiguous.{run-Contiguous, Good}
use candle_mind.Pyramid.Config.{PositionSnapshot}
use candle_mind.Runtime.Tape.{locate, TapeRow}
use candle_mind.Base.Int.{negsuc, pos, ℤ}
use candle_mind.Pyramid.Sample.{whole}
use candle_mind.Live.Again.{prepare_decision-Settled, Settled}
use candle_mind.Live.Calls.{step, run, LiveCall, IsLive}
use candle_mind.Live.Plan.{reference_price, commit, DecisionPlan, prepare_decision, Strategy, Live}
use candle_mind.Base.{none, some, [], ◌∷◌, false, true, ◌≡◌, List, ℕ, ◌+◌, refl, map, Bool}
use candle_mind.Layered.Config.{
  SarLayeredActionType, SarLayerMode, SarLayeredConfig, SarLayeredAction, SarLayeredState,
}

abbrev config : SarLayeredConfig whole
config = record {
  mode = SarLayerMode.anti_martingale;
  sar_step = pos 1;
  sar_max = pos 1;
  max_layers = pos 4;
  multiplier = pos 1;
  trigger_fraction = pos 1;
}

abbrev flat : PositionSnapshot whole
flat = record { direction = pos 0; layers = pos 0; anchor = none }

abbrev strategy : Strategy whole (SarLayeredAction whole) SarLayeredState
strategy = layered_strategy whole config (λ t. int_text (pos t)) flat true

abbrev row : ℕ → ℤ → Bool → TapeRow whole
row open_time direction reversal = record {
  open_time = open_time;
  close_time = open_time + 299999;
  open_price = pos 100;
  close = pos 100;
  sar_direction = direction;
  sar_reversal = reversal;
  trend_direction = pos 0;
  entry_trend_direction = pos 0;
}

abbrev tape : List (TapeRow whole)
tape = row 0 (negsuc 0) false ∷ row 300000 (pos 1) true ∷ row 600000 (pos 1) false ∷ []

abbrev new_live : Live whole (SarLayeredAction whole) SarLayeredState
new_live = record {
  state = record { last_processed_close_time = none };
  last_decision = none;
  last_execution = none;
  pending = none;
}

-- The baseline at the first bar, and the decision at the second.
abbrev history : List (LiveCall whole (SarLayeredAction whole) SarLayeredState)
history =
    LiveCall.prepares strategy tape 300100 none
    ∷ LiveCall.commits_plan (codes "299999") true true
    ∷ LiveCall.prepares strategy tape 600100 none
    ∷ LiveCall.commits_plan (codes "599999") true true
    ∷ []

abbrev after_history :
    Live whole (SarLayeredAction whole) SarLayeredState
    × List (DecisionPlan whole (SarLayeredAction whole) SarLayeredState)
after_history = run whole (SarLayeredAction whole) SarLayeredState new_live history

history_test :
    map
      (λ (p : DecisionPlan whole (SarLayeredAction whole) SarLayeredState).
        map (λ a. a.action) p.actions)
      after_history.1
    ≡ [] ∷ (SarLayeredActionType.open_first ∷ []) ∷ []
unfolding run step prepare_decision commit locate reference_price is_price text_eq layered_decision
    transition_sar_layered validate_config validate_signal validate_position decide layer_triggered
    entry_action geometric_layer_weights get_elem? int_text
history_test = refl

new_live-IsLive : IsLive whole (SarLayeredAction whole) SarLayeredState new_live
unfolding IsLive
new_live-IsLive = tt

run-Contiguous_example : Good whole (SarLayeredAction whole) SarLayeredState new_live after_history
run-Contiguous_example =
    run-Contiguous whole (SarLayeredAction whole) SarLayeredState new_live history new_live-IsLive

abbrev baseline : DecisionPlan whole (SarLayeredAction whole) SarLayeredState
baseline = record {
  decision_id = codes "299999";
  actions = [];
  proposed_state = layered_state whole 299999;
  decision_time = 299999;
  execution_time = none;
  reference = none;
  no_action_reason = some (codes "baseline");
}

baseline_prepared :
    prepare_decision whole
      (SarLayeredAction whole)
      SarLayeredState
      strategy
      new_live
      tape
      300100
      none
    ≡ (record new_live { pending = some baseline }, ok (some baseline))
unfolding prepare_decision locate text_eq int_text
baseline_prepared = refl

prepare_decision-Settled_example :
    Settled whole
      (SarLayeredAction whole)
      SarLayeredState
      strategy
      tape
      300100
      none
      baseline
      (record new_live { pending = some baseline })
prepare_decision-Settled_example =
    prepare_decision-Settled whole (SarLayeredAction whole) SarLayeredState strategy new_live tape
      300100 none refl baseline_prepared
