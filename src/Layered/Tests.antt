-- ===== src/Layered/Tests.antt =====
-- The strategy on whole numbers that stand for floats, and its theorem at a bar.
use candle_mind.Base.Checked.{Checked, accepted, crashed, refused}
use candle_mind.Pyramid.Sample.{whole}
use candle_mind.Layered.Decisions.{transition_sar_layered-Behaves, Behaves}
use candle_mind.Base.Text.{text_eq}
use candle_mind.Layered.Checks.{validate_position, validate_signal, validate_config}
use candle_mind.Base.{refl, ◌∷◌, ◌≡◌, [], map, false, List, none, some}
use candle_mind.Layered.Transition.{
  get_elem?, geometric_layer_weights, entry_action, layer_triggered, decide, transition_sar_layered,
}
use candle_mind.Layered.Config.{
  SarLayeredActionType, SarLayeredTransition, SarLayerMode, SarLayeredSignal, SarLayeredState,
  SarLayeredConfig, LayeredPositionSnapshot,
}
use candle_mind.Base.Int.{pos, negsuc}

abbrev config : SarLayeredConfig whole
config = record {
  mode = SarLayerMode.anti_martingale;
  sar_step = pos 1;
  sar_max = pos 1;
  max_layers = pos 4;
  multiplier = pos 1;
  trigger_fraction = pos 1;
}

abbrev signal : SarLayeredSignal whole
signal = record {
  bar_open_time = some 0;
  bar_close_time = some 299999000;
  observed_at = some 300000000;
  decision_close = pos 100;
  sar_direction = pos 1;
  sar_reversal = false;
}

abbrev fresh : SarLayeredState
fresh = record { last_processed_close_time = none }

abbrev long_two : LayeredPositionSnapshot whole
long_two = record { direction = pos 1; layers = pos 2; last_fill_price = some (pos 50) }

abbrev actions_of : Checked (SarLayeredTransition whole) → List SarLayeredActionType
actions_of (accepted t) = map (λ a. a.action) t.actions
actions_of (refused m) = []
actions_of crashed = []

add_test :
    actions_of (transition_sar_layered whole fresh signal long_two config)
    ≡ SarLayeredActionType.add_layer ∷ []
unfolding transition_sar_layered validate_config validate_signal validate_position decide
    layer_triggered entry_action geometric_layer_weights get_elem? text_eq
add_test = refl

reverse_test :
    actions_of (
      transition_sar_layered whole fresh
        (record signal { sar_direction = negsuc 0 })
        long_two
        config)
    ≡ SarLayeredActionType.reverse_close ∷ SarLayeredActionType.open_first ∷ []
unfolding transition_sar_layered validate_config validate_signal validate_position decide
    layer_triggered entry_action geometric_layer_weights get_elem? text_eq
reverse_test = refl

transition_sar_layered-Behaves_example :
    Behaves whole fresh signal long_two config
      (transition_sar_layered whole fresh signal long_two config)
transition_sar_layered-Behaves_example =
    transition_sar_layered-Behaves whole fresh signal long_two config
