-- ===== src/Layered/Transition.antt =====
-- sar_layered.py: the weights of the layers, and the decision at one closed bar.
use candle_mind.Base.Floats.{Floats}
use candle_mind.Base.Int.{eq_ℤ}
use candle_mind.Base.Checked.{Checked, accepted, crashed, refused}
use candle_mind.Layered.Config.{SarLayerMode}
use candle_mind.Base.Text.{Text, codes}
use candle_mind.Layered.Checks.{validate_position, validate_signal, validate_config}
use candle_mind.Base.Int.{leb_ℤ, pos, ltb_ℤ, pos_part, ℤ}
use candle_mind.Layered.Config.{
  LayeredPositionSnapshot, SarLayeredTransition, SarLayeredAction, SarLayeredSignal,
  SarLayeredConfig, SarLayeredActionType, SarLayeredState,
}
use candle_mind.Base.{
  ◌==◌, not, ltb, ◌||◌, zero, if◌then◌else◌, some, suc, none, Option, ◌++◌, [], Bool, ℕ, ◌∷◌, List,
}

-- `l[n]` of a tuple
unfoldable pub get_elem? : {A : Type 0} → List A → ℕ → Option A
get_elem? [] n = none
get_elem? (x ∷ xs) zero = some x
get_elem? (x ∷ xs) (suc n) = get_elem? xs n

module _ (R : Floats) where
  -- `tuple(multiplier**index for index in range(…))` from `index` on.
  unfoldable pub raw_weights : R.F → ℕ → ℕ → List R.F
  raw_weights multiplier index zero = []
  raw_weights multiplier index (suc n) =
      R.pow multiplier index ∷ raw_weights multiplier (suc index) n

  -- `tuple(value / total for value in raw[:-1])`
  unfoldable pub prefix_weights : R.F → List R.F → List R.F
  prefix_weights total [] = []
  prefix_weights total (x ∷ []) = []
  prefix_weights total (x ∷ y ∷ l) = R.div x total ∷ prefix_weights total (y ∷ l)

  -- `geometric_layer_weights` of a count and a multiplier that were validated.
  unfoldable pub geometric_layer_weights : ℕ → R.F → List R.F
  unfolding raw_weights prefix_weights
  geometric_layer_weights max_layers multiplier =
      let raw = raw_weights multiplier 0 max_layers in
      let prefix = prefix_weights (R.fsum raw) raw in
      prefix ++ R.sub (R.literal (codes "1.0")) (R.fsum prefix) ∷ []

  -- `config.layer_weights`
  abbrev pub layer_weights : SarLayeredConfig R → List R.F
  layer_weights c = geometric_layer_weights (pos_part c.max_layers) c.multiplier

  abbrev pub weighted : SarLayeredActionType → ℤ → ℕ → Option R.F → Option (SarLayeredAction R)
  weighted action direction n none = none
  weighted action direction n (some weight) = some (record {
    action = action;
    direction = direction;
    layer = some (pos (suc n));
    capital_weight = weight;
  })

  -- `_entry_action` of layer `n + 1`; `none` is the IndexError.
  unfoldable pub entry_action :
      SarLayeredActionType → ℤ → ℕ → List R.F → Option (SarLayeredAction R)
  entry_action action direction n weights = weighted action direction n (get_elem? weights n)

  -- `_layer_triggered` at an anchor.
  unfoldable pub layer_triggered : R.F → R.F → ℤ → SarLayeredConfig R → Bool
  layer_triggered close anchor direction c =
      let step = R.mul (R.from_int direction) c.trigger_fraction in
      let one = R.literal (codes "1.0") in
      let favorable_threshold = R.mul anchor (R.add one step) in
      let adverse_threshold = R.mul anchor (R.sub one step) in
      let long = ltb_ℤ (pos 0) direction in
      elim c.mode [
        | SarLayerMode.martingale ↦
            if long then R.le close adverse_threshold else R.le adverse_threshold close
        | SarLayerMode.anti_martingale ↦
            if long then R.le favorable_threshold close else R.le close favorable_threshold
      ]

  abbrev pub close_action : ℤ → SarLayeredAction R
  close_action direction = record {
    action = SarLayeredActionType.reverse_close;
    direction = direction;
    layer = none;
    capital_weight = R.literal (codes "0.0");
  }

  abbrev pub decided :
      SarLayeredState
      → List (SarLayeredAction R)
      → Option (SarLayeredAction R)
      → Checked (SarLayeredTransition R)
  decided state first none = crashed
  decided state first (some a) = accepted (record { state = state; actions = first ++ a ∷ [] })

  abbrev pub waits : SarLayeredState → Checked (SarLayeredTransition R)
  waits state = accepted (record { state = state; actions = [] })

  abbrev pub add_if :
      SarLayeredState
      → SarLayeredSignal R
      → LayeredPositionSnapshot R
      → SarLayeredConfig R
      → Option R.F
      → Checked (SarLayeredTransition R)
  add_if state s p c none = crashed
  add_if state s p c (some anchor) =
      if layer_triggered s.decision_close anchor p.direction c
      then decided state [] (
          entry_action SarLayeredActionType.add_layer p.direction (pos_part p.layers)
            (layer_weights c))
      else waits state

  -- The decision on a bar that is later than the last one.
  unfoldable pub decide :
      SarLayeredState
      → SarLayeredSignal R
      → LayeredPositionSnapshot R
      → SarLayeredConfig R
      → Checked (SarLayeredTransition R)
  decide next_state s p c =
      let enter =
        entry_action SarLayeredActionType.open_first s.sar_direction 0 (layer_weights c) in
      if eq_ℤ p.direction (pos 0)
      then decided next_state [] enter
      else if s.sar_reversal || not (eq_ℤ s.sar_direction p.direction)
      then decided next_state (close_action p.direction ∷ []) enter
      else if leb_ℤ c.max_layers p.layers
      then waits next_state
      else add_if next_state s p c p.last_fill_price

  abbrev pub after_previous :
      SarLayeredState
      → SarLayeredSignal R
      → LayeredPositionSnapshot R
      → SarLayeredConfig R
      → ℕ
      → Option (Option ℕ)
      → Checked (SarLayeredTransition R)
  after_previous state s p c close_time none =
      decide (record { last_processed_close_time = some (some close_time) }) s p c
  after_previous state s p c close_time (some none) =
      refused (codes "bar timestamps must be timezone-aware")
  after_previous state s p c close_time (some (some previous)) =
      if ltb close_time previous
      then refused (codes "bars must not be processed out of order")
      else if previous == close_time
      then waits state
      else decide (record { last_processed_close_time = some (some close_time) }) s p c

  abbrev pub on_position :
      SarLayeredState
      → SarLayeredSignal R
      → LayeredPositionSnapshot R
      → SarLayeredConfig R
      → ℕ
      → Option Text
      → Checked (SarLayeredTransition R)
  on_position state s p c close_time (some m) = refused m
  on_position state s p c close_time none =
      after_previous state s p c close_time state.last_processed_close_time

  abbrev pub on_signal :
      SarLayeredState
      → SarLayeredSignal R
      → LayeredPositionSnapshot R
      → SarLayeredConfig R
      → Checked ℕ
      → Checked (SarLayeredTransition R)
  on_signal state s p c (refused m) = refused m
  on_signal state s p c crashed = crashed
  on_signal state s p c (accepted close_time) =
      on_position state s p c close_time (validate_position R p c)

  abbrev pub on_config :
      SarLayeredState
      → SarLayeredSignal R
      → LayeredPositionSnapshot R
      → SarLayeredConfig R
      → Option Text
      → Checked (SarLayeredTransition R)
  on_config state s p c (some m) = refused m
  on_config state s p c none = on_signal state s p c (validate_signal R s)

  -- `transition_sar_layered`
  unfoldable pub transition_sar_layered :
      SarLayeredState
      → SarLayeredSignal R
      → LayeredPositionSnapshot R
      → SarLayeredConfig R
      → Checked (SarLayeredTransition R)
  transition_sar_layered state s p c = on_config state s p c (validate_config R c)
