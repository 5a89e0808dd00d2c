-- ===== src/Live/Strategies.antt =====
-- live_strategy_runtime.py and live_layered_runtime.py: what each asks its strategy.
use candle_mind.Pyramid.Transition.{transition_sar_pyramid}
use candle_mind.Layered.Transition.{transition_sar_layered}
use candle_mind.Live.Plan.{Decided, LiveFault, Strategy}
use candle_mind.Base.Result.{ok, err, Result}
use candle_mind.Base.Int.{pos, eq_ℤ, ℤ}
use candle_mind.Base.Checked.{crashed, refused, accepted, Checked}
use candle_mind.Base.Text.{codes, Text}
use candle_mind.Runtime.Tape.{Window, TapeRow, signal_of}
use candle_mind.Base.Floats.{Floats}
use candle_mind.Base.{none, Option, ℕ, some, Bool, [], ◌∷◌, List, if◌then◌else◌, ◌*◌}
use candle_mind.Layered.Config.{
  SarLayeredActionType, SarLayeredSignal, SarLayeredConfig, SarLayeredTransition, SarLayeredAction,
  SarLayeredState,
}
use candle_mind.Pyramid.Config.{
  SarPyramidAction, SarPyramidState, TransitionResult, PositionSnapshot, SarPyramidConfig,
}

module _ (R : Floats) where
  abbrev pub no_action : {A : Type 0} → List A → Option Text
  no_action [] = some (codes "no_strategy_action")
  no_action (a ∷ actions) = none

  abbrev pub pyramid_answer :
      Checked TransitionResult → Result LiveFault (Decided R SarPyramidAction SarPyramidState)
  pyramid_answer (accepted t) =
      ok (record { actions = t.actions; state = t.state; reason = no_action t.actions })
  pyramid_answer (refused m) = err LiveFault.strategy_error
  pyramid_answer crashed = err LiveFault.strategy_error

  -- The signal of LiveStrategyRuntime, and its transition.
  unfoldable pub pyramid_decision :
      (Text → Option ℤ)
      → SarPyramidConfig R
      → PositionSnapshot R
      → Bool
      → SarPyramidState
      → Window R
      → R.F
      → Result LiveFault (Decided R SarPyramidAction SarPyramidState)
  unfolding signal_of
  pyramid_decision timedelta c position eligible state w reference = elim w.previous [
    | none ↦ err LiveFault.key_error
    | some previous ↦ pyramid_answer (
        transition_sar_pyramid R timedelta state (signal_of R previous w.decision eligible) position
          reference c)
  ]

  -- LiveStrategyRuntime
  abbrev pub pyramid_strategy :
      (Text → Option ℤ)
      → SarPyramidConfig R
      → (ℕ → Text)
      → PositionSnapshot R
      → Bool
      → Strategy R SarPyramidAction SarPyramidState
  pyramid_strategy timedelta c decision_id position eligible = record {
    decision_id = decision_id;
    baseline = λ state time. state;
    decide = λ state w cutoff reference.
        pyramid_decision timedelta c position eligible state w reference;
  }

  -- A time in milliseconds, as a datetime in microseconds.
  abbrev pub datetime : ℕ → ℕ
  datetime t = 1000 * t

  abbrev pub layered_state : ℕ → SarLayeredState
  layered_state time = record { last_processed_close_time = some (some (datetime time)) }

  abbrev pub layered_signal : TapeRow R → ℕ → SarLayeredSignal R
  layered_signal d cutoff = record {
    bar_open_time = some (datetime d.open_time);
    bar_close_time = some (datetime d.close_time);
    observed_at = some (datetime cutoff);
    decision_close = d.close;
    sar_direction = d.sar_direction;
    sar_reversal = d.sar_reversal;
  }

  abbrev pub layered_answer :
      Checked (SarLayeredTransition R)
      → Result LiveFault (Decided R (SarLayeredAction R) SarLayeredState)
  layered_answer (accepted t) =
      ok (record { actions = t.actions; state = t.state; reason = no_action t.actions })
  layered_answer (refused m) = err LiveFault.strategy_error
  layered_answer crashed = err LiveFault.strategy_error

  -- The close of a position in a symbol that is not tradable.
  abbrev pub layered_exit : PositionSnapshot R → List (SarLayeredAction R)
  layered_exit position =
      if eq_ℤ position.direction (pos 0)
      then []
      else record {
        action = SarLayeredActionType.reverse_close;
        direction = position.direction;
        layer = none;
        capital_weight = R.literal (codes "0.0");
      }
        ∷ []

  unfoldable pub layered_decision :
      SarLayeredConfig R
      → PositionSnapshot R
      → Bool
      → SarLayeredState
      → Window R
      → ℕ
      → Result LiveFault (Decided R (SarLayeredAction R) SarLayeredState)
  layered_decision c position eligible state w cutoff =
      if eligible
      then layered_answer (
          transition_sar_layered R state (layered_signal w.decision cutoff)
            (record {
              direction = position.direction;
              layers = position.layers;
              last_fill_price = position.anchor;
            })
            c)
      else ok (record {
        actions = layered_exit position;
        state = layered_state w.decision.close_time;
        reason = some (codes "symbol_not_tradable");
      })

  -- LiveLayeredStrategyRuntime
  abbrev pub layered_strategy :
      SarLayeredConfig R
      → (ℕ → Text)
      → PositionSnapshot R
      → Bool
      → Strategy R (SarLayeredAction R) SarLayeredState
  layered_strategy c decision_id position eligible = record {
    decision_id = decision_id;
    baseline = λ state time. layered_state time;
    decide = λ state w cutoff reference. layered_decision c position eligible state w cutoff;
  }
