-- ===== src/Pyramid/Tests.antt =====
-- The strategy on whole numbers that stand for floats, and its theorems at a bar and on a frame.
use candle_mind.Pyramid.Sample.{config, hour, whole}
use candle_mind.Pyramid.Causal.{parabolic_sar-Reads, parabolic_sar-causal, Reads}
use candle_mind.Base.Int.{pos, negsuc}
use candle_mind.Pyramid.Accepted.{transition_sar_pyramid-Behaves, Behaves}
use candle_mind.Base.Text.{is_space, lstrip, strip, text_eq}
use candle_mind.Pyramid.Config.{
  SarPyramidActionType, adx_timedelta, SarPyramidAction, initial_state, TransitionResult,
  validate_config, PositionSnapshot, SarPyramidSignal,
}
use candle_mind.Base.Checked.{crashed, refused, accepted, Checked}
use candle_mind.Pyramid.Sar.{
  first_bullish, first_trend, reverses, sar_round, sar_loop, sar_rows, check_sar, unknown_row,
  parabolic_sar, SarRow, Bar,
}
use candle_mind.Pyramid.Transition.{
  does, stepped, regime_entries, entry_aligned, run_of, capacity, entry_ready, may_enter, reversed,
  decide, check_arguments, transition_sar_pyramid,
}
use candle_mind.Base.{refl, some, ℕ, length, [], ◌∷◌, ◌++◌, false, true, ◌≡◌, List}

abbrev signal : SarPyramidSignal whole
signal = record {
  sar_direction = pos 1;
  sar_reversal = true;
  trend_direction = pos 1;
  entry_trend_direction = pos 1;
  previous_trend_direction = pos 1;
  decision_close = pos 100;
  eligible = true;
}

abbrev short_two : PositionSnapshot whole
short_two = record { direction = negsuc 0; layers = pos 2; anchor = some (pos 90) }

abbrev actions_of : Checked TransitionResult → List SarPyramidAction
actions_of (accepted t) = t.actions
actions_of (refused m) = []
actions_of crashed = []

reverse_test :
    actions_of (transition_sar_pyramid whole hour initial_state signal short_two (pos 100) config)
    ≡ does SarPyramidActionType.reverse_close (negsuc 0)
      ∷ does SarPyramidActionType.open_position (pos 1)
      ∷ []
unfolding transition_sar_pyramid validate_config check_arguments decide reversed may_enter
    entry_ready capacity run_of entry_aligned regime_entries stepped adx_timedelta text_eq strip
    lstrip is_space
reverse_test = refl

transition_sar_pyramid-Behaves_example :
    Behaves whole hour signal short_two
      (pos 100)
      config
      (transition_sar_pyramid whole hour initial_state signal short_two (pos 100) config)
transition_sar_pyramid-Behaves_example =
    transition_sar_pyramid-Behaves whole hour initial_state signal short_two (pos 100) config refl
      refl

abbrev bar : ℕ → ℕ → ℕ → Bar whole
bar high low close = record { high = pos high; low = pos low; close = pos close }

abbrev rise : List (Bar whole)
rise = bar 11 9 10 ∷ bar 13 10 12 ∷ bar 15 12 14 ∷ []

abbrev fall : List (Bar whole)
fall = bar 12 5 6 ∷ []

abbrev rows_of_rise : List (SarRow whole)
rows_of_rise =
    unknown_row whole
    ∷ record { psar = some (pos 9); sar_direction = pos 1; sar_reversal = false }
    ∷ record { psar = some (pos 9); sar_direction = pos 1; sar_reversal = false }
    ∷ []

abbrev rows_of_fall : List (SarRow whole)
rows_of_fall = record { psar = some (pos 15); sar_direction = negsuc 0; sar_reversal = true } ∷ []

rise_rows : parabolic_sar whole (pos 1) (pos 2) rise ≡ accepted rows_of_rise
unfolding parabolic_sar check_sar sar_rows sar_loop sar_round reverses first_trend first_bullish
rise_rows = refl

fall_rows :
    parabolic_sar whole (pos 1) (pos 2) (rise ++ fall) ≡ accepted (rows_of_rise ++ rows_of_fall)
unfolding parabolic_sar check_sar sar_rows sar_loop sar_round reverses first_trend first_bullish
fall_rows = refl

parabolic_sar-Reads_example : (length rows_of_rise ≡ length rise) × Reads whole rows_of_rise
parabolic_sar-Reads_example = parabolic_sar-Reads whole (pos 1) (pos 2) rise rise_rows

parabolic_sar-causal_example :
    (rest : List (SarRow whole)) × (rows_of_rise ++ rows_of_fall ≡ rows_of_rise ++ rest)
parabolic_sar-causal_example =
    parabolic_sar-causal whole (pos 1) (pos 2) rise fall rise_rows fall_rows
