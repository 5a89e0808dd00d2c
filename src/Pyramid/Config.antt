-- ===== src/Pyramid/Config.antt =====
-- sar_pyramid.py: the configuration and its validation, the state, and what a bar tells.
use candle_mind.Base.Text.{text_eq, Text, codes, strip}
use candle_mind.Base.Int.{negsuc, ltb_ℤ, ℤ, pos}
use candle_mind.Base.{
  ◌==◌, ◌%◌, ◌||◌, none, ltb, or_else, not, some, [], ◌&&◌, if◌then◌else◌, false, Option, Bool, ℕ,
  List,
}
use candle_mind.Base.Checked.{crashed, accepted, refused, refuse_if, Checked}
use candle_mind.Base.Floats.{Floats}

pub data SarPyramidActionType : Type 0 where
  open_position add_layer reverse_close trend_filter_exit universe_exit hold : SarPyramidActionType

pub record SarPyramidState : Type 0 where
  pub aligned_run : ℕ
  pub aligned_run_direction : ℤ
  pub regime_direction : ℤ
  pub regime_entry_count : ℕ
  pub armed : Bool
  pub rejected_add_count : ℕ

abbrev pub initial_state : SarPyramidState
initial_state = record {
  aligned_run = 0;
  aligned_run_direction = pos 0;
  regime_direction = pos 0;
  regime_entry_count = 0;
  armed = false;
  rejected_add_count = 0;
}

pub record SarPyramidAction : Type 0 where
  pub action : SarPyramidActionType
  pub direction : ℤ

pub record TransitionResult : Type 0 where
  pub state : SarPyramidState
  pub actions : List SarPyramidAction

-- `_adx_timedelta`, where `interval` is what `pd.Timedelta(value)` gives in nanoseconds, if it does
-- not raise.
unfoldable pub adx_timedelta : Text → Option ℤ → Checked ℕ
unfolding strip text_eq
adx_timedelta value interval =
    if text_eq (strip value) []
    then refused (codes "adx_timeframe must be a non-empty duration")
    else elim interval [
      | some (pos n) ↦
          if ltb n 300000000000 || ltb 86400000000000 n || not (n % 300000000000 == 0)
          then refused (codes "adx_timeframe must be a 5-minute multiple from 5m to 1d")
          else accepted n
      | some (negsuc n) ↦ refused (codes "adx_timeframe must be a 5-minute multiple from 5m to 1d")
      | none ↦ refused (codes "adx_timeframe must be a valid duration")
    ]

-- Its ValueError, if it raises.
abbrev pub error_of : {A : Type 0} → Checked A → Option Text
error_of (refused m) = some m
error_of (accepted a) = none
error_of crashed = none

module _ (R : Floats) where
  pub record SarPyramidConfig : Type 0 where
    pub initial_cash : R.F
    pub target_notional_fraction : R.F
    pub layers : ℤ
    pub sar_step : R.F
    pub sar_max : R.F
    pub fee_rate : R.F
    pub slippage_rate : R.F
    pub use_adx_filter : Bool
    pub adx_timeframe : Text
    pub adx_period : ℤ
    pub adx_threshold : R.F
    pub adx_rising_periods : ℤ
    pub minimum_di_spread : R.F
    pub entry_confirmation_bars : ℤ
    pub recapture_buffer_fraction : R.F
    pub require_progressive_adds : Bool
    pub max_entries_per_adx_regime : ℤ

  pub record SarPyramidSignal : Type 0 where
    pub sar_direction : ℤ
    pub sar_reversal : Bool
    pub trend_direction : ℤ
    pub entry_trend_direction : ℤ
    pub previous_trend_direction : ℤ
    pub decision_close : R.F
    pub eligible : Bool

  pub record PositionSnapshot : Type 0 where
    pub direction : ℤ
    pub layers : ℤ
    pub anchor : Option R.F

  abbrev zero_F : R.F
  zero_F = R.literal (codes "0.0")

  -- `math.isfinite(x) and x > 0.0`
  abbrev pub is_positive : R.F → Bool
  is_positive x = R.is_finite x && R.lt (R.literal (codes "0.0")) x

  -- `math.isfinite(x) and 0.0 <= x < bound`
  abbrev pub is_below : Text → R.F → Bool
  is_below bound x = R.is_finite x && R.le (R.literal (codes "0.0")) x && R.lt x (R.literal bound)

  -- The loop of `validate` over the three counts.
  abbrev pub negative_count : ℤ → Text → Option Text → Option Text
  negative_count n message later = refuse_if (ltb_ℤ n (pos 0)) message later

  -- `validate`; `interval` is `pd.Timedelta(self.adx_timeframe)`.
  unfoldable pub validate_config : (Text → Option ℤ) → SarPyramidConfig → Option Text
  unfolding adx_timedelta
  validate_config timedelta c =
      refuse_if
        (not (
          is_positive c.initial_cash
          && is_positive c.target_notional_fraction
          && is_positive c.sar_step
          && is_positive c.sar_max))
        (codes "cash, exposure, and SAR parameters must be positive")
        (refuse_if (ltb_ℤ c.layers (pos 1)) (codes "layers must be a positive integer") (
          refuse_if (ltb_ℤ c.adx_period (pos 2))
            (codes "adx_period must be an integer of at least two")
            (or_else (error_of (adx_timedelta c.adx_timeframe (timedelta c.adx_timeframe))) (
              refuse_if
                (not (
                  R.is_finite c.adx_threshold
                  && R.lt (R.literal (codes "0.0")) c.adx_threshold
                  && R.lt c.adx_threshold (R.literal (codes "100.0"))))
                (codes "adx_threshold must be in (0, 100)")
                (negative_count c.adx_rising_periods
                  (codes "adx_rising_periods must be a non-negative integer")
                  (negative_count c.entry_confirmation_bars
                    (codes "entry_confirmation_bars must be a non-negative integer")
                    (negative_count c.max_entries_per_adx_regime
                      (codes "max_entries_per_adx_regime must be a non-negative integer")
                      (refuse_if (not (is_below (codes "100.0") c.minimum_di_spread))
                        (codes "minimum_di_spread must be in [0, 100)")
                        (refuse_if (not (is_below (codes "1.0") c.recapture_buffer_fraction))
                          (codes "recapture_buffer_fraction must be in [0, 1)")
                          (refuse_if (R.lt c.sar_max c.sar_step)
                            (codes "sar_step must not exceed sar_max")
                            (refuse_if (not (is_below (codes "1.0") c.fee_rate))
                              (codes "fee_rate must be in [0, 1)")
                              (refuse_if (not (is_below (codes "1.0") c.slippage_rate))
                                (codes "slippage_rate must be in [0, 1)") none))))))))))))
