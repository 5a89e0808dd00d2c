-- ===== src/Layered/Config.antt =====
-- sar_layered.py: the configuration of the strategy, what it reads, and what it decides.
use candle_mind.Base.Floats.{Floats}
use candle_mind.Base.Int.{ℤ}
use candle_mind.Base.{Bool, ℕ, List, Option}

pub data SarLayerMode : Type 0 where
  martingale anti_martingale : SarLayerMode

pub data SarLayeredActionType : Type 0 where
  open_first add_layer reverse_close : SarLayeredActionType

module _ (R : Floats) where
  pub record SarLayeredConfig : Type 0 where
    pub mode : SarLayerMode
    pub sar_step : R.F
    pub sar_max : R.F
    pub max_layers : ℤ
    pub multiplier : R.F
    pub trigger_fraction : R.F

  -- Timestamps are microseconds since the epoch, in UTC; `none` is a time without a zone.
  pub record SarLayeredSignal : Type 0 where
    pub bar_open_time : Option ℕ
    pub bar_close_time : Option ℕ
    pub observed_at : Option ℕ
    pub decision_close : R.F
    pub sar_direction : ℤ
    pub sar_reversal : Bool

  pub record LayeredPositionSnapshot : Type 0 where
    pub direction : ℤ
    pub layers : ℤ
    pub last_fill_price : Option R.F

  pub record SarLayeredAction : Type 0 where
    pub action : SarLayeredActionType
    pub direction : ℤ
    pub layer : Option ℤ
    pub capital_weight : R.F

pub record SarLayeredState : Type 0 where
  pub last_processed_close_time : Option (Option ℕ)

pub record SarLayeredTransition (R : Floats) : Type 0 where
  pub state : SarLayeredState
  pub actions : List (SarLayeredAction R)
