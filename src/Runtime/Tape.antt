-- ===== src/Runtime/Tape.antt =====
-- sar_adx_runtime.py: the tape, which is the validated bars with the columns of parabolic_sar and
-- adx_regime, and the rows that a call looks at. Times are whole milliseconds.
use candle_mind.Pyramid.Config.{SarPyramidSignal}
use candle_mind.Base.Int.{ℤ}
use candle_mind.Base.Floats.{Floats}
use candle_mind.Base.{ltb, or_else, some, none, Bool, ℕ, Option, [], ◌∷◌, List, if◌then◌else◌}

module _ (R : Floats) where
  pub record TapeRow : Type 0 where
    pub open_time : ℕ
    pub close_time : ℕ
    pub open_price : R.F
    pub close : R.F
    pub sar_direction : ℤ
    pub sar_reversal : Bool
    pub trend_direction : ℤ
    pub entry_trend_direction : ℤ

  -- The row of the decision, with its neighbours.
  pub record Window : Type 0 where
    pub previous : Option TapeRow
    pub decision : TapeRow
    pub next : Option TapeRow

  abbrev pub first_of : List TapeRow → Option TapeRow
  first_of [] = none
  first_of (r ∷ rows) = some r

  -- The last row whose close is before the cutoff.
  unfoldable pub locate : ℕ → Option TapeRow → List TapeRow → Option Window
  locate cutoff previous [] = none
  locate cutoff previous (r ∷ rows) =
      let later = locate cutoff (some r) rows in
      or_else later (
        if ltb r.close_time cutoff
        then some (record { previous = previous; decision = r; next = first_of rows })
        else none)

  unfoldable pub signal_of : TapeRow → TapeRow → Bool → SarPyramidSignal R
  signal_of previous d eligible = record {
    sar_direction = d.sar_direction;
    sar_reversal = d.sar_reversal;
    trend_direction = d.trend_direction;
    entry_trend_direction = d.entry_trend_direction;
    previous_trend_direction = previous.trend_direction;
    decision_close = d.close;
    eligible = eligible;
  }

  -- A row of the funding frame.
  pub record FundingRow : Type 0 where
    pub funding_time : ℕ
    pub funding_rate : R.F
