-- ===== src/Pyramid/Sar.antt =====
-- sar_pyramid.py: `parabolic_sar`. A frame is the list of its rows, which have the three columns.
use candle_mind.Base.Text.{codes, Text}
use candle_mind.Base.Int.{negsuc, pos, ℤ}
use candle_mind.Base.Checked.{refused, accepted, refuse_if, Checked}
use candle_mind.Base.Floats.{Floats}
use candle_mind.Base.{
  all, length, ltb, ◌||◌, some, none, Bool, Option, [], not, ◌∷◌, false, ◌&&◌, List, if◌then◌else◌,
}

module _ (R : Floats) where
  pub record Bar : Type 0 where
    pub high : R.F
    pub low : R.F
    pub close : R.F

  -- A row of the result; `psar` is `none` where the source has NaN.
  pub record SarRow : Type 0 where
    pub psar : Option R.F
    pub sar_direction : ℤ
    pub sar_reversal : Bool

  -- The variables of the loop, with the `sar` of the row before.
  pub record Trend : Type 0 where
    pub bullish : Bool
    pub extreme : R.F
    pub acceleration : R.F
    pub sar : R.F

  -- `min(a, b)` and `max(a, b)`, which are `a` where neither is less.
  abbrev pub min_F : R.F → R.F → R.F
  min_F a b = if R.lt b a then b else a

  abbrev pub max_F : R.F → R.F → R.F
  max_F a b = if R.lt a b then b else a

  -- Of finite numbers, and of differences of positive ones.
  abbrev pub eq_F : R.F → R.F → Bool
  eq_F a b = R.le a b && R.le b a

  abbrev positive : R.F → Bool
  positive x = R.lt (R.from_int (pos 0)) x

  abbrev prices_valid : Bar → Bool
  prices_valid b =
      (R.is_finite b.high && R.is_finite b.low && R.is_finite b.close)
      && positive b.high
      && positive b.low
      && positive b.close

  abbrev bounds_valid : Bar → Bool
  bounds_valid b =
      not (R.lt b.high (max_F b.low b.close)) && not (R.lt (min_F b.high b.close) b.low)

  -- Its ValueErrors.
  unfoldable pub check_sar : R.F → R.F → List Bar → Option Text
  check_sar step maximum bars =
      refuse_if
        (not (R.is_finite step)
          || not (R.is_finite maximum)
          || not (positive step)
          || not (positive maximum))
        (codes "PSAR acceleration parameters must be positive")
        (refuse_if (R.lt maximum step) (codes "step must not exceed maximum") (
          refuse_if (ltb (length bars) 2) (codes "PSAR requires at least two bars") (
            refuse_if (not (all prices_valid bars))
              (codes "OHLC prices must be finite and positive")
              (refuse_if (not (all bounds_valid bars)) (codes "high/low bounds are invalid")
                none))))

  -- `bullish` of row one.
  unfoldable pub first_bullish : Bar → Bar → Bool
  first_bullish a b =
      let up_move = R.sub b.high a.high in
      let down_move = R.sub a.low b.low in
      if not (eq_F up_move down_move) then R.lt down_move up_move else R.le a.close b.close

  -- The variables before the loop.
  unfoldable pub first_trend : R.F → Bar → Bar → Trend
  unfolding first_bullish
  first_trend step a b = record {
    bullish = first_bullish a b;
    extreme = if first_bullish a b then max_F a.high b.high else min_F a.low b.low;
    acceleration = step;
    sar = if first_bullish a b then min_F a.low b.low else max_F a.high b.high;
  }

  abbrev projected : Trend → R.F
  projected t = R.add t.sar (R.mul t.acceleration (R.sub t.extreme t.sar))

  -- The new extreme of a trend that goes on, if the bar is beyond it.
  abbrev goes_on : R.F → R.F → Trend → Bool → R.F → R.F → Trend
  goes_on step maximum t further sar price =
      if further
      then record t {
        extreme = price;
        acceleration = min_F maximum (R.add t.acceleration step);
        sar = sar;
      }
      else record t { sar = sar }

  -- A reversal: `sar` is the old extreme.
  abbrev turns : R.F → Trend → R.F → Trend
  turns step t price = record {
    bullish = not t.bullish;
    extreme = price;
    acceleration = step;
    sar = t.extreme;
  }

  -- One round of the loop: the rows `index - 2`, `index - 1` and `index`.
  abbrev rising : R.F → R.F → Bar → Bar → Trend → Bar → Trend
  rising step maximum b2 b1 t b =
      let sar = min_F (min_F (projected t) b1.low) b2.low in
      if R.le b.low sar
      then turns step t b.low
      else goes_on step maximum t (R.lt t.extreme b.high) sar b.high

  abbrev falling : R.F → R.F → Bar → Bar → Trend → Bar → Trend
  falling step maximum b2 b1 t b =
      let sar = max_F (max_F (projected t) b1.high) b2.high in
      if R.le sar b.high
      then turns step t b.high
      else goes_on step maximum t (R.lt b.low t.extreme) sar b.low

  unfoldable pub sar_round : R.F → R.F → Bar → Bar → Trend → Bar → Trend
  sar_round step maximum b2 b1 t b =
      if t.bullish then rising step maximum b2 b1 t b else falling step maximum b2 b1 t b

  -- `reversal[index]`
  unfoldable pub reverses : Bar → Bar → Trend → Bar → Bool
  reverses b2 b1 t b =
      if t.bullish
      then R.le b.low (min_F (min_F (projected t) b1.low) b2.low)
      else R.le (max_F (max_F (projected t) b1.high) b2.high) b.high

  abbrev pub direction_of : Bool → ℤ
  direction_of bullish = if bullish then pos 1 else negsuc 0

  abbrev pub row_of : Trend → Bool → SarRow
  row_of t reversal = record {
    psar = some t.sar;
    sar_direction = direction_of t.bullish;
    sar_reversal = reversal;
  }

  unfoldable pub sar_loop : R.F → R.F → Bar → Bar → Trend → List Bar → List SarRow
  unfolding sar_round reverses
  sar_loop step maximum b2 b1 t [] = []
  sar_loop step maximum b2 b1 t (b ∷ bars) =
      row_of (sar_round step maximum b2 b1 t b) (reverses b2 b1 t b)
      ∷ sar_loop step maximum b1 b (sar_round step maximum b2 b1 t b) bars

  abbrev pub unknown_row : SarRow
  unknown_row = record { psar = none; sar_direction = pos 0; sar_reversal = false }

  unfoldable pub sar_rows : R.F → R.F → List Bar → List SarRow
  unfolding sar_loop first_trend
  sar_rows step maximum (a ∷ b ∷ bars) =
      unknown_row
      ∷ row_of (first_trend step a b) false
      ∷ sar_loop step maximum a b (first_trend step a b) bars
  sar_rows step maximum _ = []

  abbrev pub checked_rows : List SarRow → Option Text → Checked (List SarRow)
  checked_rows rows none = accepted rows
  checked_rows rows (some m) = refused m

  -- `parabolic_sar`
  unfoldable pub parabolic_sar : R.F → R.F → List Bar → Checked (List SarRow)
  unfolding check_sar sar_rows
  parabolic_sar step maximum bars =
      checked_rows (sar_rows step maximum bars) (check_sar step maximum bars)
