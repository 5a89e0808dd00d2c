-- ===== src/Pyramid/Sample.antt =====
-- Whole numbers that stand for floats, and a configuration (strategies/sar_pyramid.py) of them.
use candle_mind.Base.Int.{sub_ℕ, pos_part, ltb_ℤ, leb_ℤ, pos, ℤ}
use candle_mind.Base.Floats.{Floats}
use candle_mind.Base.Text.{codes, text_eq, Text}
use candle_mind.Pyramid.Config.{SarPyramidConfig}
use candle_mind.Base.{length, ◌^◌, ◌*◌, ◌+◌, false, true, some, none, if◌then◌else◌, Option}

-- Each operation on whole numbers; a literal is read as zero where it is `0.0`, as 100 where it is
-- `100.0`, and else as one. No text is a number.
abbrev pub whole : Floats
whole = record {
  F = ℤ;
  literal = λ t.
      if text_eq t (codes "0.0")
      then pos 0
      else if text_eq t (codes "100.0")
      then pos 100
      else pos 1;
  from_int = λ n. n;
  is_finite = λ x. true;
  le = leb_ℤ;
  lt = ltb_ℤ;
  add = λ x y. pos (pos_part x + pos_part y);
  sub = λ x y. sub_ℕ (pos_part x) (pos_part y);
  mul = λ x y. pos (pos_part x * pos_part y);
  div = λ x y. x;
  pow = λ x n. pos (pos_part x ^ n);
  fsum = λ l. pos (length l);
  sum = λ l. pos (length l);
  parse_float = λ t. none;
  parse_int = λ t. none;
  truncate = λ x. some x;
}

abbrev pub hour : Text → Option ℤ
hour t = some (pos 3600000000000)

abbrev pub config : SarPyramidConfig whole
config = record {
  initial_cash = pos 10000;
  target_notional_fraction = pos 1;
  layers = pos 3;
  sar_step = pos 1;
  sar_max = pos 2;
  fee_rate = pos 0;
  slippage_rate = pos 0;
  use_adx_filter = true;
  adx_timeframe = codes "1h";
  adx_period = pos 14;
  adx_threshold = pos 25;
  adx_rising_periods = pos 0;
  minimum_di_spread = pos 0;
  entry_confirmation_bars = pos 0;
  recapture_buffer_fraction = pos 0;
  require_progressive_adds = false;
  max_entries_per_adx_regime = pos 2;
}
