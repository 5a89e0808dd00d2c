-- ===== src/Layered/Checks.antt =====
-- sar_layered.py: the validation of the configuration, of the signal and of the position.
use candle_mind.Base.Floats.{Floats}
use candle_mind.Base.Checked.{is_side, refuse_if, Checked, accepted, refused}
use candle_mind.Base.Text.{codes, Text}
use candle_mind.Layered.Config.{SarLayeredConfig, LayeredPositionSnapshot, SarLayeredSignal}
use candle_mind.Base.{
  leb, ◌==◌, is_some, none, some, ◌+◌, ◌&&◌, true, ◌||◌, if◌then◌else◌, ℕ, Option, not, Bool,
}
use candle_mind.Base.Int.{eq_ℤ, ltb_ℤ, pos, leb_ℤ}

module _ (R : Floats) where
  abbrev pub within : Text → Text → R.F → Bool
  within lo hi x = R.is_finite x && R.le (R.literal lo) x && R.le x (R.literal hi)

  -- `SarLayeredConfig.validate`
  unfoldable pub validate_config : SarLayeredConfig R → Option Text
  validate_config c =
      refuse_if (not (within (codes "0.001") (codes "0.1") c.sar_step))
        (codes "sar_step must be in [0.001, 0.1]")
        (refuse_if
          (not (
            R.is_finite c.sar_max
            && R.le c.sar_step c.sar_max
            && R.le c.sar_max (R.literal (codes "0.5"))))
          (codes "sar_max must be in [sar_step, 0.5]")
          (refuse_if (not (leb_ℤ (pos 1) c.max_layers && leb_ℤ c.max_layers (pos 6)))
            (codes "max_layers must be an integer in [1, 6]")
            (refuse_if (not (within (codes "1.0") (codes "1.8") c.multiplier))
              (codes "multiplier must be in [1.0, 1.8]")
              (refuse_if (not (within (codes "0.001") (codes "0.05") c.trigger_fraction))
                (codes "trigger_fraction must be in [0.001, 0.05]") none))))

  abbrev pub is_positive : R.F → Bool
  is_positive x = not (R.le x (R.literal (codes "0.0")))

  -- The rest of `_validate_signal`, once the three times are read.
  unfoldable pub check_signal : SarLayeredSignal R → ℕ → ℕ → ℕ → Option Text
  check_signal s open_time close_time observed_at =
      refuse_if (not (close_time + 1000 == open_time + 300000000))
        (codes "signal must represent exactly one 5m candle")
        (refuse_if (leb observed_at close_time) (codes "signal candle is not closed") (
          refuse_if (not (is_side s.sar_direction)) (codes "sar_direction must be -1 or 1") (
            refuse_if (not (R.is_finite s.decision_close && is_positive s.decision_close))
              (codes "decision_close must be finite and positive") none)))

  abbrev pub close_if : Option Text → ℕ → Checked ℕ
  close_if none t = accepted t
  close_if (some m) t = refused m

  -- The three times as `_utc` reads them.
  abbrev pub signal_at : SarLayeredSignal R → Option ℕ → Option ℕ → Option ℕ → Checked ℕ
  signal_at s (some open_time) (some close_time) (some observed_at) =
      close_if (check_signal s open_time close_time observed_at) close_time
  signal_at s _ _ _ = refused (codes "bar timestamps must be timezone-aware")

  -- `_validate_signal`, which returns the time of the close.
  unfoldable pub validate_signal : SarLayeredSignal R → Checked ℕ
  unfolding check_signal
  validate_signal s = signal_at s s.bar_open_time s.bar_close_time s.observed_at

  abbrev pub bad_anchor : Option R.F → Bool
  bad_anchor none = true
  bad_anchor (some x) = not (R.is_finite x) || not (is_positive x)

  -- `_validate_position`
  unfoldable pub validate_position : LayeredPositionSnapshot R → SarLayeredConfig R → Option Text
  validate_position p c =
      refuse_if (not (is_side p.direction || eq_ℤ p.direction (pos 0)))
        (codes "position direction must be -1, 0, or 1")
        (refuse_if (not (leb_ℤ (pos 0) p.layers && leb_ℤ p.layers c.max_layers))
          (codes "position layers are invalid")
          (if eq_ℤ p.direction (pos 0)
            then refuse_if (not (eq_ℤ p.layers (pos 0)) || is_some p.last_fill_price)
                (codes "flat positions cannot have layers or a fill anchor") none
            else refuse_if (ltb_ℤ p.layers (pos 1))
                (codes "open positions must have at least one layer")
                (refuse_if (bad_anchor p.last_fill_price)
                  (codes "open positions require a positive last fill price") none)))
