-- ===== src/Pyramid/Transition.antt =====
-- sar_pyramid.py: `transition_sar_pyramid`.
use candle_mind.Base.Checked.{accepted, refused, refuse_if, is_side, Checked}
use candle_mind.Base.Text.{Text, codes}
use candle_mind.Base.{
  true, none, ◌++◌, ◌||◌, or_else, some, ◌&&◌, ◌∷◌, false, ℕ, if◌then◌else◌, suc, Option, [], not,
  List, Bool,
}
use candle_mind.Base.Floats.{Floats}
use candle_mind.Pyramid.Config.{
  validate_config, is_positive, PositionSnapshot, SarPyramidConfig, TransitionResult,
  SarPyramidState, SarPyramidSignal, SarPyramidAction, SarPyramidActionType,
}
use candle_mind.Base.Int.{succ_ℤ, ltb_ℤ, pos, eq_ℤ, ℤ}

abbrev pub is_direction : ℤ → Bool
is_direction d = is_side d || eq_ℤ d (pos 0)

abbrev pub is_flat : ℤ → Bool
is_flat d = eq_ℤ d (pos 0)

abbrev pub does : SarPyramidActionType → ℤ → SarPyramidAction
does a d = record { action = a; direction = d }

module _ (R : Floats) where
  -- The checks of the arguments, after `config.validate()`.
  unfoldable pub check_arguments : SarPyramidSignal R → PositionSnapshot R → R.F → Option Text
  check_arguments s p execution_open =
      refuse_if (not (is_direction s.sar_direction)) (codes "sar_direction must be -1, 0, or 1") (
        refuse_if
          (not (is_direction s.trend_direction) || not (is_direction s.entry_trend_direction))
          (codes "trend directions must be -1, 0, or 1")
          (refuse_if (not (is_direction p.direction))
            (codes "position direction must be -1, 0, or 1")
            (refuse_if (not (is_positive R s.decision_close))
              (codes "decision close must be finite and positive")
              (refuse_if (not (is_positive R execution_open))
                (codes "execution open must be finite and positive") none))))

  -- `regime_entries`
  unfoldable pub regime_entries : SarPyramidState → SarPyramidSignal R → ℕ
  regime_entries state s =
      if eq_ℤ s.trend_direction state.regime_direction then state.regime_entry_count else 0

  unfoldable pub entry_aligned : SarPyramidSignal R → Bool
  entry_aligned s =
      not (eq_ℤ s.entry_trend_direction (pos 0)) && eq_ℤ s.entry_trend_direction s.sar_direction

  -- `aligned_run` of this bar.
  unfoldable pub run_of : SarPyramidState → SarPyramidSignal R → ℕ
  unfolding entry_aligned
  run_of state s =
      if entry_aligned s
      then (if eq_ℤ state.aligned_run_direction s.sar_direction then suc state.aligned_run else 1)
      else 0

  -- The first `next_state`.
  unfoldable pub stepped : SarPyramidState → SarPyramidSignal R → SarPyramidState
  unfolding regime_entries run_of entry_aligned
  stepped state s = record state {
    regime_direction = s.trend_direction;
    regime_entry_count = regime_entries state s;
    aligned_run = run_of state s;
    aligned_run_direction = if entry_aligned s then s.sar_direction else pos 0;
  }

  unfoldable pub entry_ready : SarPyramidState → SarPyramidSignal R → SarPyramidConfig R → Bool
  unfolding entry_aligned run_of
  entry_ready state s c = entry_aligned s && ltb_ℤ c.entry_confirmation_bars (pos (run_of state s))

  unfoldable pub capacity : SarPyramidState → SarPyramidSignal R → SarPyramidConfig R → Bool
  unfolding regime_entries
  capacity state s c =
      eq_ℤ c.max_entries_per_adx_regime (pos 0)
      || ltb_ℤ (pos (regime_entries state s)) c.max_entries_per_adx_regime

  unfoldable pub may_enter : SarPyramidState → SarPyramidSignal R → SarPyramidConfig R → Bool
  may_enter state s c = entry_ready state s c && capacity state s c

  -- The state of `open_action`.
  abbrev pub opened_state : SarPyramidState → SarPyramidState
  opened_state next = record next {
    regime_entry_count = suc next.regime_entry_count;
    armed = false;
  }

  abbrev pub disarmed : SarPyramidState → SarPyramidState
  disarmed next = record next { armed = false }

  abbrev pub closes_if : Bool → SarPyramidActionType → ℤ → List SarPyramidAction
  closes_if held a d = if held then does a d ∷ [] else []

  -- The branch of a reversal of the SAR.
  unfoldable pub reversed :
      SarPyramidState
      → SarPyramidSignal R
      → PositionSnapshot R
      → SarPyramidConfig R
      → TransitionResult
  reversed state s p c =
      let closing =
        closes_if (not (is_flat p.direction)) SarPyramidActionType.reverse_close p.direction in
      if may_enter state s c
      then record {
        state = opened_state (stepped state s);
        actions = closing ++ does SarPyramidActionType.open_position s.sar_direction ∷ [];
      }
      else record { state = disarmed (stepped state s); actions = closing }

  abbrev pub stays : SarPyramidState → TransitionResult
  stays next = record { state = next; actions = [] }

  -- `a < b` if the position is long, else `a > b`.
  abbrev pub worse : ℤ → R.F → R.F → Bool
  worse direction a b = if ltb_ℤ (pos 0) direction then R.lt a b else R.lt b a

  -- `price * (1.0 + direction * rate)`
  abbrev pub moved_price : R.F → ℤ → R.F → R.F
  moved_price price direction rate =
      R.mul price (R.add (R.literal (codes "1.0")) (R.mul (R.from_int direction) rate))

  -- The close is beyond the recapture price of an armed position.
  unfoldable pub recaptured :
      SarPyramidState → SarPyramidSignal R → PositionSnapshot R → SarPyramidConfig R → R.F → Bool
  recaptured next s p c anchor =
      next.armed
      && worse p.direction (moved_price anchor p.direction c.recapture_buffer_fraction)
          s.decision_close

  -- The fill of an add would be beyond the anchor, where the configuration asks for it.
  unfoldable pub progressive : PositionSnapshot R → R.F → SarPyramidConfig R → R.F → Bool
  progressive p execution_open c anchor =
      not c.require_progressive_adds
      || worse p.direction anchor (moved_price execution_open p.direction c.slippage_rate)

  -- The close is behind the anchor of a position that is not armed.
  unfoldable pub pulled_back :
      SarPyramidState → SarPyramidSignal R → PositionSnapshot R → R.F → Bool
  pulled_back next s p anchor = not next.armed && worse p.direction s.decision_close anchor

  -- The branch of a position that may take a layer; `anchor` is its last fill price.
  unfoldable pub may_add :
      SarPyramidState
      → SarPyramidSignal R
      → PositionSnapshot R
      → R.F
      → SarPyramidConfig R
      → R.F
      → TransitionResult
  may_add next s p execution_open c anchor =
      if recaptured next s p c anchor
      then (if progressive p execution_open c anchor
          then record {
            state = disarmed next;
            actions = does SarPyramidActionType.add_layer p.direction ∷ [];
          }
          else stays (record next { rejected_add_count = suc next.rejected_add_count }))
      else if pulled_back next s p anchor
      then stays (record next { armed = true })
      else stays next

  unfoldable pub can_delayed_open :
      SarPyramidState → SarPyramidSignal R → PositionSnapshot R → SarPyramidConfig R → Bool
  can_delayed_open state s p c =
      is_flat p.direction
      && c.use_adx_filter
      && may_enter state s c
      && (not (eq_ℤ s.trend_direction s.previous_trend_direction)
          || (ltb_ℤ (pos 0) c.entry_confirmation_bars
              && eq_ℤ (pos (run_of state s)) (succ_ℤ c.entry_confirmation_bars)))

  unfoldable pub delayed :
      SarPyramidState
      → SarPyramidSignal R
      → PositionSnapshot R
      → SarPyramidConfig R
      → TransitionResult
  delayed state s p c =
      if can_delayed_open state s p c
      then record {
        state = opened_state (stepped state s);
        actions = does SarPyramidActionType.open_position s.sar_direction ∷ [];
      }
      else stays (stepped state s)

  -- The anchor of a position that is in the branch of an add.
  abbrev pub add_anchor : SarPyramidSignal R → PositionSnapshot R → SarPyramidConfig R → Option R.F
  add_anchor s p c =
      if not (is_flat p.direction)
        && eq_ℤ s.entry_trend_direction p.direction
        && ltb_ℤ p.layers c.layers
      then p.anchor
      else none

  abbrev pub add_or_delay :
      SarPyramidState
      → SarPyramidSignal R
      → PositionSnapshot R
      → R.F
      → SarPyramidConfig R
      → Option R.F
      → TransitionResult
  add_or_delay state s p execution_open c (some anchor) =
      may_add (stepped state s) s p execution_open c anchor
  add_or_delay state s p execution_open c none = delayed state s p c

  unfoldable pub against_trend : SarPyramidSignal R → PositionSnapshot R → Bool
  against_trend s p = not (is_flat p.direction) && not (eq_ℤ s.trend_direction p.direction)

  -- The transition, after the checks.
  unfoldable pub decide :
      SarPyramidState
      → SarPyramidSignal R
      → PositionSnapshot R
      → R.F
      → SarPyramidConfig R
      → TransitionResult
  decide state s p execution_open c =
      if not s.eligible
      then record {
        state = disarmed state;
        actions =
            closes_if (not (is_flat p.direction)) SarPyramidActionType.universe_exit p.direction;
      }
      else if s.sar_reversal
      then reversed state s p c
      else if against_trend s p
      then record {
        state = disarmed (stepped state s);
        actions = does SarPyramidActionType.trend_filter_exit p.direction ∷ [];
      }
      else add_or_delay state s p execution_open c (add_anchor s p c)

  abbrev pub decided : TransitionResult → Option Text → Checked TransitionResult
  decided r (some m) = refused m
  decided r none = accepted r

  -- `transition_sar_pyramid`
  unfoldable pub transition_sar_pyramid :
      (Text → Option ℤ)
      → SarPyramidState
      → SarPyramidSignal R
      → PositionSnapshot R
      → R.F
      → SarPyramidConfig R
      → Checked TransitionResult
  transition_sar_pyramid timedelta state s p execution_open c =
      decided (decide state s p execution_open c)
        (or_else (validate_config R timedelta c) (check_arguments s p execution_open))
