-- ===== src/Pyramid/Accepted.antt =====
-- sar_pyramid.py: what `transition_sar_pyramid` returns, or the ValueError that it raises.
use candle_mind.Pyramid.Decisions.{decide-Fits}
use candle_mind.Pyramid.Fits.{Fits, Sound, is_counted}
use candle_mind.Base.Checked.{crashed, accepted, refused, is_position, Checked}
use candle_mind.Pyramid.Transition.{
  decide, transition_sar_pyramid, decided, is_direction, check_arguments,
}
use candle_mind.Pyramid.Config.{
  TransitionResult, PositionSnapshot, SarPyramidConfig, SarPyramidState, SarPyramidSignal,
  validate_config,
}
use candle_mind.Base.Int.{pos, leb_ℤ, ℤ}
use candle_mind.Base.Text.{Text}
use candle_mind.Base.Floats.{Floats}
use candle_mind.Base.{refl, some, or_else, arith, none, Option, true, ◌≡◌}

module _ (R : Floats) (timedelta : Text → Option ℤ) where
  -- A refusal has the first message of the validation and of the checks; a result fits.
  unfoldable pub Behaves :
      SarPyramidSignal R
      → PositionSnapshot R
      → R.F
      → SarPyramidConfig R
      → Checked TransitionResult
      → Type 0
  Behaves s p execution_open c (refused m) =
      or_else (validate_config R timedelta c) (check_arguments R s p execution_open) ≡ some m
  Behaves s p execution_open c (accepted r) =
      (or_else (validate_config R timedelta c) (check_arguments R s p execution_open) ≡ none)
      × Fits R p c r
  Behaves s p execution_open c crashed = ⊥

  validate-limits :
      (c : SarPyramidConfig R)
      → validate_config R timedelta c ≡ none
      → (leb_ℤ (pos 1) c.layers ≡ true) × (leb_ℤ (pos 0) c.max_entries_per_adx_regime ≡ true)
  unfolding validate_config
  validate-limits c h = ground arith

  checked-direction :
      (s : SarPyramidSignal R) (p : PositionSnapshot R) (execution_open : R.F)
      → check_arguments R s p execution_open ≡ none
      → is_direction s.sar_direction ≡ true
  unfolding check_arguments
  checked-direction s p execution_open h = ground arith

  module _ (state : SarPyramidState) (s : SarPyramidSignal R) (p : PositionSnapshot R)
      (execution_open : R.F) (c : SarPyramidConfig R)
      (placed : is_position c.layers (p.direction, p.layers) ≡ true)
      (counted : is_counted c.max_entries_per_adx_regime state.regime_entry_count ≡ true) where
    decided-Behaves :
        (v k : Option Text)
        → validate_config R timedelta c ≡ v
        → check_arguments R s p execution_open ≡ k
        → Behaves s p execution_open c
            (decided R (decide R state s p execution_open c) (or_else v k))
    unfolding Behaves
    decided-Behaves (some m) k hv hk = rw hv refl
    decided-Behaves none (some m) hv hk = rw (hv, hk) refl
    decided-Behaves none none hv hk =
        (rw (hv, hk) refl, decide-Fits R state s p c sound execution_open)
      where
        sound : Sound R state s p c
        sound = record {
          layered = (validate-limits c hv).0;
          limited = (validate-limits c hv).1;
          directed = checked-direction s p execution_open hk;
          placed = placed;
          counted = counted;
        }

    -- Where the position is flat or has one to `layers` layers on one side, and the entries of the
    -- regime do not exceed their maximum, the transition raises the first message of the validation
    -- of its configuration and of the checks of its arguments if there is one, and else returns
    -- actions that, filled in their order, leave such a position again (never more than `layers`
    -- layers, and no side without a layer), with a state whose entries again do not exceed the
    -- maximum.
    pub transition_sar_pyramid-Behaves :
        Behaves s p execution_open c (transition_sar_pyramid R timedelta state s p execution_open c)
    unfolding transition_sar_pyramid
    transition_sar_pyramid-Behaves = decided-Behaves _ _ refl refl
