-- ===== src/Layered/Decisions.antt =====
-- sar_layered.py: what every call of `transition_sar_layered` may decide.
use candle_mind.Base.Floats.{Floats}
use candle_mind.Base.Checked.{is_position, Checked, accepted, crashed, is_side, refused}
use candle_mind.Base.Text.{Text}
use candle_mind.Layered.Transition.{
  on_position, on_config, on_signal, transition_sar_layered, after_previous, decide,
}
use candle_mind.Layered.Cap.{decide-Fits, Fits, fills}
use candle_mind.Base.Int.{pos, leb_ℤ}
use candle_mind.Layered.Checks.{
  signal_at, check_signal, validate_position, validate_signal, validate_config,
}
use candle_mind.Base.{
  inl, ◌==◌, refl, split_if, inr, arith, get_or, ◌⊎◌, ltb, [], false, some, none, true, ◌≡◌, Bool,
  Option, ℕ,
}
use candle_mind.Layered.Config.{
  SarLayeredTransition, LayeredPositionSnapshot, SarLayeredSignal, SarLayeredConfig,
  SarLayeredState,
}

abbrev later : ℕ → Option (Option ℕ) → Bool
later t none = true
later t (some none) = false
later t (some (some u)) = ltb u t

module _ (R : Floats) where
  -- The two kinds of answer: for a bar that was processed already, and for a later one.
  abbrev pub Decides :
      SarLayeredState
      → SarLayeredSignal R
      → LayeredPositionSnapshot R
      → SarLayeredConfig R
      → SarLayeredTransition R
      → Type 0
  Decides state s p c t =
      ((state.last_processed_close_time ≡ some s.bar_close_time)
        × (t ≡ record { state = state; actions = [] }))
      ⊎ ((t.state.last_processed_close_time ≡ some s.bar_close_time)
          × (later (get_or s.bar_close_time 0) state.last_processed_close_time ≡ true)
          × (is_position c.max_layers (fills t.actions (p.direction, p.layers)) ≡ true)
          × ((fills t.actions (p.direction, p.layers)).0 ≡ s.sar_direction))

  abbrev pub Behaves :
      SarLayeredState
      → SarLayeredSignal R
      → LayeredPositionSnapshot R
      → SarLayeredConfig R
      → Checked (SarLayeredTransition R)
      → Type 0
  Behaves state s p c (refused m) = true ≡ true
  Behaves state s p c crashed = true ≡ false
  Behaves state s p c (accepted t) = Decides state s p c t

  -- A decision records the time of its bar.
  abbrev Stamped : ℕ → Checked (SarLayeredTransition R) → Type 0
  Stamped t (refused m) = true ≡ true
  Stamped t crashed = true ≡ true
  Stamped t (accepted r) = r.state.last_processed_close_time ≡ some (some t)

  decide-Stamped :
      (s : SarLayeredSignal R) (p : LayeredPositionSnapshot R) (c : SarLayeredConfig R) (t : ℕ)
      → Stamped t (decide R (record { last_processed_close_time = some (some t) }) s p c)
  unfolding decide
  decide-Stamped s p c t = ground arith

  config-layers :
      (c : SarLayeredConfig R) → validate_config R c ≡ none → leb_ℤ (pos 1) c.max_layers ≡ true
  unfolding validate_config
  config-layers c h = ground arith

  -- What a validated signal says.
  abbrev Timed : SarLayeredSignal R → Checked ℕ → Type 0
  Timed s (refused m) = true ≡ true
  Timed s crashed = true ≡ false
  Timed s (accepted t) = (s.bar_close_time ≡ some t) × (is_side s.sar_direction ≡ true)

  signal_at-Timed :
      (s : SarLayeredSignal R) (a b e : Option ℕ)
      → s.bar_close_time ≡ b
      → Timed s (signal_at R s a b e)
  unfolding check_signal
  signal_at-Timed s none b e h = refl
  signal_at-Timed s (some a) none e h = refl
  signal_at-Timed s (some a) (some b) none h = refl
  signal_at-Timed s (some a) (some b) (some e) h = ground arith

  validate_signal-Timed : (s : SarLayeredSignal R) → Timed s (validate_signal R s)
  unfolding validate_signal
  validate_signal-Timed s = signal_at-Timed s s.bar_open_time s.bar_close_time s.observed_at refl

  decided-Decides :
      (state : SarLayeredState) (s : SarLayeredSignal R) (p : LayeredPositionSnapshot R)
      (c : SarLayeredConfig R) (t : ℕ) (r : Checked (SarLayeredTransition R))
      → s.bar_close_time ≡ some t
      → later t state.last_processed_close_time ≡ true
      → Fits R s p c r
      → Stamped t r
      → Behaves state s p c r
  unfolding Fits
  decided-Decides state s p c t (refused m) time new fits stamp = refl
  decided-Decides state s p c t crashed time new fits stamp = fits
  decided-Decides state s p c t (accepted r) time new fits stamp =
      inr (cc, rw time new, fits.0, fits.1)

  after_previous-Behaves :
      (state : SarLayeredState) (s : SarLayeredSignal R) (p : LayeredPositionSnapshot R)
      (c : SarLayeredConfig R) (t : ℕ) (last : Option (Option ℕ))
      → state.last_processed_close_time ≡ last
      → leb_ℤ (pos 1) c.max_layers ≡ true
      → (s.bar_close_time ≡ some t) × (is_side s.sar_direction ≡ true)
      → validate_position R p c ≡ none
      → Behaves state s p c (after_previous R state s p c t last)
  after_previous-Behaves state s p c t none l few (time, side) fine =
      decided-Decides state s p c t _ time (rw l refl) (decide-Fits R _ s p c few side fine)
        (decide-Stamped s p c t)
  after_previous-Behaves state s p c t (some none) l few (time, side) fine = refl
  after_previous-Behaves state s p c t (some (some u)) l few (time, side) fine =
      split_if (Behaves state s p c) (ltb t u) (λ _. refl)
        λ ordered.
          split_if (Behaves state s p c) (u == t) (λ same. inl (ground arith, refl))
            λ fresh.
              decided-Decides state s p c t _ time (rw l (ground arith))
                (decide-Fits R _ s p c few side fine) (decide-Stamped s p c t)

  on_position-Behaves :
      (state : SarLayeredState) (s : SarLayeredSignal R) (p : LayeredPositionSnapshot R)
      (c : SarLayeredConfig R) (t : ℕ) (o : Option Text)
      → validate_position R p c ≡ o
      → leb_ℤ (pos 1) c.max_layers ≡ true
      → (s.bar_close_time ≡ some t) × (is_side s.sar_direction ≡ true)
      → Behaves state s p c (on_position R state s p c t o)
  on_position-Behaves state s p c t (some m) e few timed = refl
  on_position-Behaves state s p c t none e few timed =
      after_previous-Behaves state s p c t state.last_processed_close_time refl few timed e

  on_signal-Behaves :
      (state : SarLayeredState) (s : SarLayeredSignal R) (p : LayeredPositionSnapshot R)
      (c : SarLayeredConfig R) (o : Checked ℕ)
      → Timed s o
      → leb_ℤ (pos 1) c.max_layers ≡ true
      → Behaves state s p c (on_signal R state s p c o)
  on_signal-Behaves state s p c (refused m) timed few = refl
  on_signal-Behaves state s p c crashed timed few = timed
  on_signal-Behaves state s p c (accepted t) timed few =
      on_position-Behaves state s p c t (validate_position R p c) refl few timed

  on_config-Behaves :
      (state : SarLayeredState) (s : SarLayeredSignal R) (p : LayeredPositionSnapshot R)
      (c : SarLayeredConfig R) (o : Option Text)
      → validate_config R c ≡ o
      → Behaves state s p c (on_config R state s p c o)
  on_config-Behaves state s p c (some m) e = refl
  on_config-Behaves state s p c none e =
      on_signal-Behaves state s p c (validate_signal R s) (validate_signal-Timed s)
        (config-layers c e)

  -- Whatever the floating-point arithmetic and the arguments, the transition raises no IndexError and
  -- no AssertionError. Where it answers, either the bar has been processed before, and then the state
  -- stays as it is and there is no action; or the bar is later than the last one, the state records
  -- it, and once the actions are filled the position is well formed, with at most `max_layers` layers,
  -- and its direction is that of the signal.
  pub transition_sar_layered-Behaves :
      (state : SarLayeredState) (s : SarLayeredSignal R) (p : LayeredPositionSnapshot R)
      (c : SarLayeredConfig R)
      → Behaves state s p c (transition_sar_layered R state s p c)
  unfolding transition_sar_layered
  transition_sar_layered-Behaves state s p c =
      on_config-Behaves state s p c (validate_config R c) refl
