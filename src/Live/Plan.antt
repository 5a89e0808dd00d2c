-- ===== src/Live/Plan.antt =====
-- live_strategy_runtime.py and live_layered_runtime.py: a decision that is prepared, and committed
-- or discarded. The methods of the two runtimes differ in the strategy and in the first state.
use candle_mind.Paper.Broker.{is_price}
use candle_mind.Base.Result.{err, ok, Result}
use candle_mind.Runtime.Tape.{Window, TapeRow, locate}
use candle_mind.Base.Floats.{Floats}
use candle_mind.Base.{
  ◌-◌, ltb, leb, ◌+◌, ◌==◌, get_or, none, Option, ℕ, some, Bool, [], not, ◌&&◌, List, if◌then◌else◌,
}
use candle_mind.Base.Text.{codes, Text, text_eq}

-- LiveStrategyRuntimeError, what the transition raises, what `_save_state` raises, and a KeyError.
pub data LiveFault : Type 0 where
  runtime_error strategy_error store_error key_error : LiveFault

module _ (R : Floats) where
  -- The open of the next bar, if it can be traded: the reference price.
  unfoldable pub reference_price : ℕ → ℕ → Option R.F → TapeRow R → Option R.F
  reference_price time cutoff execution_price n =
      let reference = get_or execution_price n.open_price in
      if not (n.open_time == time + 1)
      then none
      else if not (leb n.open_time cutoff && leb cutoff n.close_time)
      then none
      else if ltb 30000 (cutoff - n.open_time)
      then none
      else if not (is_price R reference)
      then none
      else some reference

  module _ (A S : Type 0) where
    pub record DecisionPlan : Type 0 where
      pub decision_id : Text
      pub actions : List A
      pub proposed_state : S
      pub decision_time : ℕ
      pub execution_time : Option ℕ
      pub reference : Option R.F
      pub no_action_reason : Option Text

    pub record Live : Type 0 where
      pub state : S
      pub last_decision : Option ℕ
      pub last_execution : Option ℕ
      pub pending : Option DecisionPlan

    pub record Decided : Type 0 where
      pub actions : List A
      pub state : S
      pub reason : Option Text

    -- `_decision_id`, the state of the first plan, and the decision at a bar, for a position.
    pub record Strategy : Type 0 where
      pub decision_id : ℕ → Text
      pub baseline : S → ℕ → S
      pub decide : S → Window R → ℕ → R.F → Result LiveFault Decided

    abbrev pub Prepared : Type 0
    Prepared = Live × Result LiveFault (Option DecisionPlan)

    abbrev pub proposes : Live → DecisionPlan → Prepared
    proposes r p = (record r { pending = some p }, ok (some p))

    module _ (g : Strategy) (r : Live) where
      abbrev pub on_decided : ℕ → ℕ → R.F → Result LiveFault Decided → Prepared
      on_decided time execution reference (err f) = (r, err f)
      on_decided time execution reference (ok d) = proposes r (record {
        decision_id = g.decision_id time;
        actions = d.actions;
        proposed_state = d.state;
        decision_time = time;
        execution_time = some execution;
        reference = some reference;
        no_action_reason = d.reason;
      })

      abbrev pub on_reference : Window R → ℕ → TapeRow R → Option R.F → Prepared
      on_reference w cutoff n none = (r, err LiveFault.runtime_error)
      on_reference w cutoff n (some x) =
          on_decided w.decision.close_time n.open_time x (g.decide r.state w cutoff x)

      abbrev pub on_next : Window R → ℕ → Option R.F → Option (TapeRow R) → Prepared
      on_next w cutoff price none = (r, ok none)
      on_next w cutoff price (some n) =
          on_reference w cutoff n (reference_price w.decision.close_time cutoff price n)

      abbrev pub on_last : Window R → ℕ → Option R.F → Option ℕ → Prepared
      on_last w cutoff price none = proposes r (record {
        decision_id = g.decision_id w.decision.close_time;
        actions = [];
        proposed_state = g.baseline r.state w.decision.close_time;
        decision_time = w.decision.close_time;
        execution_time = none;
        reference = none;
        no_action_reason = some (codes "baseline");
      })
      on_last w cutoff price (some last) =
          if leb w.decision.close_time last
          then (r, ok none)
          else if not (w.decision.close_time == last + 300000)
          then (r, err LiveFault.runtime_error)
          else on_next w cutoff price w.next

      abbrev pub on_pending : Window R → ℕ → Option R.F → Option DecisionPlan → Prepared
      on_pending w cutoff price none = on_last w cutoff price r.last_decision
      on_pending w cutoff price (some p) =
          if text_eq p.decision_id (g.decision_id w.decision.close_time)
          then (r, ok (some p))
          else (r, err LiveFault.runtime_error)

      abbrev pub on_window : ℕ → Option R.F → Option (Window R) → Prepared
      on_window cutoff price none = (r, err LiveFault.runtime_error)
      on_window cutoff price (some w) = on_pending w cutoff price r.pending

      -- `prepare_decision`, on a validated tape with its indicators.
      unfoldable pub prepare_decision : List (TapeRow R) → ℕ → Option R.F → Prepared
      unfolding locate
      prepare_decision tape cutoff price = on_window cutoff price (locate R cutoff none tape)

    abbrev pub committed : Live → DecisionPlan → Live
    committed r p = record {
      state = p.proposed_state;
      last_decision = some p.decision_time;
      last_execution = p.execution_time;
      pending = none;
    }

    abbrev pub commits :
        Live → Text → Bool → Bool → Option DecisionPlan → Live × Result LiveFault Unit
    commits r id confirmed writable none = (r, err LiveFault.runtime_error)
    commits r id confirmed writable (some p) =
        if not (text_eq p.decision_id id)
        then (r, err LiveFault.runtime_error)
        else if not confirmed
        then (r, err LiveFault.runtime_error)
        else if not writable
        then (r, err LiveFault.store_error)
        else (committed r p, ok tt)

    -- `commit`, of the plan with an ID; the layered runtime has no `_save_state` that can raise.
    unfoldable pub commit : Live → Text → Bool → Bool → Live × Result LiveFault Unit
    unfolding text_eq
    commit r id confirmed writable = commits r id confirmed writable r.pending

    abbrev pub discards : Live → Text → Option DecisionPlan → Live × Result LiveFault Unit
    discards r id none = (r, err LiveFault.runtime_error)
    discards r id (some p) =
        if not (text_eq p.decision_id id)
        then (r, err LiveFault.runtime_error)
        else (record r { pending = none }, ok tt)

    -- `discard`
    unfoldable pub discard : Live → Text → Live × Result LiveFault Unit
    unfolding text_eq
    discard r id = discards r id r.pending
