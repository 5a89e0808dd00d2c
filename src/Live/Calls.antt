-- ===== src/Live/Calls.antt =====
-- live_strategy_runtime.py and live_layered_runtime.py: histories of calls, and the plans that they
-- commit.
use candle_mind.Paper.Broker.{is_price}
use candle_mind.Base.Text.{Text}
use candle_mind.Base.Result.{ok, Result}
use candle_mind.Runtime.Tape.{TapeRow}
use candle_mind.Live.Plan.{
  discard, commit, LiveFault, prepare_decision, DecisionPlan, Live, Strategy,
}
use candle_mind.Base.Floats.{Floats}
use candle_mind.Base.{true, ◌+◌, ◌≡◌, none, Option, ℕ, some, Bool, [], ◌∷◌, ◌++◌, List}

module _ (R : Floats) (A S : Type 0) where
  pub data LiveCall : Type 0 where
    prepares : Strategy R A S → List (TapeRow R) → ℕ → Option R.F → LiveCall
    commits_plan : Text → Bool → Bool → LiveCall
    discards_plan : Text → LiveCall

  -- The plan that a commit carries out, if any.
  abbrev pub committed_plans :
      Option (DecisionPlan R A S) → Result LiveFault Unit → List (DecisionPlan R A S)
  committed_plans (some p) (ok u) = p ∷ []
  committed_plans _ _ = []

  unfoldable pub step : Live R A S → LiveCall → Live R A S × List (DecisionPlan R A S)
  step r (prepares g tape cutoff price) = ((prepare_decision R A S g r tape cutoff price).0, [])
  step r (commits_plan id confirmed writable) =
      let done = commit R A S r id confirmed writable in (done.0, committed_plans r.pending done.1)
  step r (discards_plan id) = ((discard R A S r id).0, [])

  -- Calls in their order.
  unfoldable pub run : Live R A S → List LiveCall → Live R A S × List (DecisionPlan R A S)
  unfolding step
  run r [] = (r, [])
  run r (k ∷ ks) = let first = step r k in let rest = run first.0 ks in (rest.0, first.1 ++ rest.1)

  abbrev pub end : Option ℕ → List (DecisionPlan R A S) → Option ℕ
  end last [] = last
  end last (p ∷ plans) = end (some p.decision_time) plans

  -- The first plan has no actions. Any later one is for the bar that follows the last decision, and
  -- is executed at the open of the bar after it, at a price.
  abbrev pub Following : Option ℕ → DecisionPlan R A S → Type 0
  Following none p = (p.actions ≡ []) × (p.execution_time ≡ none)
  Following (some last) p =
      (p.decision_time ≡ last + 300000)
      × (p.execution_time ≡ some (p.decision_time + 1))
      × (x : R.F) × (p.reference ≡ some x)
      × (is_price R x ≡ true)

  abbrev pub Chain : Option ℕ → List (DecisionPlan R A S) → Type 0
  Chain last [] = Unit
  Chain last (p ∷ plans) = Following last p × Chain (some p.decision_time) plans

  abbrev pub IsFollowed : Option ℕ → Option (DecisionPlan R A S) → Type 0
  IsFollowed last none = Unit
  IsFollowed last (some p) = Following last p

  -- A plan that is pending follows the last decision.
  unfoldable pub IsLive : Live R A S → Type 0
  IsLive r = IsFollowed r.last_decision r.pending
