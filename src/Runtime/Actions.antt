-- ===== src/Runtime/Actions.antt =====
-- sar_adx_runtime.py: the actions of a decision and the funding, on a broker.
use candle_mind.Base.Result.{err, ok, Result}
use candle_mind.Runtime.Tape.{FundingRow}
use candle_mind.Paper.Broker.{
  close_position, add_layer, open_position, returned, Call, PaperFill, settle_funding, PaperBroker,
}
use candle_mind.Base.Int.{ℤ}
use candle_mind.Base.Text.{codes, Text}
use candle_mind.Base.Floats.{Floats}
use candle_mind.Pyramid.Config.{SarPyramidConfig, SarPyramidAction, SarPyramidActionType}
use candle_mind.Base.{none, suc, leb, some, ℕ, Option, [], ◌∷◌, List, if◌then◌else◌}

-- SarAdxRuntimeError, what the broker or the transition raises, SarAdxStateError, a KeyError, and the
-- ValueError of json.dumps.
pub data RuntimeFault : Type 0 where
  runtime_error broker_error strategy_error state_error key_error value_error : RuntimeFault

-- `action.value`
abbrev pub action_value : SarPyramidActionType → Text
action_value SarPyramidActionType.open_position = codes "open"
action_value SarPyramidActionType.add_layer = codes "add"
action_value SarPyramidActionType.reverse_close = codes "reverse_close"
action_value SarPyramidActionType.trend_filter_exit = codes "trend_filter_exit"
action_value SarPyramidActionType.universe_exit = codes "universe_exit"
action_value SarPyramidActionType.hold = codes "hold"

module _ (R : Floats) (timedelta : Text → Option ℤ) where
  -- What an action does, or `none` for one that is skipped.
  unfoldable pub act :
      SarPyramidAction
      → PaperBroker R
      → R.F
      → Text
      → SarPyramidConfig R
      → Option (Call R (PaperFill R))
  act a b reference id c = elim a.action [
    | SarPyramidActionType.open_position ↦
        some (open_position R timedelta b a.direction reference id c)
    | SarPyramidActionType.add_layer ↦ some (add_layer R b reference id c)
    | SarPyramidActionType.hold ↦ none
    | other ↦ some (close_position R b (action_value other) reference id c)
  ]

  abbrev pub acted :
      (PaperBroker R → List (PaperFill R) × Result RuntimeFault (PaperBroker R))
      → PaperBroker R
      → Option (Call R (PaperFill R))
      → List (PaperFill R) × Result RuntimeFault (PaperBroker R)
  acted next b none = next b
  acted next b (some (after, returned f)) = (f ∷ (next after).0, (next after).1)
  acted next b (some (after, _)) = ([], err RuntimeFault.broker_error)

  -- The loop over the actions from the ordinal `n` on: the fills, and the broker or what it raises.
  unfoldable pub run_actions :
      (ℕ → SarPyramidActionType → Text)
      → R.F
      → SarPyramidConfig R
      → ℕ
      → List SarPyramidAction
      → PaperBroker R
      → List (PaperFill R) × Result RuntimeFault (PaperBroker R)
  unfolding act
  run_actions id reference c n [] b = ([], ok b)
  run_actions id reference c n (a ∷ actions) b =
      acted (run_actions id reference c (suc n) actions) b (act a b reference (id n a.action) c)

  abbrev pub settled :
      (PaperBroker R → Result RuntimeFault (PaperBroker R))
      → Call R R.F
      → Result RuntimeFault (PaperBroker R)
  settled next (b, returned x) = next b
  settled next (b, _) = err RuntimeFault.broker_error

  -- `_settle_funding`
  unfoldable pub settle_rows :
      (ℕ → Text)
      → ℕ
      → R.F
      → List (FundingRow R)
      → PaperBroker R
      → Result RuntimeFault (PaperBroker R)
  unfolding settle_funding
  settle_rows isoformat cutoff mark_price [] b = ok b
  settle_rows isoformat cutoff mark_price (row ∷ rows) b =
      let rest = settle_rows isoformat cutoff mark_price rows in
      if leb row.funding_time cutoff
      then settled rest
          (settle_funding R b (isoformat row.funding_time) row.funding_rate mark_price)
      else rest b
