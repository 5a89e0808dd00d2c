-- ===== src/Journal/Calls.antt =====
-- execution_store.py: the calls that write, and histories of them.
use candle_mind.Base.Int.{ℤ}
use candle_mind.Journal.Operations.{
  record_order_attempt, transition_decision, NewDecision, record_decision,
}
use candle_mind.Json.Value.{Fields}
use candle_mind.Journal.Results.{archive, record_order_result, initialize}
use candle_mind.Journal.Store.{Disk}
use candle_mind.Base.{[], ℕ, Option, ◌∷◌, List}
use candle_mind.Base.Text.{Text}
use candle_mind.Journal.Document.{Report, DecisionStatus}

pub data JournalCall : Type 0 where
  initializes : Text → Fields → Option Text → JournalCall
  decides : NewDecision → JournalCall
  transitions : Text → DecisionStatus → Option Text → Option Text → JournalCall
  attempts_order : Text → ℤ → Fields → Option Text → JournalCall
  reports : Text → ℕ → Report → JournalCall
  archives : JournalCall

-- A call at a network, a symbol and a time.
pub record Dated : Type 0 where
  pub network : Text
  pub symbol : Text
  pub now : Text
  pub call : JournalCall

-- What the call leaves on the disk, whether it returns or raises.
unfoldable pub after_call : Dated → Disk → Disk
after_call a disk = elim a.call [
  | initializes run_id metadata started_at ↦
      (initialize a.network a.symbol a.now run_id metadata started_at disk).1
  | decides new ↦ (record_decision a.network a.symbol a.now new disk).1
  | transitions id status error at ↦
      (transition_decision a.network a.symbol a.now id status error at disk).1
  | attempts_order id ordinal request at ↦
      (record_order_attempt a.network a.symbol a.now id ordinal request at disk).1
  | reports id ordinal report ↦
      (record_order_result a.network a.symbol a.now id ordinal report disk).1
  | archives ↦ (archive a.network a.symbol disk).1
]

unfoldable pub after_calls : List Dated → Disk → Disk
after_calls [] disk = disk
after_calls (a ∷ rest) disk = after_calls rest (after_call a disk)
