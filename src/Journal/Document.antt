-- ===== src/Journal/Document.antt =====
-- execution_store.py: a document of the journal. Its objects are records; `decisions` and `orders`,
-- which are keyed by the decision's id and by the order's ordinal, are lists in insertion order.
use candle_mind.Base.Text.{text_eq, Text}
use candle_mind.Json.Value.{Fields, Json}
use candle_mind.Base.{[], ◌==◌, true, false, length, Option, ◌∷◌, Bool, suc, List, ℕ}

pub data DecisionStatus : Type 0 where
  prepared executing committed failed recovery_required : DecisionStatus

pub data ResultStatus : Type 0 where
  pending submitted partially_filled filled rejected cancelled unknown : ResultStatus

-- ValueError, ExecutionStoreError, ExecutionStoreConflict, and decimal's InvalidOperation.
pub data Fault : Type 0 where
  value_error store_error conflict invalid_operation : Fault

pub data Reply (A : Type 0) : Type 0 where
  done : A → Reply A
  fault : Fault → Reply A

-- A result that is not pending, in its seven fields.
pub record Report : Type 0 where
  pub status : ResultStatus
  pub exchange_order_id : Json
  pub client_order_id : Option Text
  pub filled_quantity : Json
  pub error : Option Text
  pub details : Fields
  pub updated_at : Text

-- The two fields of a pending result, or a report.
pub data OrderResult : Type 0 where
  awaited : Text → OrderResult
  reported : Report → OrderResult

pub record Order : Type 0 where
  pub ordinal : ℕ
  pub attempted_at : Text
  pub request : Fields
  pub result : OrderResult

pub record Decision : Type 0 where
  pub decision_id : Text
  pub action : Text
  pub created_at : Text
  pub status : DecisionStatus
  pub status_updated_at : Text
  pub expected_order_count : ℕ
  pub pre_state : Json
  pub proposed_state : Json
  pub failure : Option Text
  pub details : Fields
  pub orders : List Order

pub record Counters : Type 0 where
  pub decision_count : ℕ
  pub order_attempt_count : ℕ
  pub submitted_order_count : ℕ
  pub filled_order_count : ℕ
  pub rejected_order_count : ℕ
  pub unknown_order_count : ℕ

pub record Document : Type 0 where
  pub network : Text
  pub symbol : Text
  pub run_id : Text
  pub started_at : Text
  pub metadata : Fields
  pub decisions : List Decision
  pub counters : Counters
  pub updated_at : Text

-- `result["status"]`
abbrev pub status_of : OrderResult → ResultStatus
status_of (awaited t) = ResultStatus.pending
status_of (reported r) = r.status

abbrev pub is_filled : ResultStatus → Bool
is_filled ResultStatus.filled = true
is_filled _ = false

abbrev pub is_pending : ResultStatus → Bool
is_pending ResultStatus.pending = true
is_pending _ = false

-- TERMINAL_STATUSES
abbrev pub is_terminal_result : ResultStatus → Bool
is_terminal_result ResultStatus.filled = true
is_terminal_result ResultStatus.rejected = true
is_terminal_result ResultStatus.cancelled = true
is_terminal_result _ = false

-- RESOLVED_DECISION_STATUSES
abbrev pub is_resolved : DecisionStatus → Bool
is_resolved DecisionStatus.committed = true
is_resolved DecisionStatus.failed = true
is_resolved _ = false

abbrev pub is_committed : DecisionStatus → Bool
is_committed DecisionStatus.committed = true
is_committed _ = false

-- `status in _DECISION_TRANSITIONS[current]`
abbrev pub may_become : DecisionStatus → DecisionStatus → Bool
may_become DecisionStatus.prepared DecisionStatus.prepared = false
may_become DecisionStatus.prepared _ = true
may_become DecisionStatus.executing DecisionStatus.committed = true
may_become DecisionStatus.executing DecisionStatus.failed = true
may_become DecisionStatus.executing DecisionStatus.recovery_required = true
may_become _ _ = false

abbrev pub same_status : DecisionStatus → DecisionStatus → Bool
same_status DecisionStatus.prepared DecisionStatus.prepared = true
same_status DecisionStatus.executing DecisionStatus.executing = true
same_status DecisionStatus.committed DecisionStatus.committed = true
same_status DecisionStatus.failed DecisionStatus.failed = true
same_status DecisionStatus.recovery_required DecisionStatus.recovery_required = true
same_status _ _ = false

abbrev pub has_decision_id : Text → Decision → Bool
has_decision_id i d = text_eq d.decision_id i

abbrev pub has_ordinal : ℕ → Order → Bool
has_ordinal n o = o.ordinal == n

-- `_empty_counters`
abbrev pub empty_counters : Counters
empty_counters = record {
  decision_count = 0;
  order_attempt_count = 0;
  submitted_order_count = 0;
  filled_order_count = 0;
  rejected_order_count = 0;
  unknown_order_count = 0;
}

-- The increments of `_derive_counters` at one order.
unfoldable pub count_status : ResultStatus → Counters → Counters
count_status ResultStatus.submitted c = record c {
  submitted_order_count = suc c.submitted_order_count;
}
count_status ResultStatus.partially_filled c = record c {
  submitted_order_count = suc c.submitted_order_count;
}
count_status ResultStatus.filled c = record c {
  submitted_order_count = suc c.submitted_order_count;
  filled_order_count = suc c.filled_order_count;
}
count_status ResultStatus.rejected c = record c {
  rejected_order_count = suc c.rejected_order_count;
}
count_status ResultStatus.unknown c = record c { unknown_order_count = suc c.unknown_order_count }
count_status _ c = c

unfoldable pub count_orders : List Order → Counters → Counters
unfolding count_status
count_orders [] c = c
count_orders (o ∷ os) c = count_orders os (
    count_status (status_of o.result)
      (record c { order_attempt_count = suc c.order_attempt_count }))

unfoldable pub count_decisions : List Decision → Counters → Counters
unfolding count_orders
count_decisions [] c = c
count_decisions (d ∷ ds) c = count_decisions ds (count_orders d.orders c)

-- `_derive_counters`
unfoldable pub derive_counters : List Decision → Counters
unfolding count_decisions
derive_counters ds = count_decisions ds (record empty_counters { decision_count = length ds })
