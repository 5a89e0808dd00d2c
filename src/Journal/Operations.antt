-- ===== src/Journal/Operations.antt =====
-- execution_store.py: the operations. Each reads the clock once, as `now`; an error that is given to
-- one is what `redact_error` makes of it.
use candle_mind.Json.Equal.{json_eq}
use candle_mind.Base.Table.{find}
use candle_mind.Journal.Store.{set_decision, edit, Edit, Disk}
use candle_mind.Journal.Validate.{is_safe, safe_fields, validate_commit_ready, is_identifier}
use candle_mind.Base.Int.{negsuc, pos, ℤ}
use candle_mind.Base.Text.{strip, codes, upper, text_eq, Text}
use candle_mind.Base.{
  ◌++◌, leb, ◌==◌, if◌then◌else◌, [], not, ◌&&◌, ◌∷◌, some, none, ℕ, Option, Bool,
}
use candle_mind.Json.Value.{get_field, Fields, Json}
use candle_mind.Journal.Document.{
  may_become, awaited, done, has_ordinal, has_decision_id, same_status, fault, Reply, Fault,
  Document, DecisionStatus, Order, Decision,
}

abbrev pub or_now : Option Text → Text → Text
or_now none now = now
or_now (some []) now = now
or_now (some (c ∷ t)) now = c ∷ t

-- The arguments of `record_decision`.
pub record NewDecision : Type 0 where
  pub decision_id : Text
  pub action : Text
  pub details : Fields
  pub expected_order_count : Option ℤ
  pub pre_state : Json
  pub proposed_state : Json
  pub created_at : Option Text

abbrev pub json_count : Option Json → Option ℕ
json_count none = some 0
json_count (some (Json.int (pos n))) = some n
json_count (some j) = none

-- `expected_order_count`, which is read from the details if it is not given; `none` raises ValueError.
abbrev pub expected_of : NewDecision → Option ℕ
expected_of a = elim a.expected_order_count [
  | some (pos n) ↦ some n
  | some (negsuc n) ↦ none
  | none ↦ json_count (get_field (codes "expected_order_count") a.details)
]

abbrev pub strategy_state : Option Json → Json
strategy_state (some (Json.obj fs)) = Json.obj fs
strategy_state j = Json.null

abbrev pub proposed_of : NewDecision → Json
proposed_of a = elim a.proposed_state [
  | Json.null ↦ strategy_state (get_field (codes "strategy_state") a.details)
  | j ↦ j
]

abbrev pub candidate : NewDecision → ℕ → Text → Decision
candidate a expected now = record {
  decision_id = a.decision_id;
  action = upper (strip a.action);
  created_at = or_now a.created_at now;
  status = if expected == 0 then DecisionStatus.committed else DecisionStatus.prepared;
  status_updated_at = or_now a.created_at now;
  expected_order_count = expected;
  pre_state = a.pre_state;
  proposed_state = proposed_of a;
  failure = none;
  details = a.details;
  orders = [];
}

-- `all(existing[field] == candidate[field] for field in immutable_fields)`
unfoldable pub same_content : Decision → Decision → Bool
same_content a b =
    text_eq a.decision_id b.decision_id
    && text_eq a.action b.action
    && a.expected_order_count == b.expected_order_count
    && json_eq a.pre_state b.pre_state
    && json_eq a.proposed_state b.proposed_state
    && json_eq (Json.obj a.details) (Json.obj b.details)

abbrev pub added : Decision → Document → Option Decision → Edit Decision
added new doc (some existing) =
    if same_content existing new then done (existing, none) else fault Fault.conflict
added new doc none = done (new, some (record doc { decisions = doc.decisions ++ new ∷ [] }))

unfoldable pub add_decision : Decision → Document → Edit Decision
add_decision new doc = added new doc (find (has_decision_id new.decision_id) doc.decisions)

abbrev pub is_new_decision : NewDecision → Bool
is_new_decision a =
    is_identifier a.decision_id
    && not (text_eq (strip a.action) [])
    && safe_fields a.details
    && is_safe a.pre_state
    && is_safe (proposed_of a)

abbrev pub with_expected :
    Text → Text → Text → NewDecision → Disk → Option ℕ → Reply Decision × Disk
with_expected network symbol now a disk none = (fault Fault.value_error, disk)
with_expected network symbol now a disk (some expected) =
    if is_new_decision a
    then edit network symbol now (add_decision (candidate a expected now)) disk
    else (fault Fault.value_error, disk)

-- `record_decision`
unfoldable pub record_decision : Text → Text → Text → NewDecision → Disk → Reply Decision × Disk
record_decision network symbol now a disk = with_expected network symbol now a disk (expected_of a)

abbrev pub keeps_failure : DecisionStatus → Option Text → Option Text
keeps_failure DecisionStatus.failed error = error
keeps_failure DecisionStatus.recovery_required error = error
keeps_failure _ error = none

-- `_validate_commit_ready`, where the new status is committed.
abbrev pub ready_for : DecisionStatus → Decision → Option Fault
ready_for DecisionStatus.committed d = validate_commit_ready d
ready_for _ d = none

abbrev pub with_status : DecisionStatus → Option Text → Text → Decision → Decision
with_status status error at d = record d {
  status = status;
  status_updated_at = at;
  failure = keeps_failure status error;
}

abbrev pub advanced : Decision → Document → Option Fault → Edit Decision
advanced d doc (some f) = fault f
advanced d doc none = done (d, some (set_decision d doc))

unfoldable pub advance_decision :
    DecisionStatus → Option Text → Text → Document → Decision → Edit Decision
advance_decision status error at doc d =
    if same_status d.status status
    then done (d, none)
    else if not (may_become d.status status)
    then fault Fault.conflict
    else advanced (with_status status error at d) doc (ready_for status d)

-- `transition_decision`
unfoldable pub transition_decision :
    Text
    → Text
    → Text
    → Text
    → DecisionStatus
    → Option Text
    → Option Text
    → Disk
    → Reply Decision × Disk
transition_decision network symbol now decision_id status error updated_at disk =
    edit network symbol now
      (λ doc. elim (find (has_decision_id decision_id) doc.decisions) [
        | none ↦ fault Fault.store_error
        | some d ↦ advance_decision status error (or_now updated_at now) doc d
      ])
      disk

-- The decision that may take an order: a prepared one begins to execute.
abbrev pub takes_orders : Text → Decision → Option Decision
takes_orders at d = elim d.status [
  | DecisionStatus.prepared ↦
      some (record d { status = DecisionStatus.executing; status_updated_at = at })
  | DecisionStatus.executing ↦ some d
  | _ ↦ none
]

abbrev pub placed : Order → Document → Decision → Option Order → Edit Order
placed new doc d (some existing) =
    if json_eq (Json.obj existing.request) (Json.obj new.request)
    then done (existing, none)
    else fault Fault.conflict
placed new doc d none =
    done (new, some (set_decision (record d { orders = d.orders ++ new ∷ [] }) doc))

abbrev pub ordered : Order → Document → Option Decision → Edit Order
ordered new doc none = fault Fault.conflict
ordered new doc (some d) =
    if leb d.expected_order_count new.ordinal
    then fault Fault.conflict
    else placed new doc d (find (has_ordinal new.ordinal) d.orders)

unfoldable pub add_order : Order → Text → Document → Decision → Edit Order
add_order new at doc d = ordered new doc (takes_orders at d)

-- `record_order_attempt`
unfoldable pub record_order_attempt :
    Text → Text → Text → Text → ℤ → Fields → Option Text → Disk → Reply Order × Disk
record_order_attempt network symbol now decision_id (negsuc n) request attempted_at disk =
    (fault Fault.value_error, disk)
record_order_attempt network symbol now decision_id (pos n) request attempted_at disk =
    if safe_fields request
    then edit network symbol now
        (λ doc. elim (find (has_decision_id decision_id) doc.decisions) [
          | none ↦ fault Fault.store_error
          | some d ↦
              add_order
                (record {
                  ordinal = n;
                  attempted_at = or_now attempted_at now;
                  request = request;
                  result = awaited (or_now attempted_at now);
                })
                (or_now attempted_at now) doc d
        ])
        disk
    else (fault Fault.value_error, disk)
