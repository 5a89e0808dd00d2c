-- ===== src/Journal/Validate.antt =====
-- execution_store.py: what a document must satisfy to be saved or loaded.
use candle_mind.Base.Search.{contains}
use candle_mind.Json.Value.{Fields, Items, Json, get_field}
use candle_mind.Json.{is_finite_repr}
use candle_mind.Base.Text.{lower, codes, text_eq, Text}
use candle_mind.Ledger.Contracts.{is_network}
use candle_mind.Base.{
  zero, any, [], or_else, is_some, some, suc, if◌then◌else◌, ◌||◌, length, none, all, ltb, ◌∷◌, leb,
  true, ◌==◌, false, not, ◌&&◌, Bool, List, ℕ, Option,
}
use candle_mind.Json.Decimal.{decimal_of, is_positive_decimal, decimal_eq, Decimal}
use candle_mind.Journal.Document.{
  status_of, is_filled, has_ordinal, is_pending, derive_counters, reported, Fault, DecisionStatus,
  awaited, Document, Counters, Order, Decision, OrderResult,
}

-- `_SENSITIVE_KEY.search(key)`
unfoldable pub is_sensitive : Text → Bool
unfolding contains lower
is_sensitive key =
    any (λ w. contains w (lower key))
      (codes "apikey"
        ∷ codes "api_key"
        ∷ codes "api-key"
        ∷ codes "secret"
        ∷ codes "signature"
        ∷ codes "passphrase"
        ∷ codes "authorization"
        ∷ codes "credential"
        ∷ codes "token"
        ∷ [])

unfoldable mutual
  unfolding is_finite_repr is_sensitive

  -- `_safe_payload` raises ValueError where this is false, and else returns an equal copy.
  pub is_safe : Json → Bool
  is_safe (Json.float t) = is_finite_repr t
  is_safe (Json.arr xs) = safe_items xs
  is_safe (Json.obj fs) = safe_fields fs
  is_safe _ = true

  pub safe_items : Items → Bool
  safe_items Items.nil = true
  safe_items (Items.cons x xs) = is_safe x && safe_items xs

  pub safe_fields : Fields → Bool
  safe_fields Fields.end = true
  safe_fields (Fields.field k v fs) = not (is_sensitive k) && is_safe v && safe_fields fs

abbrev pub is_alnum : ℕ → Bool
is_alnum c = (leb b'A' c && leb c b'Z') || (leb b'a' c && leb c b'z') || (leb b'0' c && leb c b'9')

-- `_IDENTIFIER.fullmatch`
unfoldable pub is_identifier : Text → Bool
is_identifier [] = false
is_identifier (c ∷ t) =
    is_alnum c
    && all (λ d. is_alnum d || d == b'_' || d == b'.' || d == b':' || d == b'-') t
    && leb (length t) 127

-- `_validate_identity`; this `_SYMBOL` is `[A-Z0-9]{2,20}`.
unfoldable pub is_identity : Text → Text → Bool
unfolding is_network
is_identity network symbol =
    is_network network
    && all (λ c. (leb b'A' c && leb c b'Z') || (leb b'0' c && leb c b'9')) symbol
    && leb 2 (length symbol)
    && leb (length symbol) 20

-- Checks in order: the fault of the first that fails.
abbrev pub fault_if : Bool → Fault → Option Fault → Option Fault
fault_if b f later = if b then some f else later

-- Every ordinal below `n` has an order.
unfoldable pub has_all : ℕ → List Order → Bool
has_all zero os = true
has_all (suc n) os = any (has_ordinal n) os && has_all n os

-- `order["request"].get("quantity")`
abbrev pub requested_quantity : Order → Option Decimal
requested_quantity o = elim (get_field (codes "quantity") o.request) [
  | none ↦ none
  | some q ↦ decimal_of q
]

-- `order["result"].get("filled_quantity")`
abbrev pub quantity_filled : OrderResult → Option Decimal
quantity_filled (awaited t) = none
quantity_filled (reported r) = decimal_of r.filled_quantity

-- `filled_quantity != requested_quantity`, after the other two tests.
abbrev pub compare_filled : Decimal → Decimal → Option Fault
compare_filled requested Decimal.snan = some Fault.invalid_operation
compare_filled requested quantity =
    fault_if (not (decimal_eq quantity requested)) Fault.conflict none

abbrev pub compare_quantities : Option Decimal → Option Decimal → Option Fault
compare_quantities (some requested) (some quantity) =
    if is_positive_decimal requested then compare_filled requested quantity else some Fault.conflict
compare_quantities _ _ = some Fault.conflict

unfoldable pub check_quantities : List Order → Option Fault
check_quantities [] = none
check_quantities (o ∷ os) =
    or_else (compare_quantities (requested_quantity o) (quantity_filled o.result))
      (check_quantities os)

-- `_validate_commit_ready`
unfoldable pub validate_commit_ready : Decision → Option Fault
validate_commit_ready d =
    fault_if (not (length d.orders == d.expected_order_count)) Fault.conflict (
      fault_if
        (not (
          has_all d.expected_order_count d.orders
          && all (λ o. ltb o.ordinal d.expected_order_count) d.orders))
        Fault.conflict
        (fault_if (any (λ o. not (is_filled (status_of o.result))) d.orders) Fault.conflict
          (check_quantities d.orders)))

abbrev pub is_result : OrderResult → Bool
is_result (awaited t) = not (text_eq t [])
is_result (reported r) =
    not (is_pending r.status)
    && not (text_eq r.updated_at [])
    && is_safe r.exchange_order_id
    && is_safe r.filled_quantity
    && safe_fields r.details

-- `_validate_order` raises ExecutionStoreError where this is false.
unfoldable pub is_order : Order → Bool
is_order o = not (text_eq o.attempted_at []) && safe_fields o.request && is_result o.result

-- A conflict of `_validate_commit_ready` becomes an ExecutionStoreError.
abbrev pub on_load : Option Fault → Option Fault
on_load (some Fault.conflict) = some Fault.store_error
on_load r = r

-- The last checks of `_validate_decision`, by status.
abbrev pub check_status : Decision → DecisionStatus → Option Fault
check_status d DecisionStatus.prepared = fault_if (ltb 0 (length d.orders)) Fault.store_error none
check_status d DecisionStatus.committed = on_load (validate_commit_ready d)
check_status d DecisionStatus.failed = fault_if (not (is_some d.failure)) Fault.store_error none
check_status d _ = none

-- `_validate_decision`
unfoldable pub validate_decision : Decision → Option Fault
validate_decision d =
    fault_if
      (not (
        is_identifier d.decision_id
        && not (text_eq d.action [])
        && not (text_eq d.created_at [])
        && not (text_eq d.status_updated_at [])
        && safe_fields d.details
        && is_safe d.pre_state
        && is_safe d.proposed_state
        && all is_order d.orders
        && leb (length d.orders) d.expected_order_count))
      Fault.store_error (check_status d d.status)

unfoldable pub validate_decisions : List Decision → Option Fault
validate_decisions [] = none
validate_decisions (d ∷ ds) = or_else (validate_decision d) (validate_decisions ds)

abbrev pub same_counters : Counters → Counters → Bool
same_counters a b =
    a.decision_count == b.decision_count
    && a.order_attempt_count == b.order_attempt_count
    && a.submitted_order_count == b.submitted_order_count
    && a.filled_order_count == b.filled_order_count
    && a.rejected_order_count == b.rejected_order_count
    && a.unknown_order_count == b.unknown_order_count

-- `_validate_document`
unfoldable pub validate_document : Text → Text → Document → Option Fault
validate_document network symbol doc =
    fault_if
      (not (
        is_identity network symbol
        && text_eq doc.network network
        && text_eq doc.symbol symbol
        && is_identifier doc.run_id
        && not (text_eq doc.started_at [])
        && safe_fields doc.metadata))
      Fault.store_error
      (or_else (validate_decisions doc.decisions) (
        fault_if (not (same_counters doc.counters (derive_counters doc.decisions)))
          Fault.store_error (fault_if (text_eq doc.updated_at []) Fault.store_error none)))
