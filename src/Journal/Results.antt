-- ===== src/Journal/Results.antt =====
-- execution_store.py: the results of orders, the start and the end of a journal, and its readers.
use candle_mind.Json.Equal.{json_eq}
use candle_mind.Journal.Operations.{or_now}
use candle_mind.Journal.Validate.{is_safe, is_identifier, safe_fields, is_identity}
use candle_mind.Journal.Store.{save, set_decision, at_path, edit, File, load, Edit, Disk}
use candle_mind.Json.Value.{Json, Fields}
use candle_mind.Base.Table.{find, select, update_where}
use candle_mind.Base.{
  true, ◌∷◌, ◌++◌, none, ◌==◌, ◌&&◌, false, all, if◌then◌else◌, [], not, some, List, Bool, Option,
  ℕ,
}
use candle_mind.Base.Text.{text_eq, Text}
use candle_mind.Journal.Document.{
  Order, status_of, Fault, has_decision_id, is_committed, is_terminal_result, reported,
  empty_counters, is_pending, is_resolved, awaited, has_ordinal, Document, Report, OrderResult,
  Decision, ResultStatus, Reply, done, fault,
}

abbrev pub result_rank : ResultStatus → ℕ
result_rank ResultStatus.pending = 0
result_rank ResultStatus.submitted = 1
result_rank ResultStatus.partially_filled = 2
result_rank ResultStatus.filled = 3
result_rank ResultStatus.rejected = 4
result_rank ResultStatus.cancelled = 5
result_rank ResultStatus.unknown = 6

abbrev pub same_optional : Option Text → Option Text → Bool
same_optional none none = true
same_optional (some s) (some t) = text_eq s t
same_optional _ _ = false

-- `existing == result`
unfoldable pub same_result : OrderResult → Report → Bool
same_result (awaited t) b = false
same_result (reported a) b =
    result_rank a.status == result_rank b.status
    && json_eq a.exchange_order_id b.exchange_order_id
    && same_optional a.client_order_id b.client_order_id
    && json_eq a.filled_quantity b.filled_quantity
    && same_optional a.error b.error
    && json_eq (Json.obj a.details) (Json.obj b.details)
    && text_eq a.updated_at b.updated_at

abbrev pub with_result : ℕ → Report → Decision → Decision
with_result n r d = record d {
  orders = update_where (has_ordinal n) (λ o. record o { result = reported r }) d.orders;
}

abbrev pub resulted : ℕ → Report → Document → Decision → Option Order → Edit OrderResult
resulted n r doc d none = fault Fault.store_error
resulted n r doc d (some o) =
    if same_result o.result r
    then done (o.result, none)
    else if is_terminal_result (status_of o.result)
    then fault Fault.conflict
    else done (reported r, some (set_decision (with_result n r d) doc))

unfoldable pub set_result : ℕ → Report → Document → Decision → Edit OrderResult
set_result n r doc d = resulted n r doc d (find (has_ordinal n) d.orders)

abbrev pub is_report : Report → Bool
is_report r =
    not (is_pending r.status)
    && safe_fields r.details
    && is_safe r.exchange_order_id
    && is_safe r.filled_quantity

-- `record_order_result`; a negative ordinal names no order.
unfoldable pub record_order_result :
    Text → Text → Text → Text → ℕ → Report → Disk → Reply OrderResult × Disk
record_order_result network symbol now decision_id n r disk =
    if is_report r
    then edit network symbol now
        (λ doc. elim (find (has_decision_id decision_id) doc.decisions) [
          | none ↦ fault Fault.store_error
          | some d ↦ set_result n r doc d
        ])
        disk
    else (fault Fault.value_error, disk)

abbrev pub new_document : Text → Text → Text → Fields → Text → Text → Document
new_document network symbol run_id metadata started_at now = record {
  network = network;
  symbol = symbol;
  run_id = run_id;
  started_at = started_at;
  metadata = metadata;
  decisions = [];
  counters = empty_counters;
  updated_at = now;
}

abbrev pub bound : Text → Fields → Document → Disk → Reply (Option Document) → Reply Document × Disk
bound run_id metadata doc disk (fault f) = (fault f, disk)
bound run_id metadata doc disk (done (some existing)) =
    if text_eq existing.run_id run_id && json_eq (Json.obj existing.metadata) (Json.obj metadata)
    then (done existing, disk)
    else (fault Fault.conflict, disk)
bound run_id metadata doc disk (done none) = save doc doc disk

-- `initialize`
unfoldable pub initialize :
    Text → Text → Text → Text → Fields → Option Text → Disk → Reply Document × Disk
initialize network symbol now run_id metadata started_at disk =
    if is_identity network symbol && is_identifier run_id && safe_fields metadata
    then bound run_id metadata
        (new_document network symbol run_id metadata (or_now started_at now) now) disk
        (load network symbol disk)
    else (fault Fault.value_error, disk)

abbrev pub is_settled : Decision → Bool
is_settled d = is_resolved d.status && all (λ o. is_terminal_result (status_of o.result)) d.orders

abbrev pub file_of : Text → Text → Document → File
file_of network symbol doc = record { network = network; symbol = symbol; document = doc }

abbrev pub moved : Text → Text → Disk → Reply (Option Document) → Reply (Option File) × Disk
moved network symbol disk (fault f) = (fault f, disk)
moved network symbol disk (done none) = (done none, disk)
moved network symbol disk (done (some doc)) =
    if all is_settled doc.decisions
    then (
      done (some (file_of network symbol doc)),
      record {
        files = select (λ f. not (at_path network symbol f)) disk.files;
        archived = disk.archived ++ file_of network symbol doc ∷ [];
      },
    )
    else (fault Fault.conflict, disk)

-- `archive`
unfoldable pub archive : Text → Text → Disk → Reply (Option File) × Disk
archive network symbol disk = moved network symbol disk (load network symbol disk)

abbrev pub committed_of : Reply (Option Document) → Reply (List Decision)
committed_of (fault f) = fault f
committed_of (done none) = done []
committed_of (done (some doc)) = done (select (λ d. is_committed d.status) doc.decisions)

-- `committed_decisions`
unfoldable pub committed_decisions : Text → Text → Disk → Reply (List Decision)
committed_decisions network symbol disk = committed_of (load network symbol disk)

abbrev pub resolved_of : Reply (Option Document) → Reply (Option Document)
resolved_of (fault f) = fault f
resolved_of (done none) = done none
resolved_of (done (some doc)) =
    if all (λ d. is_resolved d.status) doc.decisions
    then done (some doc)
    else fault Fault.store_error

-- `require_resolved`
unfoldable pub require_resolved : Text → Text → Disk → Reply (Option Document)
require_resolved network symbol disk = resolved_of (load network symbol disk)
