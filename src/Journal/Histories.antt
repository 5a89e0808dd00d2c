-- ===== src/Journal/Histories.antt =====
-- execution_store.py: the files that each call leaves.
use candle_mind.Journal.Saved.{
  save-Saved, load-Saved, IsSaved, kept, select-Saved, edit-Saved, Leaves, AllSaved,
}
use candle_mind.Json.Equal.{json_eq}
use candle_mind.Journal.Calls.{
  after_calls, JournalCall, initializes, decides, transitions, attempts_order, reports, archives,
}
use candle_mind.Base.Int.{pos, negsuc, ℤ}
use candle_mind.Json.Value.{Json, Fields}
use candle_mind.Journal.Calls.{
  reports, attempts_order, transitions, decides, initializes, Dated, after_call,
}
use candle_mind.Journal.Results.{
  new_document, is_settled, file_of, is_report, archive, bound, moved, initialize,
  record_order_result,
}
use candle_mind.Journal.Operations.{
  or_now, with_expected, candidate, add_decision, is_new_decision, expected_of, transition_decision,
  NewDecision, record_decision, record_order_attempt,
}
use candle_mind.Base.Text.{text_eq}
use candle_mind.Base.{◌&&◌, ◌++◌, not, all, ℕ}
use candle_mind.Base.Text.{Text}
use candle_mind.Base.{refl, some, All-append, [], split_if, ◌∷◌, none, ◌≡◌, List, Option}
use candle_mind.Journal.Validate.{is_identifier, safe_fields, is_identity, validate_document}
use candle_mind.Journal.Store.{load, at_path, save, Disk}
use candle_mind.Base.Table.{select}
use candle_mind.Journal.Document.{Report, Fault, Document, Reply, done, fault}

bound-Saved :
    (run_id : Text) (metadata : Fields) (doc : Document) (disk : Disk) (r : Reply (Option Document))
    → AllSaved disk
    → Leaves (bound run_id metadata doc disk r)
unfolding save
bound-Saved run_id metadata doc disk (fault f) h = kept _ disk h
bound-Saved run_id metadata doc disk (done (some existing)) h =
    split_if Leaves
      (text_eq existing.run_id run_id && json_eq (Json.obj existing.metadata) (Json.obj metadata))
      {x = (done existing, disk)} {y = (fault Fault.conflict, disk)}
      (λ _. kept (done existing) disk h) (λ _. kept (fault Fault.conflict) disk h)
bound-Saved run_id metadata doc disk (done none) h = save-Saved doc doc disk _ refl h

archived-Saved :
    (network symbol : Text) (doc : Document) (disk : Disk)
    → validate_document network symbol doc ≡ none
    → AllSaved disk
    → Leaves (
      done (some (file_of network symbol doc)),
      record {
        files = select (λ f. not (at_path network symbol f)) disk.files;
        archived = disk.archived ++ file_of network symbol doc ∷ [];
      },
    )
unfolding AllSaved Leaves
archived-Saved network symbol doc disk valid h = (
  select-Saved _ disk.files h.0,
  All-append IsSaved disk.archived (file_of network symbol doc ∷ []) h.1 (valid, tt),
)

moved_file-Saved :
    (network symbol : Text) (disk : Disk) (r : Reply (Option Document))
    → load network symbol disk ≡ r
    → AllSaved disk
    → Leaves (moved network symbol disk r)
moved_file-Saved network symbol disk (fault f) e h = kept _ disk h
moved_file-Saved network symbol disk (done none) e h = kept _ disk h
moved_file-Saved network symbol disk (done (some doc)) e h =
    split_if Leaves (all is_settled doc.decisions)
      (λ _. archived-Saved network symbol doc disk (load-Saved network symbol disk doc e) h)
      (λ _. kept _ disk h)

with_expected-Saved :
    (network symbol now : Text) (a : NewDecision) (disk : Disk) (o : Option ℕ)
    → AllSaved disk
    → Leaves (with_expected network symbol now a disk o)
with_expected-Saved network symbol now a disk none h = kept _ disk h
with_expected-Saved network symbol now a disk (some n) h =
    split_if Leaves (is_new_decision a)
      (λ _. edit-Saved network symbol now (add_decision (candidate a n now)) disk h)
      (λ _. kept _ disk h)

record_order_attempt-Saved :
    (network symbol now id : Text) (n : ℤ) (request : Fields) (at : Option Text) (disk : Disk)
    → AllSaved disk
    → Leaves (record_order_attempt network symbol now id n request at disk)
unfolding record_order_attempt
record_order_attempt-Saved network symbol now id (negsuc n) request at disk h = kept _ disk h
record_order_attempt-Saved network symbol now id (pos n) request at disk h =
    split_if Leaves (safe_fields request) (λ _. edit-Saved network symbol now _ disk h)
      (λ _. kept _ disk h)

record_order_result-Saved :
    (network symbol now id : Text) (n : ℕ) (r : Report) (disk : Disk)
    → AllSaved disk
    → Leaves (record_order_result network symbol now id n r disk)
unfolding record_order_result
record_order_result-Saved network symbol now id n r disk h =
    split_if Leaves (is_report r) (λ _. edit-Saved network symbol now _ disk h) (λ _. kept _ disk h)

initialize-Saved :
    (network symbol now run_id : Text) (metadata : Fields) (at : Option Text) (disk : Disk)
    → AllSaved disk
    → Leaves (initialize network symbol now run_id metadata at disk)
unfolding initialize
initialize-Saved network symbol now run_id metadata at disk h =
    let doc = new_document network symbol run_id metadata (or_now at now) now in
    split_if Leaves (is_identity network symbol && is_identifier run_id && safe_fields metadata)
      {x = bound run_id metadata doc disk (load network symbol disk)}
      {y = (fault Fault.value_error, disk)}
      (λ _. bound-Saved run_id metadata doc disk (load network symbol disk) h)
      (λ _. kept (fault Fault.value_error) disk h)

call-Saved :
    (network symbol now : Text) (c : JournalCall) (disk : Disk)
    → AllSaved disk
    → AllSaved
        (after_call (record { network = network; symbol = symbol; now = now; call = c }) disk)
unfolding after_call Leaves transition_decision archive record_decision
call-Saved network symbol now (initializes run_id metadata at) disk h =
    initialize-Saved network symbol now run_id metadata at disk h
call-Saved network symbol now (decides new) disk h =
    with_expected-Saved network symbol now new disk (expected_of new) h
call-Saved network symbol now (transitions id status error at) disk h =
    edit-Saved network symbol now _ disk h
call-Saved network symbol now (attempts_order id n request at) disk h =
    record_order_attempt-Saved network symbol now id n request at disk h
call-Saved network symbol now (reports id n r) disk h =
    record_order_result-Saved network symbol now id n r disk h
call-Saved network symbol now archives disk h =
    moved_file-Saved network symbol disk (load network symbol disk) refl h

pub after_call-Saved : (a : Dated) (disk : Disk) → AllSaved disk → AllSaved (after_call a disk)
after_call-Saved a disk h = call-Saved a.network a.symbol a.now a.call disk h

pub after_calls-Saved :
    (l : List Dated) (disk : Disk) → AllSaved disk → AllSaved (after_calls l disk)
unfolding after_calls
after_calls-Saved [] disk h = h
after_calls-Saved (a ∷ l) disk h =
    after_calls-Saved l (after_call a disk) (after_call-Saved a disk h)
