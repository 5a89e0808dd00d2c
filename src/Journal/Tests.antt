-- ===== src/Journal/Tests.antt =====
-- A history of the journal, run, and the theorem at it.
use candle_mind.Journal.Archive.{archive-IsArchived, IsArchived}
use candle_mind.Journal.Moves.{edits-Moves, EditMoves}
use candle_mind.Json.Decimal.{is_positive_decimal, decimal_eq, decimal_of}
use candle_mind.Json.Equal.{json_eq}
use candle_mind.Ledger.Contracts.{is_network}
use candle_mind.Json.Value.{get_field, Json, Fields}
use candle_mind.Journal.Validate.{is_safe, is_identifier, is_identity, is_order}
use candle_mind.Base.Int.{pos}
use candle_mind.Journal.Validate.{
  has_all, check_quantities, validate_commit_ready, validate_decision, validate_decisions,
  validate_document,
}
use candle_mind.Base.Table.{update_where, find}
use candle_mind.Journal.Results.{
  archive, new_document, same_result, set_result, record_order_result, initialize,
}
use candle_mind.Journal.Filled.{after_calls-IsHonest, IsHonestDocument}
use candle_mind.Base.Text.{Text, lower, strip, upper, text_eq, codes}
use candle_mind.Journal.Operations.{
  candidate, same_content, add_order, advance_decision, add_decision, record_order_attempt,
  transition_decision, record_decision, NewDecision,
}
use candle_mind.Journal.Document.{
  Order, Document, Decision, derive_counters, ResultStatus, DecisionStatus, Report,
}
use candle_mind.Journal.Store.{set_decision, put, commit, save, load, edit, blank, Disk}
use candle_mind.Base.{ℕ, Option, refl, ◌≡◌, some, map, [], none, ◌∷◌, ◌++◌, All, List}
use candle_mind.Journal.Calls.{
  after_call, JournalCall, after_calls, Dated, initializes, decides, transitions, attempts_order,
  reports,
}

abbrev on_testnet : JournalCall → Dated
on_testnet c = record {
  network = codes "testnet";
  symbol = codes "BTCUSDT";
  now = codes "2026-01-01T00:00:00Z";
  call = c;
}

abbrev buy : NewDecision
buy = record {
  decision_id = codes "d1";
  action = codes "open ";
  details = Fields.end;
  expected_order_count = some (pos 1);
  pre_state = Json.null;
  proposed_state = Json.null;
  created_at = none;
}

abbrev fill : Report
fill = record {
  status = ResultStatus.filled;
  exchange_order_id = Json.int (pos 77);
  client_order_id = some (codes "c1");
  filled_quantity = Json.str (codes "1.50");
  error = none;
  details = Fields.end;
  updated_at = codes "2026-01-01T00:00:01Z";
}

abbrev started : List Dated
started =
    on_testnet (initializes (codes "run1") Fields.end none)
    ∷ on_testnet (decides buy)
    ∷ on_testnet (
        attempts_order (codes "d1") (pos 0)
          (Fields.field (codes "quantity") (Json.float (codes "1.5")) Fields.end) none)
    ∷ []

abbrev commits : Dated
commits = on_testnet (transitions (codes "d1") DecisionStatus.committed none none)

abbrev history : List Dated
history = started ++ on_testnet (reports (codes "d1") 0 fill) ∷ commits ∷ []

abbrev statuses : Disk → List DecisionStatus
statuses disk = elim disk.files [ [] ↦ [] | f ∷ _ ↦ map (λ d. d.status) f.document.decisions ]

committed_test : statuses (after_calls history blank) ≡ DecisionStatus.committed ∷ []
unfolding after_calls after_call initialize record_decision transition_decision record_order_attempt
    record_order_result edit load save commit put set_decision add_decision advance_decision
    add_order set_result find update_where validate_document validate_decisions validate_decision
    validate_commit_ready check_quantities has_all is_order is_identity is_network is_identifier
    is_safe json_eq text_eq upper strip lower get_field decimal_of decimal_eq is_positive_decimal
    derive_counters same_content same_result
committed_test = refl

-- A decision whose order is still open is not committed.
unfilled_test :
    statuses (after_calls (started ++ commits ∷ []) blank) ≡ DecisionStatus.executing ∷ []
unfolding after_calls after_call initialize record_decision transition_decision record_order_attempt
    record_order_result edit load save commit put set_decision add_decision advance_decision
    add_order set_result find update_where validate_document validate_decisions validate_decision
    validate_commit_ready check_quantities has_all is_order is_identity is_network is_identifier
    is_safe json_eq text_eq upper strip lower get_field decimal_of decimal_eq is_positive_decimal
    derive_counters same_content same_result
unfilled_test = refl

after_calls-IsHonest_example :
    All (λ f. IsHonestDocument f.document) (after_calls history blank).files
    × All (λ f. IsHonestDocument f.document) (after_calls history blank).archived
after_calls-IsHonest_example = after_calls-IsHonest history

-- A decision that is committed, in a document.
abbrev settled : Decision
settled = record (candidate buy 0 (codes "t")) { status = DecisionStatus.committed }

abbrev holds : Document
holds =
    record (new_document (codes "testnet") (codes "BTCUSDT") (codes "run1") Fields.end (codes "t")
      (codes "t")) { decisions = settled ∷ [] }

edits-Moves_example :
    ((new : Decision) → EditMoves holds (add_decision new holds))
    × ((status : DecisionStatus) (error : Option Text) (at : Text)
        → EditMoves holds (advance_decision status error at holds settled))
    × ((o : Order) (at : Text) → EditMoves holds (add_order o at holds settled))
    × ((n : ℕ) (r : Report) → EditMoves holds (set_result n r holds settled))
unfolding find text_eq
edits-Moves_example = edits-Moves holds settled refl

archive-IsArchived_example :
    IsArchived
      (codes "testnet")
      (codes "BTCUSDT")
      (after_calls history blank)
      (archive (codes "testnet") (codes "BTCUSDT") (after_calls history blank))
archive-IsArchived_example =
    archive-IsArchived (codes "testnet") (codes "BTCUSDT") (after_calls history blank)
