-- ===== src/Ledger/Publish.antt =====
-- market_agent_queue_store.py: jobs end, and their events go out; and the reads of the ledger.
use candle_mind.Base.{
  ℕ, suc, ◌+◌, Bool, true, false, ◌&&◌, ◌||◌, not, Option, none, some, List, [], ◌∷◌, ◌++◌, leb,
  ltb, get_or, is_some, if◌then◌else◌,
}
use candle_mind.Base.Text.{Text, text_eq}
use candle_mind.Base.Table.{select}
use candle_mind.Json.Value.{Fields}
use candle_mind.Ledger.Contracts.{
  JobState, Job, Event, Error, Result, ok, err, is_claimable, bounded_text,
}
use candle_mind.Ledger.Rows.{
  Ledger, Env, M, pure, raise, lift, gets, ◌>>=◌, ◌>>◌, raise_if, write, transaction, has_id,
  has_sequence, job_at, event_of, event_at, set_jobs, set_events, fetch_job, fetch_event_of,
  fetch_event_at,
}
use candle_mind.Ledger.Enqueue.{now_or, json_object, normalize_reasons}
use candle_mind.Ledger.Lease.{require_running_lease, optional_scope, in_scope}

abbrev pub is_superseded : JobState → Bool
is_superseded JobState.superseded = true
is_superseded _ = false

abbrev pub supersede : Text → ℕ → Job → Job
supersede code now j = record j {
  state = JobState.superseded;
  error_code = some code;
  updated_at_ms = now;
  completed_at_ms = some now;
}

unfoldable pub supersede_row : Text → Text → ℕ → Option Job → M Job
supersede_row identifier code now none = raise Error.key_error
supersede_row identifier code now (some row) =
    if is_superseded row.state
    then pure row
    else if not (is_claimable row.state)
    then raise Error.conflict
    else do write (set_jobs (has_id identifier) (supersede code now)); fetch_job identifier

-- `supersede_job`
unfoldable pub supersede_job : Env → Text → Text → Option ℕ → M Job
supersede_job env job_id reason now_ms = do
  identifier ← lift (bounded_text job_id 128)
  code ← lift (bounded_text reason 128)
  transaction
      do row ← gets (job_at identifier); supersede_row identifier code (now_or env now_ms) row

abbrev pub complete : Text → ℕ → Job → Job
complete result now j = record j {
  state = JobState.completed;
  result_json = some result;
  lease_owner = none;
  lease_expires_at_ms = none;
  error_code = none;
  updated_at_ms = now;
  completed_at_ms = some now;
}

-- What `complete_job` has made of its arguments before the transaction.
pub record Completion : Type 0 where
  pub event_type : Text
  pub role : Text
  pub content : Text
  pub result : Text
  pub structured : Text

abbrev pub new_event : ℕ → Job → Completion → List Text → ℕ → Event
new_event sequence j c reasons now = record {
  sequence = sequence;
  job_id = j.id;
  network = j.network;
  symbol = j.symbol;
  event_type = c.event_type;
  role = c.role;
  content = c.content;
  structured_json = c.structured;
  reasons = reasons;
  created_at_ms = now;
  published_at_ms = none;
}

abbrev pub add_event : Job → Completion → List Text → ℕ → Ledger → Ledger
add_event j c reasons now s = record s {
  outbox = s.outbox ++ new_event s.next_sequence j c reasons now ∷ [];
  next_sequence = s.next_sequence + 1;
}

-- INSERT INTO outbox_events: UNIQUE(job_id) and the foreign key may refuse the row.
unfoldable pub insert_event : Job → Completion → List Text → ℕ → M (Unit {0})
insert_event j c reasons now = do
  refused ← gets (λ s. is_some (event_of j.id s) || not (is_some (job_at j.id s)))
  raise_if refused Error.integrity_error
  write (add_event j c reasons now)

-- The part of `complete_job` for a job that has no event.
unfoldable pub complete_row : Text → Text → Completion → Option (List Text) → ℕ → M Event
complete_row identifier owner c reasons now = do
  job ← require_running_lease identifier owner now
  event_reasons ← lift (normalize_reasons (get_or reasons job.reasons))
  write (set_jobs (has_id identifier) (complete c.result now))
  insert_event job c event_reasons now
  fetch_event_of identifier

-- The transaction of `complete_job`, past its first SELECT: a job that has an event is left alone.
unfoldable pub answer_completion :
    Text → Text → Completion → Option (List Text) → ℕ → Option Event → M Event
answer_completion identifier owner c reasons now (some event) = pure event
answer_completion identifier owner c reasons now none = complete_row identifier owner c reasons now

unfoldable pub complete_in : Text → Text → Completion → Option (List Text) → ℕ → M Event
complete_in identifier owner c reasons now = do
  existing ← gets (event_of identifier)
  answer_completion identifier owner c reasons now existing

-- `complete_job`
unfoldable pub complete_job :
    Env
    → Text
    → Text
    → Option Fields
    → Text
    → Text
    → Text
    → Option Fields
    → Option (List Text)
    → Option ℕ
    → M Event
complete_job env job_id worker_id result event_type role content structured reasons now_ms = do
  identifier ← lift (bounded_text job_id 128)
  owner ← lift (bounded_text worker_id 128)
  normalized_event_type ← lift (bounded_text event_type 64)
  normalized_role ← lift (bounded_text role 32)
  normalized_content ← lift (bounded_text content 8000)
  result_json ← lift (json_object result)
  structured_json ← lift (json_object structured)
  transaction (
      complete_in identifier owner
        (record {
          event_type = normalized_event_type;
          role = normalized_role;
          content = normalized_content;
          result = result_json;
          structured = structured_json;
        })
        reasons (now_or env now_ms))

abbrev pub publish_event : ℕ → Event → Event
publish_event published e = record e { published_at_ms = some published }

abbrev pub publish_job : ℕ → Job → Job
publish_job published j = record j { state = JobState.published; updated_at_ms = published }

abbrev pub has_outcome : JobState → Bool
has_outcome JobState.completed = true
has_outcome JobState.published = true
has_outcome _ = false

-- WHERE id=? AND state IN ('completed','published')
abbrev pub finished_id : Text → Job → Bool
finished_id i j = text_eq j.id i && has_outcome j.state

unfoldable pub publish_row : ℕ → ℕ → Option Event → M Event
publish_row sequence now none = raise Error.key_error
publish_row sequence now (some row) =
    let published = get_or row.published_at_ms now in
    do
      write (set_events (has_sequence sequence) (publish_event published))
      write (set_jobs (finished_id row.job_id) (publish_job published))
      fetch_event_at sequence

-- `mark_event_published`
unfoldable pub mark_event_published : Env → ℕ → Option ℕ → M Event
mark_event_published env sequence now_ms =
    transaction do row ← gets (event_at sequence); publish_row sequence (now_or env now_ms) row

-- `get_job`
pub get_job : Text → Ledger → Option Job
get_job = job_at

abbrev take_rows : ℕ → List Event → List Event
take_rows n [] = []
take_rows ℕ.zero (e ∷ es) = []
take_rows (suc n) (e ∷ es) = e ∷ take_rows n es

abbrev pub wanted : ℕ → Bool → Option (Text × Text) → Event → Bool
wanted after unpublished_only scope e =
    ltb after e.sequence
    && (not (unpublished_only && is_some e.published_at_ms) && in_scope scope e.network e.symbol)

-- `events`; ORDER BY sequence is the order of the table, whose key is the sequence.
unfoldable pub events : ℕ → ℕ → Bool → Option Text → Option Text → Ledger → Result (List Event)
events after_sequence limit unpublished_only network symbol s =
    if not (leb 1 limit && leb limit 1000)
    then err Error.value_error
    else elim (optional_scope network symbol) [
      | err e ↦ err e
      | ok scope ↦
          ok (take_rows limit (select (wanted after_sequence unpublished_only scope) s.outbox))
    ]
