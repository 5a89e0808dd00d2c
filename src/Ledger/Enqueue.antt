-- ===== src/Ledger/Enqueue.antt =====
-- market_agent_queue_store.py: jobs and inbox messages enter the ledger.
use candle_mind.Base.{
  ℕ, Bool, ◌&&◌, ◌||◌, not, Option, none, some, List, [], ◌∷◌, ◌++◌, any, length, ltb, get_or,
  is_some, if◌then◌else◌,
}
use candle_mind.Base.Text.{Text, codes, text_eq}
use candle_mind.Base.Int.{ℤ, max_ℤ}
use candle_mind.Base.Table.{find}
use candle_mind.Json.{dumps}
use candle_mind.Json.Value.{Json, Fields, set_field}
use candle_mind.Ledger.Contracts.{
  JobLane, JobState, Job, Error, Result, ok, err, same_lane, is_claimable, normalize_scope,
  bounded_text,
}
use candle_mind.Ledger.Rows.{
  Message, Ledger, Env, M, pure, lift, gets, ◌>>=◌, ◌>>◌, raise_if, write, transaction, has_id,
  job_at, set_jobs, fetch_job,
}

-- `_json_object(value, name=…)`; `value or {}` makes nothing of an absent object.
unfoldable pub json_object : Option Fields → Result Text
json_object value = elim (dumps (Json.obj (get_or value Fields.end))) [
  | none ↦ err Error.value_error
  | some t ↦ ok t
]

-- One round of the loop in `_reasons`.
add_reason : List Text → Text → List Text
add_reason result reason = if any (text_eq reason) result then result else result ++ reason ∷ []

collect_reasons : List Text → List Text → Result (List Text)
unfolding add_reason
collect_reasons result [] = ok result
collect_reasons result (item ∷ rest) = elim (bounded_text item 64) [
  | err e ↦ err e
  | ok reason ↦ collect_reasons (add_reason result reason) rest
]

-- `_reasons(value)`
unfoldable pub normalize_reasons : List Text → Result (List Text)
unfolding collect_reasons
normalize_reasons value = elim (collect_reasons [] value) [
  | err e ↦ err e
  | ok result ↦ if ltb 16 (length result) then err Error.value_error else ok result
]

-- `now_ms` and `available_at_ms` have defaults.
abbrev pub now_or : Env → Option ℕ → ℕ
now_or env now_ms = get_or now_ms env.clock

-- `job_id or str(uuid4())`: an empty text counts as absent.
unfoldable pub id_or_uuid : Env → Option Text → Text
id_or_uuid env none = env.uuid
id_or_uuid env (some i) = if text_eq i [] then env.uuid else i

abbrev pub has_key : Text → Text → Text → Job → Bool
has_key network symbol key j =
    text_eq j.network network && (text_eq j.symbol symbol && text_eq j.dedupe_key key)

-- SELECT * FROM jobs WHERE network=? AND symbol=? AND dedupe_key=?
unfoldable pub job_with_key : Text → Text → Text → Ledger → Option Job
job_with_key network symbol key s = find (has_key network symbol key) s.jobs

abbrev pub new_job : Text → Text → Text → JobLane → Text → Text → List Text → ℤ → ℕ → ℕ → Job
new_job i network symbol lane key payload reasons priority available now = record {
  id = i;
  network = network;
  symbol = symbol;
  lane = lane;
  dedupe_key = key;
  state = JobState.pending;
  priority = priority;
  payload_json = payload;
  reasons = reasons;
  result_json = none;
  attempts = 0;
  available_at_ms = available;
  lease_owner = none;
  lease_expires_at_ms = none;
  error_code = none;
  created_at_ms = now;
  updated_at_ms = now;
  completed_at_ms = none;
}

abbrev pub add_job : Job → Ledger → Ledger
add_job j s = record s { jobs = s.jobs ++ j ∷ [] }

-- INSERT INTO jobs: the primary key and UNIQUE(network, symbol, dedupe_key) may refuse the row.
unfoldable pub insert_row : Job → M (Unit {0})
insert_row j = do
  taken ←
      gets
        (λ s. is_some (job_at j.id s) || is_some (job_with_key j.network j.symbol j.dedupe_key s))
  raise_if taken Error.integrity_error
  write (add_job j)

-- `_insert_job`
unfoldable pub insert_job :
    Env → Text → Text → JobLane → Text → Text → List Text → ℤ → Option ℕ → Option Text → ℕ → M Job
insert_job env network symbol lane key payload reasons priority available_at_ms job_id now_ms = do
  identifier ← lift (bounded_text (id_or_uuid env job_id) 128)
  insert_row (
      new_job identifier network symbol lane key payload reasons priority
        (get_or available_at_ms now_ms) now_ms)
  fetch_job identifier

-- UPDATE jobs SET reasons_json=?,priority=?,updated_at_ms=? WHERE id=?
abbrev pub merge_into : List Text → ℤ → ℕ → Job → Job
merge_into reasons priority now j = record j {
  reasons = reasons;
  priority = priority;
  updated_at_ms = now;
}

unfoldable pub merge_existing : Job → List Text → ℤ → ℕ → M (Unit {0})
merge_existing existing reasons priority now =
    if not (is_claimable existing.state) then pure tt else do
      merged ← lift (normalize_reasons (existing.reasons ++ reasons))
      write
          (set_jobs (has_id existing.id) (merge_into merged (max_ℤ existing.priority priority) now))

-- The branch of `_enqueue_job` for a key that is already there.
unfoldable pub reuse_job : Job → JobLane → Text → List Text → ℤ → ℕ → M Job
reuse_job existing lane payload reasons priority now = do
  raise_if (not (same_lane existing.lane lane) || not (text_eq existing.payload_json payload))
      Error.conflict
  merge_existing existing reasons priority now
  fetch_job existing.id

-- The transaction of `_enqueue_job`, past its checks and its first SELECT.
unfoldable pub place_job :
    Env
    → Text
    → Text
    → JobLane
    → Text
    → Text
    → List Text
    → ℤ
    → Option ℕ
    → Option Text
    → ℕ
    → Option Job
    → M Job
place_job env network symbol lane key payload reasons priority available_at_ms job_id now
      (some existing) =
    reuse_job existing lane payload reasons priority now
place_job env network symbol lane key payload reasons priority available_at_ms job_id now none =
    insert_job env network symbol lane key payload reasons priority available_at_ms job_id now

-- `_enqueue_job`
unfoldable pub enqueue_job :
    Env
    → Text
    → Text
    → JobLane
    → Text
    → Option Fields
    → List Text
    → ℤ
    → Option ℕ
    → Option Text
    → Option ℕ
    → M Job
enqueue_job env network symbol lane dedupe_key payload reasons priority available_at_ms job_id
      now_ms =
    do
      scope ← lift (normalize_scope network symbol)
      key ← lift (bounded_text dedupe_key 256)
      encoded_payload ← lift (json_object payload)
      normalized_reasons ← lift (normalize_reasons reasons)
      transaction do
        found ← gets (job_with_key scope.0 scope.1 key)
        place_job env scope.0 scope.1 lane key encoded_payload normalized_reasons priority
            available_at_ms job_id (now_or env now_ms) found

-- `enqueue_market_job`
unfoldable pub enqueue_market_job :
    Env
    → Text
    → Text
    → Text
    → Option Fields
    → List Text
    → ℤ
    → Option ℕ
    → Option Text
    → Option ℕ
    → M Job
enqueue_market_job env network symbol = enqueue_job env network symbol JobLane.market

abbrev pub is_message : Text → Text → Text → Message → Bool
is_message network symbol message_id m =
    text_eq m.network network && (text_eq m.symbol symbol && text_eq m.client_message_id message_id)

-- INSERT INTO inbox_messages, whose unique columns and foreign key may refuse the row.
unfoldable pub insert_message : Message → M (Unit {0})
insert_message m = do
  refused ← gets (λ s.
      is_some (find (is_message m.network m.symbol m.client_message_id) s.inbox)
      || (is_some (find (λ (k : Message). text_eq k.job_id m.job_id) s.inbox)
          || not (is_some (job_at m.job_id s))))
  raise_if refused Error.integrity_error
  write (λ s. record s { inbox = s.inbox ++ m ∷ [] })

-- `SELECT j.*, i.content … FROM inbox_messages i JOIN jobs j ON j.id=i.job_id`
unfoldable pub message_with_job : Text → Text → Text → Ledger → Option (Message × Job)
message_with_job network symbol message_id s =
    elim (find (is_message network symbol message_id) s.inbox) [
      | none ↦ none
      | some m ↦ elim (job_at m.job_id s) [ none ↦ none | some j ↦ some (m, j) ]
    ]

-- The job, and then its message.
unfoldable pub store_message :
    Env → Text → Text → Text → Text → Text → ℤ → Option ℕ → Option Text → ℕ → M Job
store_message env network symbol message_id message payload priority available_at_ms job_id now = do
  job ←
      insert_job env network symbol JobLane.inbox (codes "inbox:" ++ message_id) payload [] priority
        available_at_ms job_id now
  insert_message (record {
    network = network;
    symbol = symbol;
    client_message_id = message_id;
    content = message;
    job_id = job.id;
    created_at_ms = now;
  })
  pure job

-- The transaction of `enqueue_inbox_message`, past its checks and its first SELECT.
unfoldable pub place_message :
    Env
    → Text
    → Text
    → Text
    → Text
    → Text
    → ℤ
    → Option ℕ
    → Option Text
    → ℕ
    → Option (Message × Job)
    → M Job
place_message env network symbol message_id message payload priority available_at_ms job_id now
      (some (m, j)) =
    do
      raise_if (not (text_eq m.content message) || not (text_eq j.payload_json payload))
          Error.conflict
      pure j
place_message env network symbol message_id message payload priority available_at_ms job_id now
      none =
    store_message env network symbol message_id message payload priority available_at_ms job_id now

-- `enqueue_inbox_message`
unfoldable pub enqueue_inbox_message :
    Env → Text → Text → Text → Text → Option Fields → ℤ → Option ℕ → Option Text → Option ℕ → M Job
enqueue_inbox_message env network symbol client_message_id content payload priority available_at_ms
      job_id now_ms =
    do
      scope ← lift (normalize_scope network symbol)
      message_id ← lift (bounded_text client_message_id 128)
      message ← lift (bounded_text content 1000)
      encoded_payload ← lift (
          json_object (
            some (
              set_field (codes "content") (Json.str message) (
                set_field (codes "client_message_id") (Json.str message_id)
                  (get_or payload Fields.end)))))
      transaction do
        found ← gets (message_with_job scope.0 scope.1 message_id)
        place_message env scope.0 scope.1 message_id message encoded_payload priority
            available_at_ms job_id (now_or env now_ms) found
