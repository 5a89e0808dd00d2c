-- ===== src/Ledger/Lease.antt =====
-- market_agent_queue_store.py: workers claim jobs, keep their leases, and give them back.
use candle_mind.Base.{
  ℕ, suc, ◌+◌, Bool, true, false, ◌&&◌, ◌||◌, not, Option, none, some, List, [], ◌∷◌, any, length,
  leb, ltb, ◌==◌, get_or, if◌then◌else◌,
}
use candle_mind.Base.Text.{Text, codes, text_eq, text_ltb}
use candle_mind.Base.Int.{ℤ, pos, ltb_ℤ}
use candle_mind.Base.Table.{select}
use candle_mind.Ledger.Contracts.{
  JobLane, JobState, Job, Error, Result, ok, err, same_lane, is_claimable, is_running,
  normalize_scope, bounded_text,
}
use candle_mind.Ledger.Rows.{
  Env, M, pure, lift, gets, ◌>>=◌, ◌>>◌, raise_if, write, transaction, has_id, job_at, set_jobs,
  fetch_job,
}
use candle_mind.Ledger.Enqueue.{now_or}

-- `lease_expires_at_ms <= now`; NULL meets no comparison.
abbrev pub expired : ℕ → Option ℕ → Bool
expired now none = false
expired now (some t) = leb t now

abbrev pub lease_lapsed : ℕ → Job → Bool
lease_lapsed now j = is_running j.state && expired now j.lease_expires_at_ms

-- SET state='retry_wait', … , error_code='lease_expired'
abbrev pub release_lapsed : ℕ → Job → Job
release_lapsed now j = record j {
  state = JobState.retry_wait;
  available_at_ms = now;
  lease_owner = none;
  lease_expires_at_ms = none;
  error_code = some (codes "lease_expired");
  updated_at_ms = now;
}

unfoldable pub expire_leases : ℕ → M (Unit {0})
expire_leases now = write (set_jobs (lease_lapsed now) (release_lapsed now))

-- `recover_expired_leases`, which returns the number of changed rows.
unfoldable pub recover_expired_leases : Env → Option ℕ → M ℕ
recover_expired_leases env now_ms =
    let now = now_or env now_ms in
    transaction do
      count ← gets (λ s. length (select (lease_lapsed now) s.jobs))
      expire_leases now
      pure count

-- ORDER BY priority DESC, available_at_ms, created_at_ms, id
unfoldable pub before : Job → Job → Bool
before j k =
    ltb_ℤ k.priority j.priority
    || (not (ltb_ℤ j.priority k.priority)
        && (ltb j.available_at_ms k.available_at_ms
            || (j.available_at_ms == k.available_at_ms
                && (ltb j.created_at_ms k.created_at_ms
                    || (j.created_at_ms == k.created_at_ms && text_ltb j.id k.id)))))

unfoldable pub better : Job → Option Job → Job
better j none = j
better j (some k) = if before k j then k else j

-- ORDER BY … LIMIT 1 among the rows that meet the test.
unfoldable pub best : (Job → Bool) → List Job → Option Job
unfolding better
best p [] = none
best p (j ∷ js) = let rest = best p js in if p j then some (better j rest) else rest

-- `lanes or tuple(JobLane)`
unfoldable pub lanes_or_all : Option (List JobLane) → List JobLane
lanes_or_all none = JobLane.market ∷ JobLane.inbox ∷ []
lanes_or_all (some []) = JobLane.market ∷ JobLane.inbox ∷ []
lanes_or_all (some (l ∷ ls)) = l ∷ ls

abbrev pub is_empty : List JobLane → Bool
is_empty [] = true
is_empty (_ ∷ _) = false

-- The optional scope of `claim_next` and `events`: both names or neither.
unfoldable pub optional_scope : Option Text → Option Text → Result (Option (Text × Text))
optional_scope none none = ok none
optional_scope (some network) (some symbol) = elim (normalize_scope network symbol) [
  | ok scope ↦ ok (some scope)
  | err e ↦ err e
]
optional_scope _ _ = err Error.value_error

abbrev pub in_scope : Option (Text × Text) → Text → Text → Bool
in_scope none network symbol = true
in_scope (some scope) network symbol = text_eq network scope.0 && text_eq symbol scope.1

unfoldable pub claimable : ℕ → List JobLane → Option (Text × Text) → Job → Bool
claimable now lanes scope j =
    is_claimable j.state
    && (leb j.available_at_ms now
        && (any (same_lane j.lane) lanes && in_scope scope j.network j.symbol))

-- `if int(lease_ms) <= 0: raise ValueError`
unfoldable pub positive_ms : ℤ → Result ℕ
positive_ms (pos (suc n)) = ok (suc n)
positive_ms _ = err Error.value_error

-- SET state='running',attempts=attempts+1,lease_owner=?,lease_expires_at_ms=?,error_code=NULL, …
abbrev pub start : Text → ℕ → ℕ → Job → Job
start owner expires now j = record j {
  state = JobState.running;
  attempts = j.attempts + 1;
  lease_owner = some owner;
  lease_expires_at_ms = some expires;
  error_code = none;
  updated_at_ms = now;
}

-- WHERE id=? AND state IN ('pending','retry_wait')
abbrev pub claimable_id : Text → Job → Bool
claimable_id i j = text_eq j.id i && is_claimable j.state

unfoldable pub claim_row : Text → ℕ → ℕ → Option Job → M (Option Job)
claim_row owner lease_ms now none = pure none
claim_row owner lease_ms now (some row) = do
  count ← gets (λ s. length (select (claimable_id row.id) s.jobs))
  write (set_jobs (claimable_id row.id) (start owner (now + lease_ms) now))
  raise_if (not (count == 1)) Error.ledger_error
  job ← fetch_job row.id
  pure (some job)

-- `claim_next`
unfoldable pub claim_next :
    Env → Text → ℤ → Option (List JobLane) → Option Text → Option Text → Option ℕ → M (Option Job)
claim_next env worker_id lease_ms lanes network symbol now_ms = do
  owner ← lift (bounded_text worker_id 128)
  duration ← lift (positive_ms lease_ms)
  raise_if (is_empty (lanes_or_all lanes)) Error.value_error
  scope ← lift (optional_scope network symbol)
  transaction do
    expire_leases (now_or env now_ms)
    row ← gets (λ s. best (claimable (now_or env now_ms) (lanes_or_all lanes) scope) s.jobs)
    claim_row owner duration (now_or env now_ms) row

abbrev pub owned_by : Text → Option Text → Bool
owned_by worker none = false
owned_by worker (some owner) = text_eq owner worker

-- `_require_running_lease`
unfoldable pub check_lease : Text → ℕ → Option Job → Result Job
check_lease worker now none = err Error.key_error
check_lease worker now (some row) =
    if not (is_running row.state) || not (owned_by worker row.lease_owner)
    then err Error.lease_error
    else if expired now row.lease_expires_at_ms
    then err Error.lease_error
    else ok row

unfoldable pub require_running_lease : Text → Text → ℕ → M Job
require_running_lease i worker now s = (check_lease worker now (job_at i s), s)

abbrev pub renew : ℕ → ℕ → Job → Job
renew expires now j = record j { lease_expires_at_ms = some expires; updated_at_ms = now }

-- `renew_lease`
unfoldable pub renew_lease : Env → Text → Text → ℤ → Option ℕ → M Job
renew_lease env job_id worker_id lease_ms now_ms = do
  identifier ← lift (bounded_text job_id 128)
  owner ← lift (bounded_text worker_id 128)
  duration ← lift (positive_ms lease_ms)
  transaction do
    require_running_lease identifier owner (now_or env now_ms)
    write (set_jobs (has_id identifier) (renew (now_or env now_ms + duration) (now_or env now_ms)))
    fetch_job identifier

abbrev pub release : JobState → ℕ → Text → ℕ → Option ℕ → Job → Job
release state available code now completed j = record j {
  state = state;
  available_at_ms = available;
  lease_owner = none;
  lease_expires_at_ms = none;
  error_code = some code;
  updated_at_ms = now;
  completed_at_ms = completed;
}

-- `completed = now if state is JobState.FAILED else None`
abbrev pub completion : JobState → ℕ → Option ℕ
completion JobState.failed now = some now
completion _ now = none

-- `_release_running_job`
unfoldable pub release_running_job :
    Env → Text → Text → JobState → Option ℕ → Text → Option ℕ → M Job
release_running_job env job_id worker_id state available_at_ms error_code now_ms = do
  identifier ← lift (bounded_text job_id 128)
  owner ← lift (bounded_text worker_id 128)
  code ← lift (bounded_text error_code 128)
  transaction do
    row ← require_running_lease identifier owner (now_or env now_ms)
    write (
        set_jobs (has_id identifier) (
          release state (get_or available_at_ms row.available_at_ms) code (now_or env now_ms)
            (completion state (now_or env now_ms))))
    fetch_job identifier

-- `retry_job` and `fail_job`
unfoldable pub retry_job : Env → Text → Text → ℕ → Text → Option ℕ → M Job
retry_job env job_id worker_id available_at_ms =
    release_running_job env job_id worker_id JobState.retry_wait (some available_at_ms)

unfoldable pub fail_job : Env → Text → Text → Text → Option ℕ → M Job
fail_job env job_id worker_id = release_running_job env job_id worker_id JobState.failed none
