-- ===== src/Ledger/Exclusive.antt =====
-- A lease that has not run out keeps its job from every other worker.
pub mod Kept
pub mod Leases
pub mod Enqueue
pub mod Publish
use candle_mind.Base.Int.{ℤ}
use candle_mind.Base.Text.{text_eq_iff, Text}
use candle_mind.Base.{
  get_or, ◌∷◌, [], subst, not, [], none, some, List, ◌+◌, Option, ap, sym, inl, inr, arith, refl,
  Bool-cases, ◌∙◌, Bool, false, some, true, ◌≡◌, ◌<◌, ◌≢◌, ℕ,
}
use candle_mind.Base.Table.{find-append, change}
use candle_mind.Json.Value.{Fields}
use candle_mind.Ledger.Contracts.{
  JobLane, JobState, Job, Event, Error, Result, ok, err, is_running, is_claimable, bounded_text,
}
use candle_mind.Ledger.Rows.{
  Ledger, Env, M, ◌>>=◌, has_id, has_sequence, job_at, event_at, set_jobs, set_events,
}
use candle_mind.Ledger.Enqueue.{
  now_or, add_job, insert_row, insert_job, merge_into, merge_existing, reuse_job, place_job,
  enqueue_job, enqueue_market_job, insert_message, store_message, place_message,
  enqueue_inbox_message,
}
use candle_mind.Ledger.Lease.{
  expired, lease_lapsed, release_lapsed, expire_leases, recover_expired_leases, claim_row,
  claim_next, claimable_id, start, owned_by, check_lease, require_running_lease, renew_lease,
  release_running_job, retry_job, fail_job,
}
use candle_mind.Ledger.Publish.{
  publish_event, is_superseded, supersede_row, supersede_job, complete, insert_event, complete_row,
  complete_in, answer_completion, complete_job, finished_id, publish_job, publish_row,
  mark_event_published,
}
use candle_mind.Ledger.Rows.{Message}
use candle_mind.Ledger.Enqueue.{has_key, job_with_key}
use candle_mind.Ledger.Invariant.{Distinct}
use candle_mind.Ledger.Invariant.Jobs.{same_row}
use candle_mind.Ledger.Invariant.Enqueue.{find-job_at}
use candle_mind.Ledger.Publish.{Completion, add_event}
use candle_mind.Ledger.Calls.{run}
use candle_mind.Ledger.Invariant.{IsValid}
use candle_mind.Ledger.Invariant.History.{perform-IsValid}
use candle_mind.Ledger.Keeps.{
  After-lift, After-gets, After-step, After-if, After-pure_then, After-assoc, After-raise_if,
  After-write, After-pure, After-raise, After-fetch_job, After-fetch_event_of, After-fetch_event_at,
  After-fetch_then, After-transaction,
}
use candle_mind.Ledger.Invariant.Jobs.{id-job_at, job_at-update}
use candle_mind.Ledger.Calls.{Call, Reply, reply_with, perform}
use candle_mind.Ledger.Exclusive.Kept.{Lease}
use candle_mind.Ledger.Exclusive.Kept.{Held}
use candle_mind.Ledger.Exclusive.Leases.{Held-recover, Held-claim, Held-renew, Held-release}
use candle_mind.Ledger.Exclusive.Enqueue.{Held-enqueue, Held-enqueue_inbox, Held-supersede}
use candle_mind.Ledger.Exclusive.Publish.{Held-complete, Held-publish}

-- A call that presents no lease of `owner`.
abbrev pub Stranger : Text → Call → Type 0
Stranger owner (Call.renew i worker lease now) = bounded_text worker 128 ≢ ok owner
Stranger owner (Call.retry i worker available code now) = bounded_text worker 128 ≢ ok owner
Stranger owner (Call.fail i worker code now) = bounded_text worker 128 ≢ ok owner
Stranger owner (Call.complete i worker result kind role content structured reasons now) =
    bounded_text worker 128 ≢ ok owner
Stranger owner _ = Unit

-- A call that looks for lapsed leases does so before `t`.
abbrev pub Before : ℕ → Env → Call → Type 0
Before t env (Call.recover now) = now_or env now < t
Before t env (Call.claim worker lease lanes network symbol now) = now_or env now < t
Before t env _ = Unit

module _ (l : Lease) where
  open l use {i, owner, t, j, running, owned, until}

  Held-reply :
      {A : Type 0} (f : A → Reply) (r : Result A × Ledger) → Held l r.1 → Held l (reply_with f r).1
  Held-reply f (ok a, s) h = h
  Held-reply f (err e, s) h = h

  Held-perform :
      (env : Env) (c : Call) (s : Ledger)
      → Distinct s.jobs
      → Stranger owner c
      → Before t env c
      → Held l s
      → Held l (perform env c s).1
  unfolding perform enqueue_market_job retry_job fail_job
  Held-perform env (Call.enqueue_market network symbol key payload reasons priority available k now)
        s d q b h =
      Held-reply _ _
        (Held-enqueue l env network symbol _ key payload reasons priority available k now s d h)
  Held-perform env
        (Call.enqueue_inbox network symbol message content payload priority available k now) s d q b
        h =
      Held-reply _ _ (
        Held-enqueue_inbox l env network symbol message content payload priority available k now s
          h)
  Held-perform env (Call.recover now) s d q b h = Held-reply _ _ (Held-recover l env now s b h)
  Held-perform env (Call.claim worker lease lanes network symbol now) s d q b h =
      Held-reply _ _ (Held-claim l env worker lease lanes network symbol now s b h)
  Held-perform env (Call.renew k worker lease now) s d q b h =
      Held-reply _ _ (Held-renew l env k worker lease now s q h)
  Held-perform env (Call.retry k worker available code now) s d q b h =
      Held-reply _ _
        (Held-release l env k worker JobState.retry_wait (some available) code now s q h)
  Held-perform env (Call.fail k worker code now) s d q b h =
      Held-reply _ _ (Held-release l env k worker JobState.failed none code now s q h)
  Held-perform env (Call.supersede k reason now) s d q b h =
      Held-reply _ _ (Held-supersede l env k reason now s h)
  Held-perform env (Call.complete k worker result kind role content structured reasons now) s d q b
        h =
      Held-reply _ _
        (Held-complete l env k worker result kind role content structured reasons now s q h)
  Held-perform env (Call.publish n now) s d q b h = Held-reply _ _ (Held-publish l env n now s h)

-- The calls of a history in which nobody presents the lease of `owner`, and whatever looks for
-- lapsed leases does so before `t`.
abbrev pub OnlyOthers : Text → ℕ → List (Env × Call) → Type 0
OnlyOthers owner t [] = Unit
OnlyOthers owner t ((env, c) ∷ rest) = Stranger owner c × Before t env c × OnlyOthers owner t rest

-- While a running job's lease has not run out, its row stays exactly as it is through any history of
-- calls in which no call presents that worker's name: it is not claimed again, recovered, renewed,
-- released, superseded, completed, published or merged into by anyone else.
pub lease_exclusive :
    (i owner : Text) (t : ℕ) (j : Job) (calls : List (Env × Call)) (s : Ledger)
    → IsValid s
    → job_at i s ≡ some j
    → is_running j.state ≡ true
    → j.lease_owner ≡ some owner
    → j.lease_expires_at_ms ≡ some t
    → OnlyOthers owner t calls
    → job_at i (run calls s) ≡ some j
unfolding run
lease_exclusive i owner t j [] s v h r o u others = h
lease_exclusive i owner t j ((env, c) ∷ rest) s v h r o u others =
    lease_exclusive i owner t j rest (perform env c s).1 (perform-IsValid env c s v)
      (Held-perform
        (record { i = i; owner = owner; t = t; j = j; running = r; owned = o; until = u }) env c s
        v.distinct others.0 others.1 h)
      r o u others.2
