-- ===== src/Ledger/Invariant/History.antt =====
-- Every history of calls keeps the invariant.
use candle_mind.Base.{[], ◌∷◌, refl}
use candle_mind.Base.Table.{find}
use candle_mind.Ledger.Contracts.{JobState, Result, ok, err}
use candle_mind.Ledger.Rows.{Ledger, Env, empty, job_at, event_of, event_at}
use candle_mind.Ledger.Enqueue.{enqueue_market_job}
use candle_mind.Ledger.Lease.{retry_job, fail_job}
use candle_mind.Ledger.Calls.{Call, Reply, reply_with, perform, run}
use candle_mind.Ledger.Invariant.{none, ◌≡◌, find, List, some, IsValid}
use candle_mind.Ledger.Invariant.Enqueue.{
  enqueue_job-IsValid, enqueue_inbox_message-IsValid, supersede_job-IsValid,
}
use candle_mind.Ledger.Invariant.Leases.{
  recover_expired_leases-IsValid, claim_next-IsValid, renew_lease-IsValid,
  release_running_job-IsValid,
}
use candle_mind.Ledger.Invariant.Complete.{complete_job-IsValid}
use candle_mind.Ledger.Invariant.Mark.{mark_event_published-IsValid}

reply_with-state : {A : Type 0} (f : A → Reply) (r : Result A × Ledger) → (reply_with f r).1 ≡ r.1
reply_with-state f (ok a, s) = refl
reply_with-state f (err e, s) = refl

reply_with-IsValid :
    {A : Type 0} (f : A → Reply) (r : Result A × Ledger) → IsValid r.1 → IsValid (reply_with f r).1
reply_with-IsValid f r v = rw (reply_with-state f r) v

pub perform-IsValid : (env : Env) (c : Call) (s : Ledger) → IsValid s → IsValid (perform env c s).1
unfolding perform enqueue_market_job retry_job fail_job
perform-IsValid env
      (Call.enqueue_market network symbol key payload reasons priority available i now) s v =
    reply_with-IsValid _ _
      (enqueue_job-IsValid env network symbol _ key payload reasons priority available i now s v)
perform-IsValid env
      (Call.enqueue_inbox network symbol message content payload priority available i now) s v =
    reply_with-IsValid _ _ (
      enqueue_inbox_message-IsValid env network symbol message content payload priority available i
        now s v)
perform-IsValid env (Call.recover now) s v =
    reply_with-IsValid _ _ (recover_expired_leases-IsValid env now s v)
perform-IsValid env (Call.claim worker lease lanes network symbol now) s v =
    reply_with-IsValid _ _ (claim_next-IsValid env worker lease lanes network symbol now s v)
perform-IsValid env (Call.renew i worker lease now) s v =
    reply_with-IsValid _ _ (renew_lease-IsValid env i worker lease now s v)
perform-IsValid env (Call.retry i worker available code now) s v = reply_with-IsValid _ _ (
    release_running_job-IsValid env i worker JobState.retry_wait (some available) code now s refl
      refl v)
perform-IsValid env (Call.fail i worker code now) s v =
    reply_with-IsValid _ _
      (release_running_job-IsValid env i worker JobState.failed none code now s refl refl v)
perform-IsValid env (Call.supersede i reason now) s v =
    reply_with-IsValid _ _ (supersede_job-IsValid env i reason now s v)
perform-IsValid env (Call.complete i worker result kind role content structured reasons now) s v =
    reply_with-IsValid _ _
      (complete_job-IsValid env i worker result kind role content structured reasons now s v)
perform-IsValid env (Call.publish n now) s v =
    reply_with-IsValid _ _ (mark_event_published-IsValid env n now s v)

pub empty-IsValid : IsValid empty
unfolding job_at event_of event_at find
empty-IsValid = record {
  distinct = tt;
  leased = λ i. refl;
  links = λ i. refl;
  by_sequence = λ n e h. cc;
  by_job = λ i e h. cc;
  fresh = λ n e h. absurd (cc);
}

-- Whatever is called, in whatever order and with whatever arguments, from a ledger that meets the
-- invariant: job ids stay distinct, a job holds a lease exactly while it runs, a job has an event
-- exactly when it has completed, that event waits exactly until the job is published, and a
-- sequence number and a job id name the same event.
pub run-IsValid : (calls : List (Env × Call)) (s : Ledger) → IsValid s → IsValid (run calls s)
unfolding run
run-IsValid [] s v = v
run-IsValid ((env, c) ∷ rest) s v = run-IsValid rest (perform env c s).1 (perform-IsValid env c s v)
