-- ===== src/Ledger/Calls.antt =====
-- The public methods of `MarketAgentQueueStore` that write, as one type of calls, and a history of
-- calls. Each call comes with what it reads from the clock and from `uuid4`.
use candle_mind.Base.Int.{ℤ}
use candle_mind.Base.Text.{Text}
use candle_mind.Base.{[], ◌∷◌, ℕ, List, Option}
use candle_mind.Json.Value.{Fields}
use candle_mind.Ledger.Contracts.{JobLane, Job, Event, Result, ok, err}
use candle_mind.Ledger.Rows.{Ledger, Env, M}
use candle_mind.Ledger.Enqueue.{enqueue_market_job, enqueue_inbox_message}
use candle_mind.Ledger.Lease.{recover_expired_leases, claim_next, renew_lease, retry_job, fail_job}
use candle_mind.Ledger.Publish.{supersede_job, complete_job, mark_event_published}

pub data Call : Type 0 where
  enqueue_market :
      Text → Text → Text → Option Fields → List Text → ℤ → Option ℕ → Option Text → Option ℕ → Call
  enqueue_inbox :
      Text → Text → Text → Text → Option Fields → ℤ → Option ℕ → Option Text → Option ℕ → Call
  recover : Option ℕ → Call
  claim : Text → ℤ → Option (List JobLane) → Option Text → Option Text → Option ℕ → Call
  renew : Text → Text → ℤ → Option ℕ → Call
  retry : Text → Text → ℕ → Text → Option ℕ → Call
  fail : Text → Text → Text → Option ℕ → Call
  supersede : Text → Text → Option ℕ → Call
  complete :
      Text
      → Text
      → Option Fields
      → Text
      → Text
      → Text
      → Option Fields
      → Option (List Text)
      → Option ℕ
      → Call
  publish : ℕ → Option ℕ → Call

-- What a call returns.
pub data Reply : Type 0 where
  job : Job → Reply
  maybe_job : Option Job → Reply
  event : Event → Reply
  count : ℕ → Reply

abbrev pub reply_with : {A : Type 0} → (A → Reply) → Result A × Ledger → Result Reply × Ledger
reply_with f (ok a, s) = (ok (f a), s)
reply_with f (err e, s) = (err e, s)

unfoldable pub perform : Env → Call → M Reply
perform env (Call.enqueue_market network symbol key payload reasons priority available i now) s =
    reply_with Reply.job
      (enqueue_market_job env network symbol key payload reasons priority available i now s)
perform env (Call.enqueue_inbox network symbol message content payload priority available i now) s =
    reply_with Reply.job
      (enqueue_inbox_message env network symbol message content payload priority available i now s)
perform env (Call.recover now) s = reply_with Reply.count (recover_expired_leases env now s)
perform env (Call.claim worker lease lanes network symbol now) s =
    reply_with Reply.maybe_job (claim_next env worker lease lanes network symbol now s)
perform env (Call.renew i worker lease now) s =
    reply_with Reply.job (renew_lease env i worker lease now s)
perform env (Call.retry i worker available code now) s =
    reply_with Reply.job (retry_job env i worker available code now s)
perform env (Call.fail i worker code now) s =
    reply_with Reply.job (fail_job env i worker code now s)
perform env (Call.supersede i reason now) s =
    reply_with Reply.job (supersede_job env i reason now s)
perform env (Call.complete i worker result kind role content structured reasons now) s =
    reply_with Reply.event
      (complete_job env i worker result kind role content structured reasons now s)
perform env (Call.publish n now) s = reply_with Reply.event (mark_event_published env n now s)

-- A history: each caller takes what its call returns or raises, and the ledger goes on.
unfoldable pub run : List (Env × Call) → Ledger → Ledger
run [] s = s
run ((env, c) ∷ rest) s = run rest (perform env c s).1
