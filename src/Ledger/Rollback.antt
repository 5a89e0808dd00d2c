-- ===== src/Ledger/Rollback.antt =====
-- A call that raises has changed nothing.
use candle_mind.Base.Int.{ℤ}
use candle_mind.Json.Value.{Fields}
use candle_mind.Base.Text.{Text}
use candle_mind.Base.{false, List, refl, true, none, ℕ, subst, some, Option, ◌≡◌, Bool}
use candle_mind.Ledger.Contracts.{JobLane, JobState, Error, Result, ok, err}
use candle_mind.Ledger.Rows.{Ledger, Env, M, lift, raise_if, ◌>>=◌, transaction}
use candle_mind.Ledger.Enqueue.{enqueue_job, enqueue_market_job, enqueue_inbox_message}
use candle_mind.Ledger.Lease.{
  recover_expired_leases, claim_next, renew_lease, release_running_job, retry_job, fail_job,
}
use candle_mind.Ledger.Publish.{supersede_job, complete_job, mark_event_published}
use candle_mind.Ledger.Calls.{Call, Reply, reply_with, perform}

-- The outcome of a call on `s`: it returned, or the ledger is still `s`.
abbrev Rolls : {A : Type 0} → Ledger → Result A × Ledger → Type 0
Rolls s (ok a, s') = Unit
Rolls s (err e, s') = s' ≡ s

module _ {A B : Type 0} where
  Rolls-lift :
      (r : Result A) (k : A → M B) (s : Ledger)
      → ((a : A) → Rolls s (k a s))
      → Rolls s ((lift r >>= k) s)
  unfolding ◌>>=◌
  Rolls-lift (ok a) k s f = f a
  Rolls-lift (err e) k s f = refl

module _ {B : Type 0} where
  Rolls-raise_if :
      (b : Bool) (e : Error) (k : Unit {0} → M B) (s : Ledger)
      → Rolls s (k tt s)
      → Rolls s ((raise_if b e >>= k) s)
  unfolding ◌>>=◌
  Rolls-raise_if true e k s h = refl
  Rolls-raise_if false e k s h = h

  Rolls-transaction : (m : M B) (s : Ledger) → Rolls s (transaction m s)
  unfolding transaction
  Rolls-transaction m s = go (m s).0 (m s).1
    where
      go :
          (r : Result B) (s' : Ledger)
          → Rolls s (r, elim r as (λ _. Ledger) [ ok _ ↦ s' | err _ ↦ s ])
      go (ok a) s' = tt
      go (err e) s' = refl

Rolls-reply :
    {A : Type 0} (f : A → Reply) (s : Ledger) (r : Result A × Ledger)
    → Rolls s r
    → Rolls s (reply_with f r)
Rolls-reply f s (ok a, s') h = tt
Rolls-reply f s (err e, s') h = h

enqueue_job-Rolls :
    (env : Env) (network symbol : Text) (lane : JobLane) (key : Text) (payload : Option Fields)
    (reasons : List Text) (priority : ℤ) (available : Option ℕ) (i : Option Text) (now : Option ℕ)
    (s : Ledger)
    → Rolls s (enqueue_job env network symbol lane key payload reasons priority available i now s)
unfolding enqueue_job
enqueue_job-Rolls env network symbol lane key payload reasons priority available i now s =
    Rolls-lift _ _ s
      λ _. Rolls-lift _ _ s λ _. Rolls-lift _ _ s λ _. Rolls-lift _ _ s λ _. Rolls-transaction _ s

release_running_job-Rolls :
    (env : Env) (i worker : Text) (state : JobState) (available : Option ℕ) (code : Text)
    (now : Option ℕ) (s : Ledger)
    → Rolls s (release_running_job env i worker state available code now s)
unfolding release_running_job
release_running_job-Rolls env i worker state available code now s =
    Rolls-lift _ _ s λ _. Rolls-lift _ _ s λ _. Rolls-lift _ _ s λ _. Rolls-transaction _ s

perform-Rolls : (env : Env) (c : Call) (s : Ledger) → Rolls s (perform env c s)
unfolding perform enqueue_market_job enqueue_inbox_message recover_expired_leases claim_next
    renew_lease retry_job fail_job supersede_job complete_job mark_event_published
perform-Rolls env (Call.enqueue_market network symbol key payload reasons priority available i now)
      s =
    Rolls-reply _ s _
      (enqueue_job-Rolls env network symbol _ key payload reasons priority available i now s)
perform-Rolls env
      (Call.enqueue_inbox network symbol message content payload priority available i now) s =
    Rolls-reply _ s _ (
      Rolls-lift _ _ s λ _.
        Rolls-lift _ _ s λ _. Rolls-lift _ _ s λ _. Rolls-lift _ _ s λ _. Rolls-transaction _ s)
perform-Rolls env (Call.recover now) s = Rolls-reply _ s _ (Rolls-transaction _ s)
perform-Rolls env (Call.claim worker lease lanes network symbol now) s = Rolls-reply _ s _ (
    Rolls-lift _ _ s λ _.
      Rolls-lift _ _ s λ _. Rolls-raise_if _ _ _ s (Rolls-lift _ _ s λ _. Rolls-transaction _ s))
perform-Rolls env (Call.renew i worker lease now) s =
    Rolls-reply _ s _
      (Rolls-lift _ _ s λ _. Rolls-lift _ _ s λ _. Rolls-lift _ _ s λ _. Rolls-transaction _ s)
perform-Rolls env (Call.retry i worker available code now) s =
    Rolls-reply _ s _
      (release_running_job-Rolls env i worker JobState.retry_wait (some available) code now s)
perform-Rolls env (Call.fail i worker code now) s =
    Rolls-reply _ s _ (release_running_job-Rolls env i worker JobState.failed none code now s)
perform-Rolls env (Call.supersede i reason now) s =
    Rolls-reply _ s _ (Rolls-lift _ _ s λ _. Rolls-lift _ _ s λ _. Rolls-transaction _ s)
perform-Rolls env (Call.complete i worker result kind role content structured reasons now) s =
    Rolls-reply _ s _ (
      Rolls-lift _ _ s λ _. Rolls-lift _ _ s λ _. Rolls-lift _ _ s λ _. Rolls-lift _ _ s λ _.
        Rolls-lift _ _ s λ _. Rolls-lift _ _ s λ _. Rolls-lift _ _ s λ _. Rolls-transaction _ s)
perform-Rolls env (Call.publish n now) s = Rolls-reply _ s _ (Rolls-transaction _ s)

-- A call that raises leaves the ledger as it was, whatever its transaction had already written.
pub perform_rolls_back :
    (env : Env) (c : Call) (s s' : Ledger) (e : Error) → perform env c s ≡ (err e, s') → s' ≡ s
perform_rolls_back env c s s' e h = subst (Rolls s) h (perform-Rolls env c s)
