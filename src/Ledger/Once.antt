-- ===== src/Ledger/Once.antt =====
-- `complete_job`: a job is completed once.
use candle_mind.Base.{sym, subst, ◌∙◌, some, none, ◌≡◌, ℕ, List, Option, refl}
use candle_mind.Base.Text.{Text}
use candle_mind.Json.Value.{Fields}
use candle_mind.Ledger.Contracts.{Event, Result, ok, err, Error, bounded_text}
use candle_mind.Ledger.Rows.{
  pure, Ledger, Env, M, event_of, fetch_event_of, ◌>>=◌, lift, transaction, or_raise,
}
use candle_mind.Ledger.Enqueue.{json_object, now_or}
use candle_mind.Ledger.Publish.{
  complete_row, Completion, answer_completion, complete_in, complete_job,
}
use candle_mind.Ledger.Steps.{step_gets, step_lift, transaction_ok}
use candle_mind.Ledger.Calls.{Call, run}
use candle_mind.Ledger.Outbox.Recorded.{issued, run-Recorded}

-- The arguments of `complete_job`, less the job.
pub record Arguments : Type 0 where
  pub worker_id : Text
  pub result : Option Fields
  pub event_type : Text
  pub role : Text
  pub content : Text
  pub structured : Option Fields
  pub reasons : Option (List Text)
  pub now_ms : Option ℕ

abbrev pub completes : Env → Text → Arguments → M Event
completes env job_id a =
    complete_job env job_id a.worker_id a.result a.event_type a.role a.content a.structured
      a.reasons a.now_ms

-- The checks of the arguments do not raise.
pub record IsAccepted (a : Arguments) : Type 0 where
  pub worker : (x : Text) × (bounded_text a.worker_id 128 ≡ ok x)
  pub event_type : (x : Text) × (bounded_text a.event_type 64 ≡ ok x)
  pub role : (x : Text) × (bounded_text a.role 32 ≡ ok x)
  pub content : (x : Text) × (bounded_text a.content 8000 ≡ ok x)
  pub result : (x : Text) × (json_object a.result ≡ ok x)
  pub structured : (x : Text) × (json_object a.structured ≡ ok x)

module _ {A B : Type 0} where
  -- What a sequence that returns has done.
  lift-parts :
      (r : Result A) (k : A → M B) (s s' : Ledger) (b : B)
      → (lift r >>= k) s ≡ (ok b, s')
      → (a : A) × (r ≡ ok a) × (k a s ≡ (ok b, s'))
  unfolding ◌>>=◌
  lift-parts (ok a) k s s' b h = (a, refl, h)
  lift-parts (err x) k s s' b h = cc

  step-parts :
      (m : M A) (k : A → M B) (s s' : Ledger) (b : B)
      → (m >>= k) s ≡ (ok b, s')
      → (a : A) × (t : Ledger) × (k a t ≡ (ok b, s'))
  unfolding ◌>>=◌
  step-parts m k s s' b h = go (m s) h
    where
      go :
          (r : Result A × Ledger)
          → (elim r.0 as (λ _. Result B × Ledger) [ ok a ↦ k a r.1 | err e ↦ (err e, r.1) ])
            ≡ (ok b, s')
          → (a : A) × (t : Ledger) × (k a t ≡ (ok b, s'))
      go (ok a, t) e = (a, t, e)
      go (err x, t) e = cc

abbrev rolled : Ledger → Result Event × Ledger → Result Event × Ledger
rolled s r = (r.0, elim r.0 as (λ _. Ledger) [ ok _ ↦ r.1 | err _ ↦ s ])

transaction-parts :
    (m : M Event) (s s' : Ledger) (e : Event) → transaction m s ≡ (ok e, s') → m s ≡ (ok e, s')
unfolding transaction
transaction-parts m s s' e h = go (m s) h
  where
    go : (r : Result Event × Ledger) → rolled s r ≡ (ok e, s') → r ≡ (ok e, s')
    go (ok x, t) q = q
    go (err x, t) q = cc

fetched :
    (i : Text) (t s' : Ledger) (e : Event)
    → fetch_event_of i t ≡ (ok e, s')
    → event_of i s' ≡ some e
unfolding fetch_event_of or_raise
fetched i t s' e h = go (event_of i t) refl h
  where
    go :
        (o : Option Event)
        → event_of i t ≡ o
        → or_raise o Error.type_error t ≡ (ok e, s')
        → event_of i s' ≡ some e
    go none q r = cc
    go (some x) q r = cc

answered :
    (i owner : Text) (c : Completion) (reasons : Option (List Text)) (now : ℕ) (s s' : Ledger)
    (e : Event) (o : Option Event)
    → event_of i s ≡ o
    → answer_completion i owner c reasons now o s ≡ (ok e, s')
    → event_of i s' ≡ some e
unfolding answer_completion complete_row pure
answered i owner c reasons now s s' e (some x) q h = cc
answered i owner c reasons now s s' e none q h =
    let job = step-parts _ _ s s' e h in
    let rs = step-parts _ _ job.1 s' e job.2 in
    let row = step-parts _ _ rs.1 s' e rs.2 in
    let event = step-parts _ _ row.1 s' e row.2 in fetched i event.1 s' e event.2

-- The event that a completion returns is the one that is recorded for the job.
completes-recorded :
    (env : Env) (job_id i : Text) (a : Arguments) (s s' : Ledger) (e : Event)
    → bounded_text job_id 128 ≡ ok i
    → completes env job_id a s ≡ (ok e, s')
    → event_of i s' ≡ some e
unfolding complete_job complete_in
completes-recorded env job_id i a s s' e b h =
    let id = lift-parts (bounded_text job_id 128) _ s s' e h in
    let same : id.0 ≡ i = cc in
    let worker = lift-parts (bounded_text a.worker_id 128) _ s s' e id.2 in
    let kind = lift-parts (bounded_text a.event_type 64) _ s s' e worker.2 in
    let role = lift-parts (bounded_text a.role 32) _ s s' e kind.2 in
    let content = lift-parts (bounded_text a.content 8000) _ s s' e role.2 in
    let result = lift-parts (json_object a.result) _ s s' e content.2 in
    let structured = lift-parts (json_object a.structured) _ s s' e result.2 in
    let inside = transaction-parts _ s s' e structured.2 in
    subst (λ x. event_of x s' ≡ some e) same
      (answered id.0 worker.0 _ a.reasons (now_or env a.now_ms) s s' e (event_of id.0 s) refl
        (sym (step_gets (event_of id.0) _ s) ∙ inside))

-- A job that has an event keeps it, whoever completes the job again and with what.
complete_in-again :
    (i owner : Text) (c : Completion) (reasons : Option (List Text)) (now : ℕ) (s : Ledger)
    (e : Event)
    → event_of i s ≡ some e
    → complete_in i owner c reasons now s ≡ (ok e, s)
unfolding complete_in answer_completion pure
complete_in-again i owner c reasons now s e h =
    step_gets (event_of i) (answer_completion i owner c reasons now) s ∙ (rw h)

completes-again :
    (env : Env) (job_id i : Text) (a : Arguments) (s : Ledger) (e : Event)
    → bounded_text job_id 128 ≡ ok i
    → IsAccepted a
    → event_of i s ≡ some e
    → completes env job_id a s ≡ (ok e, s)
unfolding complete_job
completes-again env job_id i a s e b v h =
    step_lift _ _ s b
    ∙ step_lift _ _ s v.worker.1
    ∙ step_lift _ _ s v.event_type.1
    ∙ step_lift _ _ s v.role.1
    ∙ step_lift _ _ s v.content.1
    ∙ step_lift _ _ s v.result.1
    ∙ step_lift _ _ s v.structured.1
    ∙ transaction_ok _ s s e
        (complete_in-again i v.worker.0 _ a.reasons (now_or env a.now_ms) s e h)

-- When complete_job returns an event of a job, then the ledger has that event of the job; and after
-- any history of calls, any other complete_job of that job whose arguments pass their checks, by any
-- worker and with any content, returns the same event, but that it may have been published, and
-- changes nothing.
pub complete_once :
    (env later : Env) (job_id again i : Text) (a b : Arguments) (s s' : Ledger) (e : Event)
    (calls : List (Env × Call))
    → bounded_text job_id 128 ≡ ok i
    → completes env job_id a s ≡ (ok e, s')
    → bounded_text again 128 ≡ ok i
    → IsAccepted b
    → (event_of i s' ≡ some e)
      × (t : Option ℕ) × (completes later again b (run calls s') ≡ (ok (issued e t), run calls s'))
unfolding event_of
complete_once env later job_id again i a b s s' e calls id first id' accepted =
    let recorded = completes-recorded env job_id i a s s' e id first in
    let kept = run-Recorded i e calls s' (e.published_at_ms, recorded) in
    (
      recorded,
      kept.0,
      completes-again later again i b (run calls s') (issued e kept.0) id' accepted kept.1,
    )
