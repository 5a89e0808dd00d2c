-- ===== src/Ledger/Invariant/Complete.antt =====
-- market_agent_queue_store.py: `complete_job` and the invariant.
use candle_mind.Ledger.Invariant.Publish.{completed, event_of-completed}
use candle_mind.Ledger.Invariant.Publish.{completed-IsValid, no_event}
use candle_mind.Base.Text.{text_eq_refl}
use candle_mind.Base.{
  false, not, ◌||◌, ap, subst, is_some, get_or, ◌∙◌, sym, Option, arith, none, refl,
}
use candle_mind.Ledger.Contracts.{Job, Event, Result, ok, is_running}
use candle_mind.Ledger.Rows.{fetch_event_of, Ledger, Env, has_id, job_at, event_of, set_jobs}
use candle_mind.Ledger.Enqueue.{now_or, normalize_reasons}
use candle_mind.Ledger.Lease.{require_running_lease, check_lease}
use candle_mind.Ledger.Publish.{
  complete, Completion, new_event, insert_event, complete_row, complete_in, complete_job,
}
use candle_mind.Ledger.Lease.{require_running_lease}
use candle_mind.Ledger.Contracts.{Error}
use candle_mind.Ledger.Rows.{write, ◌>>◌}
use candle_mind.Ledger.Invariant.Leases.{require-IsValid}
use candle_mind.Json.Value.{Fields}
use candle_mind.Ledger.Publish.{answer_completion}
use candle_mind.Ledger.Keeps.{After-lift, After-gets, After-pure, After-transaction}
use candle_mind.Ledger.Steps.{
  step_ok, step_lift, step_write, step_gets, step_raise_if, fetch_event_of_ok,
}
use candle_mind.Ledger.Invariant.{true, some, List, ◌≡◌, ℕ, Text, IsValid}
use candle_mind.Ledger.Invariant.Jobs.{job_at-update, id-job_at}
use candle_mind.Ledger.Invariant.Leases.{check_lease-ok}

module _ (i : Text) (row : Job) (c : Completion) (reasons : List Text) (now : ℕ) (s : Ledger)
    (v : IsValid s) (found : job_at i s ≡ some row) (running : is_running row.state ≡ true) where
  abbrev marked : Ledger
  marked = set_jobs (has_id i) (complete c.result now) s

  not_refused : (is_some (event_of row.id marked) || not (is_some (job_at row.id marked))) ≡ false
  unfolding event_of
  not_refused =
      let none_yet : event_of i s ≡ none = no_event i row c reasons now s v found running in
      rw (job_at-update (has_id i) (complete c.result now) (λ j. refl) row.id s)
        (ground (arith, id-job_at i s row found))

  insert_event_lem :
      insert_event row c reasons now marked ≡ (ok tt, completed i row c reasons now s)
  unfolding insert_event write
  insert_event_lem =
      step_gets _ _ marked ∙ step_raise_if _ Error.integrity_error _ marked not_refused

  pub event_of-completed_self :
      event_of i (completed i row c reasons now s)
      ≡ some (new_event s.next_sequence row c reasons now)
  event_of-completed_self =
      event_of-completed i row c reasons now s v found running i
      ∙ ground (
        arith,
        no_event i row c reasons now s v found running,
        id-job_at i s row found,
        text_eq_refl row.id,
      )

  -- The rest of `complete_job` once the lease and the reasons are known.
  finish_lem :
      (write (set_jobs (has_id i) (complete c.result now))
          >> (insert_event row c reasons now >> fetch_event_of i))
        s
      ≡ (ok (new_event s.next_sequence row c reasons now), completed i row c reasons now s)
  finish_lem =
      step_write _ _ s
      ∙ step_ok (insert_event row c reasons now) _ marked _ tt insert_event_lem
      ∙ fetch_event_of_ok i (completed i row c reasons now s) _ event_of-completed_self

require_held :
    (i owner : Text) (now : ℕ) (s : Ledger) (row : Job)
    → check_lease owner now (job_at i s) ≡ ok row
    → require_running_lease i owner now s ≡ (ok row, s)
unfolding require_running_lease
require_held i owner now s row e = rw e

-- The whole effect of completing a job whose lease the worker holds.
pub complete_row_lem :
    (i owner : Text) (c : Completion) (reasons : Option (List Text)) (now : ℕ) (s : Ledger)
    (row : Job) (rs : List Text)
    → IsValid s
    → check_lease owner now (job_at i s) ≡ ok row
    → normalize_reasons (get_or reasons row.reasons) ≡ ok rs
    → complete_row i owner c reasons now s
      ≡ (ok (new_event s.next_sequence row c rs now), completed i row c rs now s)
unfolding complete_row
complete_row_lem i owner c reasons now s row rs v lease normal =
    let held = check_lease-ok owner now (job_at i s) row lease in
    step_ok (require_running_lease i owner now) _ s s row (require_held i owner now s row lease)
    ∙ step_lift _ _ s normal
    ∙ finish_lem i row c rs now s v held.0 held.1

complete_row-IsValid :
    (i owner : Text) (c : Completion) (reasons : Option (List Text)) (now : ℕ) (s : Ledger)
    → IsValid s
    → IsValid (complete_row i owner c reasons now s).1
unfolding complete_row
complete_row-IsValid i owner c reasons now s v = require-IsValid i owner now _ s v λ row lease.
    After-lift IsValid _ _ s v λ rs _.
      let held = check_lease-ok owner now (job_at i s) row lease in
      subst IsValid
        (sym
          (ap (λ (r : Result Event × Ledger). r.1) (finish_lem i row c rs now s v held.0 held.1)))
        (completed-IsValid i row c rs now s v held.0 held.1)

complete_in-IsValid :
    (i owner : Text) (c : Completion) (reasons : Option (List Text)) (now : ℕ)
    (found : Option Event) (s : Ledger)
    → IsValid s
    → IsValid (answer_completion i owner c reasons now found s).1
unfolding answer_completion
complete_in-IsValid i owner c reasons now (some e) s v = After-pure IsValid e s v
complete_in-IsValid i owner c reasons now none s v = complete_row-IsValid i owner c reasons now s v

pub complete_job-IsValid :
    (env : Env) (i worker : Text) (result : Option Fields) (event_type role content : Text)
    (structured : Option Fields) (reasons : Option (List Text)) (now_ms : Option ℕ) (s : Ledger)
    → IsValid s
    → IsValid
        (complete_job env i worker result event_type role content structured reasons now_ms s).1
unfolding complete_job complete_in
complete_job-IsValid env i worker result event_type role content structured reasons now_ms s v =
    After-lift IsValid _ _ s v λ id _. After-lift IsValid _ _ s v λ owner _.
      After-lift IsValid _ _ s v λ kind _. After-lift IsValid _ _ s v λ r _.
        After-lift IsValid _ _ s v λ text _. After-lift IsValid _ _ s v λ result_json _.
          After-lift IsValid _ _ s v λ structured_json _. After-transaction IsValid _ s v (
            After-gets IsValid _ _ s
              (complete_in-IsValid id owner _ reasons (now_or env now_ms) _ s v))
