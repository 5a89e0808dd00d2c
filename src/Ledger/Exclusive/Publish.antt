-- ===== src/Ledger/Exclusive/Publish.antt =====
-- Completing other jobs and publishing leave a leased row as it is.
use candle_mind.Base.Text.{Text}
use candle_mind.Base.{get_or, none, some, List, Option, arith, refl, false, some, ◌≡◌, ◌≢◌, ℕ}
use candle_mind.Json.Value.{Fields}
use candle_mind.Ledger.Contracts.{Job, Event, ok, bounded_text}
use candle_mind.Ledger.Rows.{Ledger, Env, M, ◌>>=◌, has_sequence, job_at, set_events}
use candle_mind.Ledger.Enqueue.{now_or}
use candle_mind.Ledger.Publish.{
  publish_event, complete, insert_event, complete_row, complete_in, answer_completion, complete_job,
  finished_id, publish_row, mark_event_published,
}
use candle_mind.Ledger.Publish.{Completion, add_event}
use candle_mind.Ledger.Keeps.{
  After-lift, After-gets, After-assoc, After-raise_if, After-write, After-pure, After-raise,
  After-fetch_event_of, After-fetch_event_at, After-transaction,
}
use candle_mind.Ledger.Exclusive.Kept.{Held, Held-update, Held-change, Held-require, not_same}
use candle_mind.Ledger.Exclusive.Kept.{Lease}

module _ (l : Lease) where
  open l use {i, owner, t, j, running, owned, until}

  pub Held-insert_event :
      {B : Type 0} (k : Job) (c : Completion) (reasons : List Text) (now : ℕ) (m : Unit {0} → M B)
      (s : Ledger)
      → Held l s
      → ((s' : Ledger) → Held l s' → Held l (m tt s').1)
      → Held l ((insert_event k c reasons now >>= m) s).1
  unfolding insert_event job_at
  Held-insert_event k c reasons now m s h f = After-assoc (Held l) _ _ m s (
      After-gets (Held l) _ _ s (
        After-assoc (Held l) _ _ m s (
          After-raise_if (Held l) _ _ _ s h
            λ _. After-write (Held l) (add_event k c reasons now) m s (f _ h))))

  pub Held-complete_row :
      (k worker : Text) (c : Completion) (reasons : Option (List Text)) (now : ℕ) (s : Ledger)
      → (worker ≢ owner)
      → Held l s
      → Held l (complete_row k worker c reasons now s).1
  unfolding complete_row
  Held-complete_row k worker c reasons now s stranger h = Held-require l k worker now _ s h λ row q.
      After-lift (Held l) _ _ s h λ rs _. After-write (Held l) _ _ s (
        Held-insert_event row c rs now _ _
          (Held-change l k worker now (complete c.result now) s row (λ x. refl) h stranger q)
          λ s' h'. After-fetch_event_of (Held l) k s' h')

  pub Held-answer :
      (k worker : Text) (c : Completion) (reasons : Option (List Text)) (now : ℕ)
      (found : Option Event) (s : Ledger)
      → (worker ≢ owner)
      → Held l s
      → Held l (answer_completion k worker c reasons now found s).1
  unfolding answer_completion
  Held-answer k worker c reasons now (some e) s stranger h = After-pure (Held l) e s h
  Held-answer k worker c reasons now none s stranger h =
      Held-complete_row k worker c reasons now s stranger h

  pub Held-complete :
      (env : Env) (k worker : Text) (result : Option Fields) (kind role content : Text)
      (structured : Option Fields) (reasons : Option (List Text)) (now : Option ℕ) (s : Ledger)
      → bounded_text worker 128 ≢ ok owner
      → Held l s
      → Held l (complete_job env k worker result kind role content structured reasons now s).1
  unfolding complete_job complete_in
  Held-complete env k worker result kind role content structured reasons now s stranger h =
      After-lift (Held l) _ _ s h λ id _. After-lift (Held l) _ _ s h λ w e.
        After-lift (Held l) _ _ s h λ kind' _. After-lift (Held l) _ _ s h λ role' _.
          After-lift (Held l) _ _ s h λ text _. After-lift (Held l) _ _ s h λ result_json _.
            After-lift (Held l) _ _ s h λ structured_json _. After-transaction (Held l) _ s h (
              After-gets (Held l) _ _ s (
                Held-answer id w _ reasons (now_or env now) _ s (not_same l worker w stranger e) h))

  pub not_finished : (k : Text) → finished_id k j ≡ false
  not_finished k = ground arith

  pub Held-publish_row :
      (n now : ℕ) (found : Option Event) (s : Ledger)
      → Held l s
      → Held l (publish_row n now found s).1
  unfolding publish_row job_at
  Held-publish_row n now none s h = After-raise (Held l) _ _ s h
  Held-publish_row n now (some row) s h = After-write (Held l) _ _ s (
      After-write (Held l) _ _ _ (
        After-fetch_event_at (Held l) n _ (
          Held-update l (finished_id row.job_id) _
            (set_events (has_sequence n) (publish_event (get_or row.published_at_ms now)) s)
            (λ k. refl) (not_finished row.job_id) h)))

  pub Held-publish :
      (env : Env) (n : ℕ) (now : Option ℕ) (s : Ledger)
      → Held l s
      → Held l (mark_event_published env n now s).1
  unfolding mark_event_published
  Held-publish env n now s h =
      After-transaction (Held l) _ s h
        (After-gets (Held l) _ _ s (Held-publish_row n (now_or env now) _ s h))
