-- ===== src/Ledger/Outbox/Recorded.antt =====
-- An event that was recorded stays, whatever is called, but that it is published.
use candle_mind.Base.Text.{Text}
use candle_mind.Base.{
  ◌++◌, ◌∷◌, [], none, some, List, Option, ap, refl, ◌∙◌, Bool, false, true, ◌≡◌, ℕ, get_or,
  if◌then◌else◌, or_else,
}
use candle_mind.Base.Table.{update_where, find, find-append, find-update_where, opt_change, change}
use candle_mind.Json.Value.{Fields}
use candle_mind.Ledger.Contracts.{Job, JobState, Event, Result, ok, err}
use candle_mind.Ledger.Rows.{Ledger, Env, M, ◌>>=◌, for_job, has_sequence}
use candle_mind.Ledger.Enqueue.{enqueue_market_job, now_or}
use candle_mind.Ledger.Lease.{retry_job, fail_job}
use candle_mind.Ledger.Publish.{
  publish_event, new_event, insert_event, complete_row, complete_in, answer_completion,
  complete_job, publish_row, mark_event_published, Completion, add_event,
}
use candle_mind.Ledger.Keeps.{
  After-lift, After-gets, After-assoc, After-raise_if, After-write, After-pure, After-raise,
  After-fetch_event_of, After-fetch_event_at, After-transaction,
}
use candle_mind.Ledger.Calls.{Call, Reply, reply_with, perform, run}
use candle_mind.Ledger.Outbox.Enqueue.{Held-enqueue, Held-enqueue_inbox, Held-supersede}
use candle_mind.Ledger.Outbox.Leases.{
  Held-recover, Held-claim, Held-renew, Held-release, Held-require,
}

abbrev pub issued : Event → Option ℕ → Event
issued e t = record e { published_at_ms = t }

module _ (i : Text) (e : Event) where
  -- The first event of the job is `e`, published or not.
  abbrev pub Recorded : List Event → Type 0
  Recorded es = (t : Option ℕ) × (find (for_job i) es ≡ some (issued e t))

  abbrev Keeps : Ledger → Type 0
  Keeps s = Recorded s.outbox

  append-Recorded : (es : List Event) (x : Event) → Recorded es → Recorded (es ++ x ∷ [])
  append-Recorded es x (t, h) = (
    t,
    find-append (for_job i) es x ∙ ap (λ o. or_else o (if for_job i x then some x else none)) h,
  )

  changed-Recorded :
      (n now : ℕ) (t : Option ℕ)
      → (u : Option ℕ) × (change (has_sequence n) (publish_event now) (issued e t) ≡ issued e u)
  changed-Recorded n now t = if_published (has_sequence n (issued e t))
    where
      if_published :
          (b : Bool)
          → (u : Option ℕ) × ((if b then publish_event now (issued e t) else issued e t)
              ≡ issued e u)
      if_published true = (some now, refl)
      if_published false = (t, refl)

  publish-Recorded :
      (n now : ℕ) (es : List Event)
      → Recorded es
      → Recorded (update_where (has_sequence n) (publish_event now) es)
  publish-Recorded n now es (t, h) =
      let c = changed-Recorded n now t in
      (
        c.0,
        find-update_where (for_job i) (has_sequence n) (publish_event now) es
              (λ x. same (has_sequence n x) x)
            ∙ ap (opt_change (has_sequence n) (publish_event now)) h
            ∙ ap some c.1,
      )
    where
      same : (b : Bool) (x : Event) → for_job i (if b then publish_event now x else x) ≡ for_job i x
      same true x = refl
      same false x = refl

  Keeps-insert_event :
      {B : Type 0} (k : Job) (c : Completion) (reasons : List Text) (now : ℕ) (m : Unit {0} → M B)
      (s : Ledger)
      → Keeps s
      → ((s' : Ledger) → Keeps s' → Keeps (m tt s').1)
      → Keeps ((insert_event k c reasons now >>= m) s).1
  unfolding insert_event
  Keeps-insert_event k c reasons now m s h f = After-assoc Keeps _ _ m s (
      After-gets Keeps _ _ s (
        After-assoc Keeps _ _ m s (
          After-raise_if Keeps _ _ _ s h λ _.
            After-write Keeps (add_event k c reasons now) m s
              (f _ (append-Recorded s.outbox (new_event s.next_sequence k c reasons now) h)))))

  Keeps-answer :
      (k worker : Text) (c : Completion) (reasons : Option (List Text)) (now : ℕ)
      (found : Option Event) (s : Ledger)
      → Keeps s
      → Keeps (answer_completion k worker c reasons now found s).1
  unfolding answer_completion complete_row
  Keeps-answer k worker c reasons now (some x) s h = After-pure Keeps x s h
  Keeps-answer k worker c reasons now none s h = Held-require Recorded k worker now _ s h λ row.
      After-lift Keeps _ _ s h λ rs _.
        After-write Keeps _ _ s
          (Keeps-insert_event row c rs now _ _ h λ s' h'. After-fetch_event_of Keeps k s' h')

  Keeps-complete :
      (env : Env) (k worker : Text) (result : Option Fields) (kind role content : Text)
      (structured : Option Fields) (reasons : Option (List Text)) (now : Option ℕ) (s : Ledger)
      → Keeps s
      → Keeps (complete_job env k worker result kind role content structured reasons now s).1
  unfolding complete_job complete_in
  Keeps-complete env k worker result kind role content structured reasons now s h =
      After-lift Keeps _ _ s h λ id _. After-lift Keeps _ _ s h λ w _.
        After-lift Keeps _ _ s h λ kind' _. After-lift Keeps _ _ s h λ role' _.
          After-lift Keeps _ _ s h λ text _. After-lift Keeps _ _ s h λ result_json _.
            After-lift Keeps _ _ s h λ structured_json _.
              After-transaction Keeps _ s h
                (After-gets Keeps _ _ s (Keeps-answer id w _ reasons (now_or env now) _ s h))

  Keeps-publish_row :
      (n now : ℕ) (found : Option Event) (s : Ledger)
      → Keeps s
      → Keeps (publish_row n now found s).1
  unfolding publish_row
  Keeps-publish_row n now none s h = After-raise Keeps _ _ s h
  Keeps-publish_row n now (some row) s h = After-write Keeps _ _ s (
      After-write Keeps _ _ _ (
        After-fetch_event_at Keeps n _
          (publish-Recorded n (get_or row.published_at_ms now) s.outbox h)))

  Keeps-publish :
      (env : Env) (n : ℕ) (now : Option ℕ) (s : Ledger)
      → Keeps s
      → Keeps (mark_event_published env n now s).1
  unfolding mark_event_published
  Keeps-publish env n now s h =
      After-transaction Keeps _ s h
        (After-gets Keeps _ _ s (Keeps-publish_row n (now_or env now) _ s h))

  Keeps-reply :
      {A : Type 0} (f : A → Reply) (r : Result A × Ledger) → Keeps r.1 → Keeps (reply_with f r).1
  Keeps-reply f (ok a, s) h = h
  Keeps-reply f (err x, s) h = h

  Keeps-perform : (env : Env) (c : Call) (s : Ledger) → Keeps s → Keeps (perform env c s).1
  unfolding perform enqueue_market_job retry_job fail_job
  Keeps-perform env
        (Call.enqueue_market network symbol key payload reasons priority available k now) s h =
      Keeps-reply _ _ (
        Held-enqueue Recorded env network symbol _ key payload reasons priority available k now s h)
  Keeps-perform env
        (Call.enqueue_inbox network symbol message content payload priority available k now) s h =
      Keeps-reply _ _ (
        Held-enqueue_inbox Recorded env network symbol message content payload priority available k
          now s h)
  Keeps-perform env (Call.recover now) s h = Keeps-reply _ _ (Held-recover Recorded env now s h)
  Keeps-perform env (Call.claim worker lease lanes network symbol now) s h =
      Keeps-reply _ _ (Held-claim Recorded env worker lease lanes network symbol now s h)
  Keeps-perform env (Call.renew k worker lease now) s h =
      Keeps-reply _ _ (Held-renew Recorded env k worker lease now s h)
  Keeps-perform env (Call.retry k worker available code now) s h =
      Keeps-reply _ _
        (Held-release Recorded env k worker JobState.retry_wait (some available) code now s h)
  Keeps-perform env (Call.fail k worker code now) s h =
      Keeps-reply _ _ (Held-release Recorded env k worker JobState.failed none code now s h)
  Keeps-perform env (Call.supersede k reason now) s h =
      Keeps-reply _ _ (Held-supersede Recorded env k reason now s h)
  Keeps-perform env (Call.complete k worker result kind role content structured reasons now) s h =
      Keeps-reply _ _
        (Keeps-complete env k worker result kind role content structured reasons now s h)
  Keeps-perform env (Call.publish n now) s h = Keeps-reply _ _ (Keeps-publish env n now s h)

  pub run-Recorded :
      (calls : List (Env × Call)) (s : Ledger) → Keeps s → Recorded (run calls s).outbox
  unfolding run
  run-Recorded [] s h = h
  run-Recorded ((env, c) ∷ rest) s h =
      run-Recorded rest (perform env c s).1 (Keeps-perform env c s h)
