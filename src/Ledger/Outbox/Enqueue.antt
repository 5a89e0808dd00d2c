-- ===== src/Ledger/Outbox/Enqueue.antt =====
-- Enqueuing and superseding leave the outbox as it is.
use candle_mind.Base.Int.{ℤ}
use candle_mind.Base.Text.{Text}
use candle_mind.Base.{[], subst, not, [], none, some, List, Option, ap, some, ℕ}
use candle_mind.Json.Value.{Fields}
use candle_mind.Ledger.Contracts.{Event, JobLane, Job, Result, is_claimable}
use candle_mind.Ledger.Rows.{Ledger, Env, M, ◌>>=◌, job_at}
use candle_mind.Ledger.Enqueue.{
  now_or, add_job, insert_row, insert_job, merge_existing, reuse_job, place_job, enqueue_job,
  insert_message, store_message, place_message, enqueue_inbox_message,
}
use candle_mind.Ledger.Publish.{is_superseded, supersede_row, supersede_job}
use candle_mind.Ledger.Rows.{Message}
use candle_mind.Ledger.Keeps.{
  After-lift, After-gets, After-step, After-if, After-pure_then, After-assoc, After-raise_if,
  After-write, After-pure, After-raise, After-fetch_job, After-transaction,
}
use candle_mind.Base.{split_if}

module _ (Q : List Event → Type 0) where
  -- A predicate of the outbox.
  abbrev pub Held : Ledger → Type 0
  Held s = Q s.outbox

  pub Held-insert_row :
      {B : Type 0} (k : Job) (m : Unit {0} → M B) (s : Ledger)
      → Held s
      → ((s' : Ledger) → Held s' → Held (m tt s').1)
      → Held ((insert_row k >>= m) s).1
  unfolding insert_row
  Held-insert_row k m s h f = After-assoc Held _ _ m s (
      After-gets Held _ _ s (
        After-assoc Held _ _ m s
          (After-raise_if Held _ _ _ s h λ _. After-write Held (add_job k) m s (f _ h))))

  pub Held-insert_job :
      (env : Env) (network symbol : Text) (lane : JobLane) (key payload : Text)
      (reasons : List Text) (priority : ℤ) (available : Option ℕ) (job_id : Option Text) (now : ℕ)
      (s : Ledger)
      → Held s
      → Held
          (insert_job env network symbol lane key payload reasons priority available job_id now s).1
  unfolding insert_job
  Held-insert_job env network symbol lane key payload reasons priority available job_id now s h =
      After-lift Held _ _ s h λ k _. Held-insert_row _ _ s h (λ s' h'. After-fetch_job Held k s' h')

  pub Held-reuse :
      (row : Job) (lane : JobLane) (payload : Text) (reasons : List Text) (priority : ℤ) (now : ℕ)
      (s : Ledger)
      → Held s
      → Held (reuse_job row lane payload reasons priority now s).1
  unfolding reuse_job merge_existing
  Held-reuse row lane payload reasons priority now s h = After-raise_if Held _ _ _ s h λ _.
      After-if Held (not (is_claimable row.state)) _ _ _ s
        (λ _. After-pure_then Held tt _ s (After-fetch_job Held row.id s h))
        (λ c. After-assoc Held _ _ _ s (
          After-lift Held _ _ s h
            λ merged _. After-write Held _ _ s (After-fetch_job Held row.id _ h)))

  pub Held-place_job :
      (env : Env) (network symbol : Text) (lane : JobLane) (key payload : Text)
      (reasons : List Text) (priority : ℤ) (available : Option ℕ) (job_id : Option Text) (now : ℕ)
      (found : Option Job) (s : Ledger)
      → Held s
      → Held
          (place_job env network symbol lane key payload reasons priority available job_id now found
            s).1
  unfolding place_job
  Held-place_job env network symbol lane key payload reasons priority available job_id now
        (some row) s h =
      Held-reuse row lane payload reasons priority now s h
  Held-place_job env network symbol lane key payload reasons priority available job_id now none s
        h =
      Held-insert_job env network symbol lane key payload reasons priority available job_id now s h

  pub Held-enqueue :
      (env : Env) (network symbol : Text) (lane : JobLane) (key : Text) (payload : Option Fields)
      (reasons : List Text) (priority : ℤ) (available : Option ℕ) (job_id : Option Text)
      (now : Option ℕ) (s : Ledger)
      → Held s
      → Held
          (enqueue_job env network symbol lane key payload reasons priority available job_id now
            s).1
  unfolding enqueue_job
  Held-enqueue env network symbol lane key payload reasons priority available job_id now s h =
      After-lift Held _ _ s h λ scope _. After-lift Held _ _ s h λ k _.
        After-lift Held _ _ s h λ encoded _. After-lift Held _ _ s h λ normalized _.
          After-transaction Held _ s h (
            After-gets Held _ _ s (
              Held-place_job env scope.0 scope.1 lane k encoded normalized priority available job_id
                (now_or env now) _ s h))

  pub Held-place_message :
      (env : Env) (network symbol message_id message payload : Text) (priority : ℤ)
      (available : Option ℕ) (job_id : Option Text) (now : ℕ) (found : Option (Message × Job))
      (s : Ledger)
      → Held s
      → Held
          (place_message env network symbol message_id message payload priority available job_id now
            found s).1
  unfolding place_message store_message insert_message job_at
  Held-place_message env network symbol message_id message payload priority available job_id now
        (some (m, k)) s h =
      After-raise_if Held _ _ _ s h (λ _. After-pure Held k s h)
  Held-place_message env network symbol message_id message payload priority available job_id now
        none s h =
      let inserted =
        Held-insert_job env network symbol JobLane.inbox _ payload [] priority available job_id now
          s h in
      After-step Held _ _ s inserted λ k s' e.
        let h' : Held s' = subst Held (ap (λ (r : Result Job × Ledger). r.1) e) inserted in
        After-assoc Held _ _ _ s' (
          After-gets Held _ _ s' (
            After-assoc Held _ _ _ s' (
              After-raise_if Held _ _ _ s' h'
                λ _. After-write Held _ _ s' (After-pure Held k _ h'))))

  pub Held-enqueue_inbox :
      (env : Env) (network symbol message_id content : Text) (payload : Option Fields)
      (priority : ℤ) (available : Option ℕ) (job_id : Option Text) (now : Option ℕ) (s : Ledger)
      → Held s
      → Held
          (enqueue_inbox_message env network symbol message_id content payload priority available
            job_id now s).1
  unfolding enqueue_inbox_message
  Held-enqueue_inbox env network symbol message_id content payload priority available job_id now s
        h =
      After-lift Held _ _ s h λ scope _. After-lift Held _ _ s h λ k _.
        After-lift Held _ _ s h λ message _. After-lift Held _ _ s h λ encoded _.
          After-transaction Held _ s h (
            After-gets Held _ _ s (
              Held-place_message env scope.0 scope.1 k message encoded priority available job_id
                (now_or env now) _ s h))

  pub Held-supersede_row :
      (k code : Text) (now : ℕ) (found : Option Job) (s : Ledger)
      → Held s
      → Held (supersede_row k code now found s).1
  unfolding supersede_row
  Held-supersede_row k code now none s h = After-raise Held _ _ s h
  Held-supersede_row k code now (some row) s h =
      split_if (λ (m : M Job). Held (m s).1) (is_superseded row.state)
        (λ _. After-pure Held row s h)
        (λ _.
          split_if (λ (m : M Job). Held (m s).1) (not (is_claimable row.state))
            (λ _. After-raise Held _ _ s h)
            (λ _. After-write Held _ _ s (After-fetch_job Held k _ h)))

  pub Held-supersede :
      (env : Env) (k reason : Text) (now : Option ℕ) (s : Ledger)
      → Held s
      → Held (supersede_job env k reason now s).1
  unfolding supersede_job
  Held-supersede env k reason now s h = After-lift Held _ _ s h λ id _.
      After-lift Held _ _ s h λ code _.
        After-transaction Held _ s h
          (After-gets Held _ _ s (Held-supersede_row id code (now_or env now) _ s h))
