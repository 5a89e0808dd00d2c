-- ===== src/Ledger/Exclusive/Enqueue.antt =====
-- Enqueuing and superseding leave a leased row as it is.
use candle_mind.Base.Int.{ℤ}
use candle_mind.Base.Text.{Text}
use candle_mind.Base.{
  [], subst, not, [], none, some, List, Option, ap, inl, inr, arith, refl, Bool-cases, false, some,
  true, ◌≡◌, ℕ,
}
use candle_mind.Json.Value.{Fields}
use candle_mind.Ledger.Contracts.{JobLane, Job, Result, is_claimable}
use candle_mind.Ledger.Rows.{Ledger, Env, M, ◌>>=◌, has_id, job_at}
use candle_mind.Ledger.Enqueue.{
  now_or, add_job, insert_row, insert_job, merge_existing, reuse_job, place_job, enqueue_job,
  insert_message, store_message, place_message, enqueue_inbox_message,
}
use candle_mind.Ledger.Publish.{is_superseded, supersede_row, supersede_job}
use candle_mind.Ledger.Rows.{Message}
use candle_mind.Ledger.Enqueue.{has_key, job_with_key}
use candle_mind.Ledger.Invariant.{Distinct}
use candle_mind.Ledger.Invariant.Jobs.{same_row}
use candle_mind.Ledger.Invariant.Enqueue.{find-job_at}
use candle_mind.Ledger.Keeps.{
  After-lift, After-gets, After-step, After-if, After-pure_then, After-assoc, After-raise_if,
  After-write, After-pure, After-raise, After-fetch_job, After-transaction,
}
use candle_mind.Ledger.Exclusive.Kept.{Held, Held-update, not_claimable, Held-add}
use candle_mind.Ledger.Exclusive.Kept.{Lease}

module _ (l : Lease) where
  open l use {i, owner, t, j, running, owned, until}

  pub Held-insert_row :
      {B : Type 0} (k : Job) (m : Unit {0} → M B) (s : Ledger)
      → Held l s
      → ((s' : Ledger) → Held l s' → Held l (m tt s').1)
      → Held l ((insert_row k >>= m) s).1
  unfolding insert_row
  Held-insert_row k m s h f = After-assoc (Held l) _ _ m s (
      After-gets (Held l) _ _ s (
        After-assoc (Held l) _ _ m s (
          After-raise_if (Held l) _ _ _ s h
            λ _. After-write (Held l) (add_job k) m s (f _ (Held-add l s k h)))))

  pub Held-insert_job :
      (env : Env) (network symbol : Text) (lane : JobLane) (key payload : Text)
      (reasons : List Text) (priority : ℤ) (available : Option ℕ) (job_id : Option Text) (now : ℕ)
      (s : Ledger)
      → Held l s
      → Held l
          (insert_job env network symbol lane key payload reasons priority available job_id now s).1
  unfolding insert_job
  Held-insert_job env network symbol lane key payload reasons priority available job_id now s h =
      After-lift (Held l) _ _ s h
        λ k _. Held-insert_row _ _ s h (λ s' h'. After-fetch_job (Held l) k s' h')

  -- A merge changes the row of the job that it found, and only while that may be claimed.
  pub Held-reuse :
      (row : Job) (lane : JobLane) (payload : Text) (reasons : List Text) (priority : ℤ) (now : ℕ)
      (s : Ledger)
      → job_at row.id s ≡ some row
      → Held l s
      → Held l (reuse_job row lane payload reasons priority now s).1
  unfolding reuse_job merge_existing
  Held-reuse row lane payload reasons priority now s found h =
      After-raise_if (Held l) _ _ _ s h λ _.
        After-if (Held l) (not (is_claimable row.state)) _ _ _ s
          (λ _. After-pure_then (Held l) tt _ s (After-fetch_job (Held l) row.id s h))
          (λ c. After-assoc (Held l) _ _ _ s (
            After-lift (Held l) _ _ s h λ merged _. After-write (Held l) _ _ s (
              After-fetch_job (Held l) row.id _
                (Held-update l (has_id row.id) _ s (λ k. refl) (other_row row s found c h) h))))
    where
      other_row :
          (row : Job) (s : Ledger)
          → job_at row.id s ≡ some row
          → not (is_claimable row.state) ≡ false
          → Held l s
          → has_id row.id j ≡ false
      other_row row s found c h = elim (Bool-cases (has_id row.id j)) [
        | inr e ↦ e
        | inl e ↦
            let same : j ≡ row = same_row row.id i s row j found h e in
            ground (arith, not_claimable l)
      ]

  pub Held-place_job :
      (env : Env) (network symbol : Text) (lane : JobLane) (key payload : Text)
      (reasons : List Text) (priority : ℤ) (available : Option ℕ) (job_id : Option Text) (now : ℕ)
      (found : Option Job) (s : Ledger)
      → Distinct s.jobs
      → job_with_key network symbol key s ≡ found
      → Held l s
      → Held l
          (place_job env network symbol lane key payload reasons priority available job_id now found
            s).1
  unfolding place_job job_with_key job_at
  Held-place_job env network symbol lane key payload reasons priority available job_id now
        (some row) s d e h =
      Held-reuse row lane payload reasons priority now s
        (find-job_at (has_key network symbol key) s.jobs row d e) h
  Held-place_job env network symbol lane key payload reasons priority available job_id now none s d
        e h =
      Held-insert_job env network symbol lane key payload reasons priority available job_id now s h

  pub Held-enqueue :
      (env : Env) (network symbol : Text) (lane : JobLane) (key : Text) (payload : Option Fields)
      (reasons : List Text) (priority : ℤ) (available : Option ℕ) (job_id : Option Text)
      (now : Option ℕ) (s : Ledger)
      → Distinct s.jobs
      → Held l s
      → Held l
          (enqueue_job env network symbol lane key payload reasons priority available job_id now
            s).1
  unfolding enqueue_job
  Held-enqueue env network symbol lane key payload reasons priority available job_id now s d h =
      After-lift (Held l) _ _ s h λ scope _. After-lift (Held l) _ _ s h λ k _.
        After-lift (Held l) _ _ s h λ encoded _. After-lift (Held l) _ _ s h λ normalized _.
          After-transaction (Held l) _ s h (
            After-gets (Held l) _ _ s (
              Held-place_job env scope.0 scope.1 lane k encoded normalized priority available job_id
                (now_or env now) _ s d refl h))

  pub Held-place_message :
      (env : Env) (network symbol message_id message payload : Text) (priority : ℤ)
      (available : Option ℕ) (job_id : Option Text) (now : ℕ) (found : Option (Message × Job))
      (s : Ledger)
      → Held l s
      → Held l
          (place_message env network symbol message_id message payload priority available job_id now
            found s).1
  unfolding place_message store_message insert_message job_at
  Held-place_message env network symbol message_id message payload priority available job_id now
        (some (m, k)) s h =
      After-raise_if (Held l) _ _ _ s h (λ _. After-pure (Held l) k s h)
  Held-place_message env network symbol message_id message payload priority available job_id now
        none s h =
      let inserted =
        Held-insert_job env network symbol JobLane.inbox _ payload [] priority available job_id now
          s h in
      After-step (Held l) _ _ s inserted λ k s' e.
        let h' : Held l s' = subst (Held l) (ap (λ (r : Result Job × Ledger). r.1) e) inserted in
        After-assoc (Held l) _ _ _ s' (
          After-gets (Held l) _ _ s' (
            After-assoc (Held l) _ _ _ s' (
              After-raise_if (Held l) _ _ _ s' h'
                λ _. After-write (Held l) _ _ s' (After-pure (Held l) k _ h'))))

  pub Held-enqueue_inbox :
      (env : Env) (network symbol message_id content : Text) (payload : Option Fields)
      (priority : ℤ) (available : Option ℕ) (job_id : Option Text) (now : Option ℕ) (s : Ledger)
      → Held l s
      → Held l
          (enqueue_inbox_message env network symbol message_id content payload priority available
            job_id now s).1
  unfolding enqueue_inbox_message
  Held-enqueue_inbox env network symbol message_id content payload priority available job_id now s
        h =
      After-lift (Held l) _ _ s h λ scope _. After-lift (Held l) _ _ s h λ k _.
        After-lift (Held l) _ _ s h λ message _. After-lift (Held l) _ _ s h λ encoded _.
          After-transaction (Held l) _ s h (
            After-gets (Held l) _ _ s (
              Held-place_message env scope.0 scope.1 k message encoded priority available job_id
                (now_or env now) _ s h))

  pub Held-supersede_row :
      (k code : Text) (now : ℕ) (found : Option Job) (s : Ledger)
      → job_at k s ≡ found
      → Held l s
      → Held l (supersede_row k code now found s).1
  unfolding supersede_row
  Held-supersede_row k code now none s e h = After-raise (Held l) _ _ s h
  Held-supersede_row k code now (some row) s e h = elim (Bool-cases (is_superseded row.state)) [
    | inl b ↦ rw b (After-pure (Held l) row s h)
    | inr b ↦ elim (Bool-cases (is_claimable row.state)) [
      | inr c ↦ rw (b, c) (After-raise (Held l) _ _ s h)
      | inl c ↦
          rw (b, c)
            (After-write (Held l) _ _ s (
              After-fetch_job (Held l) k _
                (Held-update l (has_id k) _ s (λ x. refl) (other_row c) h)))
    ]
  ]
    where
      other_row : is_claimable row.state ≡ true → has_id k j ≡ false
      other_row c = elim (Bool-cases (has_id k j)) [
        | inr q ↦ q
        | inl q ↦ let same : j ≡ row = same_row k i s row j e h q in ground (arith, not_claimable l)
      ]

  pub Held-supersede :
      (env : Env) (k reason : Text) (now : Option ℕ) (s : Ledger)
      → Held l s
      → Held l (supersede_job env k reason now s).1
  unfolding supersede_job
  Held-supersede env k reason now s h = After-lift (Held l) _ _ s h λ id _.
      After-lift (Held l) _ _ s h λ code _.
        After-transaction (Held l) _ s h
          (After-gets (Held l) _ _ s (Held-supersede_row id code (now_or env now) _ s refl h))
