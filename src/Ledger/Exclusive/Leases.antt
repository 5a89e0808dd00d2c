-- ===== src/Ledger/Exclusive/Leases.antt =====
-- What other workers do with leases leaves a leased row as it is.
use candle_mind.Base.Int.{ℤ}
use candle_mind.Base.Text.{Text}
use candle_mind.Base.{none, some, List, ◌+◌, Option, refl, some, ◌<◌, ◌≢◌, ℕ}
use candle_mind.Ledger.Contracts.{JobLane, JobState, Job, ok, bounded_text}
use candle_mind.Ledger.Rows.{Ledger, Env}
use candle_mind.Ledger.Enqueue.{now_or}
use candle_mind.Ledger.Lease.{
  expire_leases, recover_expired_leases, claim_row, claim_next, claimable_id, start, renew_lease,
  release_running_job,
}
use candle_mind.Ledger.Keeps.{
  After-lift, After-gets, After-raise_if, After-write, After-pure, After-fetch_job,
  After-fetch_then, After-transaction,
}
use candle_mind.Ledger.Exclusive.Kept.{
  Held, Held-update, Held-expire, not_claimed, Held-change, Held-require, not_same,
}
use candle_mind.Ledger.Exclusive.Kept.{Lease}

module _ (l : Lease) where
  open l use {i, owner, t, j, running, owned, until}

  pub Held-recover :
      (env : Env) (now : Option ℕ) (s : Ledger)
      → now_or env now < t
      → Held l s
      → Held l (recover_expired_leases env now s).1
  unfolding recover_expired_leases expire_leases
  Held-recover env now s early h = After-transaction (Held l) _ s h (
      After-gets (Held l) _ _ s (
        After-write (Held l) _ _ s
          (After-pure (Held l) _ _ (Held-expire l (now_or env now) s early h))))

  pub Held-claim_row :
      (worker : Text) (lease now : ℕ) (row : Option Job) (s : Ledger)
      → Held l s
      → Held l (claim_row worker lease now row s).1
  unfolding claim_row
  Held-claim_row worker lease now none s h = After-pure (Held l) none s h
  Held-claim_row worker lease now (some row) s h =
      let started =
        Held-update l (claimable_id row.id) (start worker (now + lease) now) s (λ k. refl)
          (not_claimed l row.id) h in
      After-gets (Held l) _ _ s (
        After-write (Held l) _ _ s (
          After-raise_if (Held l) _ _ _ _ started (λ _.
            After-fetch_then (Held l) row.id _ _ started
              (λ k. After-pure (Held l) (some k) _ started))))

  pub Held-claim :
      (env : Env) (worker : Text) (lease : ℤ) (lanes : Option (List JobLane))
      (network symbol : Option Text) (now : Option ℕ) (s : Ledger)
      → now_or env now < t
      → Held l s
      → Held l (claim_next env worker lease lanes network symbol now s).1
  unfolding claim_next expire_leases
  Held-claim env worker lease lanes network symbol now s early h =
      After-lift (Held l) _ _ s h λ o _. After-lift (Held l) _ _ s h λ duration _.
        After-raise_if (Held l) _ _ _ s h λ _. After-lift (Held l) _ _ s h λ scope _.
          After-transaction (Held l) _ s h (
            After-write (Held l) _ _ s (
              After-gets (Held l) _ _ _ (
                Held-claim_row o duration (now_or env now) _ _
                  (Held-expire l (now_or env now) s early h))))

  pub Held-renew :
      (env : Env) (k worker : Text) (lease : ℤ) (now : Option ℕ) (s : Ledger)
      → bounded_text worker 128 ≢ ok owner
      → Held l s
      → Held l (renew_lease env k worker lease now s).1
  unfolding renew_lease
  Held-renew env k worker lease now s stranger h = After-lift (Held l) _ _ s h λ id _.
      After-lift (Held l) _ _ s h λ w e. After-lift (Held l) _ _ s h λ duration _.
        After-transaction (Held l) _ s h (
          Held-require l id w _ _ s h λ row c. After-write (Held l) _ _ s (
            After-fetch_job (Held l) id _
              (Held-change l id w _ _ s row (λ x. refl) h (not_same l worker w stranger e) c)))

  pub Held-release :
      (env : Env) (k worker : Text) (state : JobState) (available : Option ℕ) (code : Text)
      (now : Option ℕ) (s : Ledger)
      → bounded_text worker 128 ≢ ok owner
      → Held l s
      → Held l (release_running_job env k worker state available code now s).1
  unfolding release_running_job
  Held-release env k worker state available code now s stranger h =
      After-lift (Held l) _ _ s h λ id _. After-lift (Held l) _ _ s h λ w e.
        After-lift (Held l) _ _ s h λ c' _. After-transaction (Held l) _ s h (
          Held-require l id w _ _ s h λ row c. After-write (Held l) _ _ s (
            After-fetch_job (Held l) id _
              (Held-change l id w _ _ s row (λ x. refl) h (not_same l worker w stranger e) c)))
