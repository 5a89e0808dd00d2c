-- ===== src/Ledger/Outbox/Leases.antt =====
-- Claiming, renewing and giving back a lease leave the outbox as it is.
use candle_mind.Base.Int.{ℤ}
use candle_mind.Base.Text.{Text}
use candle_mind.Base.{none, some, List, Option, some, ℕ}
use candle_mind.Ledger.Contracts.{Event, JobLane, JobState, Job}
use candle_mind.Ledger.Rows.{Ledger, Env}
use candle_mind.Ledger.Enqueue.{now_or}
use candle_mind.Ledger.Lease.{
  expire_leases, recover_expired_leases, claim_row, claim_next, renew_lease, release_running_job,
}
use candle_mind.Ledger.Keeps.{
  After-lift, After-gets, After-raise_if, After-write, After-pure, After-fetch_job,
  After-fetch_then, After-transaction,
}
use candle_mind.Ledger.Lease.{check_lease, require_running_lease}
use candle_mind.Ledger.Rows.{M, job_at, ◌>>=◌}

module _ (Q : List Event → Type 0) where
  -- A predicate of the outbox.
  abbrev pub Held : Ledger → Type 0
  Held s = Q s.outbox

  pub Held-require :
      {B : Type 0} (k worker : Text) (now : ℕ) (m : Job → M B) (s : Ledger)
      → Held s
      → ((row : Job) → Held (m row s).1)
      → Held ((require_running_lease k worker now >>= m) s).1
  unfolding require_running_lease ◌>>=◌
  Held-require k worker now m s h f =
      After-lift Held (check_lease worker now (job_at k s)) m s h (λ row _. f row)

  pub Held-recover :
      (env : Env) (now : Option ℕ) (s : Ledger) → Held s → Held (recover_expired_leases env now s).1
  unfolding recover_expired_leases expire_leases
  Held-recover env now s h =
      After-transaction Held _ s h
        (After-gets Held _ _ s (After-write Held _ _ s (After-pure Held _ _ h)))

  pub Held-claim_row :
      (worker : Text) (lease now : ℕ) (row : Option Job) (s : Ledger)
      → Held s
      → Held (claim_row worker lease now row s).1
  unfolding claim_row
  Held-claim_row worker lease now none s h = After-pure Held none s h
  Held-claim_row worker lease now (some row) s h = After-gets Held _ _ s (
      After-write Held _ _ s (
        After-raise_if Held _ _ _ _ h
          (λ _. After-fetch_then Held row.id _ _ h (λ k. After-pure Held (some k) _ h))))

  pub Held-claim :
      (env : Env) (worker : Text) (lease : ℤ) (lanes : Option (List JobLane))
      (network symbol : Option Text) (now : Option ℕ) (s : Ledger)
      → Held s
      → Held (claim_next env worker lease lanes network symbol now s).1
  unfolding claim_next expire_leases
  Held-claim env worker lease lanes network symbol now s h = After-lift Held _ _ s h λ o _.
      After-lift Held _ _ s h λ duration _. After-raise_if Held _ _ _ s h λ _.
        After-lift Held _ _ s h λ scope _. After-transaction Held _ s h (
          After-write Held _ _ s
            (After-gets Held _ _ _ (Held-claim_row o duration (now_or env now) _ _ h)))

  pub Held-renew :
      (env : Env) (k worker : Text) (lease : ℤ) (now : Option ℕ) (s : Ledger)
      → Held s
      → Held (renew_lease env k worker lease now s).1
  unfolding renew_lease
  Held-renew env k worker lease now s h = After-lift Held _ _ s h λ id _.
      After-lift Held _ _ s h λ w e. After-lift Held _ _ s h λ duration _.
        After-transaction Held _ s h
          (Held-require id w _ _ s h λ row. After-write Held _ _ s (After-fetch_job Held id _ h))

  pub Held-release :
      (env : Env) (k worker : Text) (state : JobState) (available : Option ℕ) (code : Text)
      (now : Option ℕ) (s : Ledger)
      → Held s
      → Held (release_running_job env k worker state available code now s).1
  unfolding release_running_job
  Held-release env k worker state available code now s h = After-lift Held _ _ s h λ id _.
      After-lift Held _ _ s h λ w e. After-lift Held _ _ s h λ c' _.
        After-transaction Held _ s h
          (Held-require id w _ _ s h λ row. After-write Held _ _ s (After-fetch_job Held id _ h))
