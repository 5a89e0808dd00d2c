-- ===== src/Ledger/Exclusive/Kept.antt =====
-- The row of a job under a lease, and the steps that leave it as it is.
use candle_mind.Base.Text.{text_eq_iff, Text}
use candle_mind.Base.{
  some, ap, sym, inl, inr, arith, refl, Bool-cases, ◌∙◌, Bool, false, some, true, ◌≡◌, ◌<◌, ◌≢◌, ℕ,
}
use candle_mind.Base.Table.{find-append}
use candle_mind.Ledger.Contracts.{Job, ok, is_running, is_claimable, bounded_text}
use candle_mind.Ledger.Rows.{Ledger, M, ◌>>=◌, has_id, job_at, set_jobs}
use candle_mind.Ledger.Enqueue.{add_job}
use candle_mind.Ledger.Lease.{
  lease_lapsed, release_lapsed, claimable_id, check_lease, require_running_lease,
}
use candle_mind.Ledger.Keeps.{After-lift}
use candle_mind.Ledger.Invariant.Jobs.{id-job_at, job_at-update}

-- A job that runs under a lease of `owner` until `t`.
pub record Lease : Type 0 where
  pub i : Text
  pub owner : Text
  pub t : ℕ
  pub j : Job
  pub running : is_running j.state ≡ true
  pub owned : j.lease_owner ≡ some owner
  pub until : j.lease_expires_at_ms ≡ some t

module _ (l : Lease) where
  open l use {i, owner, t, j, running, owned, until}

  abbrev pub Held : Ledger → Type 0
  Held s = job_at i s ≡ some j

  pub Held-update :
      (p : Job → Bool) (f : Job → Job) (s : Ledger)
      → ((k : Job) → (f k).id ≡ k.id)
      → p j ≡ false
      → Held s
      → Held (set_jobs p f s)
  Held-update p f s same miss h = job_at-update p f same i s ∙ (rw (h, miss))

  pub not_lapsed : (now : ℕ) → now < t → lease_lapsed now j ≡ false
  not_lapsed now h = ground arith

  pub Held-expire :
      (now : ℕ) (s : Ledger)
      → now < t
      → Held s
      → Held (set_jobs (lease_lapsed now) (release_lapsed now) s)
  Held-expire now s early h = Held-update _ _ s (λ k. refl) (not_lapsed now early) h

  pub not_claimable : is_claimable j.state ≡ false
  not_claimable = ground arith

  pub not_claimed : (k : Text) → claimable_id k j ≡ false
  not_claimed k = ground arith

  pub Held-add : (s : Ledger) (k : Job) → Held s → Held (add_job k s)
  unfolding job_at
  Held-add s k h = find-append (has_id i) s.jobs k ∙ (rw h)

  pub holder_only :
      (worker : Text) (now : ℕ) (row : Job)
      → check_lease worker now (some j) ≡ ok row
      → worker ≡ owner
  unfolding check_lease
  holder_only worker now row c = ground (arith, text_eq_iff owner worker)

  -- A worker that passes the lease check without being `owner` has another job.
  pub other_id :
      (k worker : Text) (now : ℕ) (s : Ledger) (row : Job)
      → Held s
      → (worker ≢ owner)
      → check_lease worker now (job_at k s) ≡ ok row
      → has_id k j ≡ false
  other_id k worker now s row h stranger c = elim (Bool-cases (has_id k j)) [
    | inr e ↦ e
    | inl e ↦
        let same : k ≡ i = sym ((text_eq_iff j.id k).0 e) ∙ id-job_at i s j h in
        let at_k : job_at k s ≡ some j = rw same h in
        absurd (stranger (holder_only worker now row (rw at_k at c)))
  ]

  pub Held-change :
      (k worker : Text) (now : ℕ) (f : Job → Job) (s : Ledger) (row : Job)
      → ((x : Job) → (f x).id ≡ x.id)
      → Held s
      → (worker ≢ owner)
      → check_lease worker now (job_at k s) ≡ ok row
      → Held (set_jobs (has_id k) f s)
  Held-change k worker now f s row same h stranger c =
      Held-update (has_id k) f s same (other_id k worker now s row h stranger c) h

  pub Held-require :
      {B : Type 0} (k worker : Text) (now : ℕ) (m : Job → M B) (s : Ledger)
      → Held s
      → ((row : Job) → check_lease worker now (job_at k s) ≡ ok row → Held (m row s).1)
      → Held ((require_running_lease k worker now >>= m) s).1
  unfolding require_running_lease ◌>>=◌
  Held-require k worker now m s h f = After-lift Held (check_lease worker now (job_at k s)) m s h f

  pub not_same :
      (worker w : Text)
      → bounded_text worker 128 ≢ ok owner
      → bounded_text worker 128 ≡ ok w
      → w ≢ owner
  not_same worker w stranger e q = stranger (e ∙ ap (λ (x : Text). ok x) q)
