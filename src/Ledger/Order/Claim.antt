-- ===== src/Ledger/Order/Claim.antt =====
-- The whole effect of `claim_next`.
use candle_mind.Base.Int.{ℤ}
use candle_mind.Base.{
  ◌==◌, length, [], not, ◌∷◌, false, sym, subst, List, refl, none, arith, ◌∙◌, ◌+◌,
}
use candle_mind.Ledger.Contracts.{is_claimable, JobLane, Job, Result, ok, err, bounded_text}
use candle_mind.Ledger.Rows.{M, transaction, fetch_job, Ledger, Env, pure, set_jobs, job_at}
use candle_mind.Ledger.Enqueue.{now_or}
use candle_mind.Ledger.Lease.{
  lease_lapsed, release_lapsed, expire_leases, lanes_or_all, is_empty, positive_ms, optional_scope,
  claimable, best, claimable_id, start, claim_row, claim_next,
}
use candle_mind.Ledger.Steps.{
  step_ok, step_lift, step_write, step_gets, step_raise_if, fetch_job_ok,
}
use candle_mind.Ledger.Invariant.{IsValid}
use candle_mind.Ledger.Invariant.Jobs.{job_at-update}
use candle_mind.Ledger.Invariant.Leases.{expire-IsValid}
use candle_mind.Ledger.Order.{
  select, has_id, find, text_eq_refl, some, Option, true, ◌≡◌, Text, ℕ, Bool, Chosen, Claims,
  best-Chosen, select-one,
}

-- The ledger with the lapsed leases back in the queue.
abbrev pub expired_ledger : ℕ → Ledger → Ledger
expired_ledger now s = set_jobs (lease_lapsed now) (release_lapsed now) s

module _ (p : Job → Bool) (owner : Text) (lease_ms now : ℕ) (t : Ledger)
    (safe : (j : Job) → p j ≡ true → is_claimable j.state ≡ true) where
  started_row :
      (row : Job)
      → job_at row.id t ≡ some row
      → is_claimable row.state ≡ true
      → job_at row.id (set_jobs (claimable_id row.id) (start owner (now + lease_ms) now) t)
        ≡ some (start owner (now + lease_ms) now row)
  started_row row e c =
      job_at-update (claimable_id row.id) (start owner (now + lease_ms) now) (λ j. refl) row.id t
      ∙ rw e (ground (arith, text_eq_refl row.id))

  claim_row-some :
      (row : Job)
      → IsValid t
      → find (has_id row.id) t.jobs ≡ some row
      → p row ≡ true
      → claim_row owner lease_ms now (some row) t ≡ (
        ok (some (start owner (now + lease_ms) now row)),
        set_jobs (claimable_id row.id) (start owner (now + lease_ms) now) t,
      )
  unfolding claim_row job_at pure
  claim_row-some row v found ready =
      let t' : Ledger = set_jobs (claimable_id row.id) (start owner (now + lease_ms) now) t in
      let one = select-one t.jobs row v.distinct found (safe row ready) in
      step_gets _ _ t
      ∙ step_write _ _ t
      ∙ step_raise_if (not (length (select (claimable_id row.id) t.jobs) == 1)) _ _ t' (rw one)
      ∙ step_ok (fetch_job row.id) _ t' t' (start owner (now + lease_ms) now row)
          (fetch_job_ok row.id t' _ (started_row row found (safe row ready)))

  claim_row-Claims :
      (o : Option Job)
      → IsValid t
      → Chosen p t.jobs o
      → Claims p owner (now + lease_ms) now t (claim_row owner lease_ms now o t)
  claim_row-Claims none v c = unfold claim_row pure in (c, refl)
  claim_row-Claims (some row) v c =
      subst (Claims p owner (now + lease_ms) now t) (sym (claim_row-some row v c.1 c.0))
        (row, unfold job_at in c.1, c.0, c.2, refl, refl)

claimable-is_claimable :
    (now : ℕ) (lanes : List JobLane) (scope : Option (Text × Text)) (j : Job)
    → claimable now lanes scope j ≡ true
    → is_claimable j.state ≡ true
unfolding claimable
claimable-is_claimable now lanes scope j h = ground arith

lanes_or_all-ne : (lanes : Option (List JobLane)) → is_empty (lanes_or_all lanes) ≡ false
unfolding lanes_or_all
lanes_or_all-ne none = refl
lanes_or_all-ne (some []) = refl
lanes_or_all-ne (some (l ∷ ls)) = refl

Claims-transaction :
    (p : Job → Bool) (owner : Text) (expires now : ℕ) (t : Ledger) (m : M (Option Job)) (s : Ledger)
    → Claims p owner expires now t (m s)
    → Claims p owner expires now t (transaction m s)
unfolding transaction
Claims-transaction p owner expires now t m s = go (m s)
  where
    go :
        (r : Result (Option Job) × Ledger)
        → Claims p owner expires now t r
        → Claims p owner expires now t (r.0, elim r.0 as (λ _. Ledger) [ ok _ ↦ r.1 | err _ ↦ s ])
    go (ok none, s') h = h
    go (ok (some j), s') h = h
    go (err e, s') h = h

-- With a worker's name, a duration and a scope that pass the checks, `claim_next` does not raise.
-- Once the lapsed leases are back in the queue, either no job may be claimed, and nothing else
-- changes; or a job that may be claimed, and before which no such job comes in the order by priority
-- and age, gets the worker, one more attempt and a lease of that duration, and is returned; no other
-- row changes.
pub claim_next-Claims :
    (env : Env) (worker : Text) (lease_ms : ℤ) (lanes : Option (List JobLane))
    (network symbol : Option Text) (now_ms : Option ℕ) (s : Ledger) {owner : Text} {d : ℕ}
    {scope : Option (Text × Text)}
    → IsValid s
    → bounded_text worker 128 ≡ ok owner
    → positive_ms lease_ms ≡ ok d
    → optional_scope network symbol ≡ ok scope
    → let now = now_or env now_ms in
      Claims
        (claimable now (lanes_or_all lanes) scope)
        owner
        (now + d)
        now
        (expired_ledger now s)
        (claim_next env worker lease_ms lanes network symbol now_ms s)
unfolding claim_next expire_leases
claim_next-Claims env worker lease_ms lanes network symbol now_ms s {owner} {d} {scope} v w l n =
    let now = now_or env now_ms in
    let t : Ledger = expired_ledger now s in
    let p : Job → Bool = claimable now (lanes_or_all lanes) scope in
    let tv = expire-IsValid now s v in
    let checked =
      step_lift (bounded_text worker 128) _ s w
      ∙ step_lift (positive_ms lease_ms) _ s l
      ∙ step_raise_if (is_empty (lanes_or_all lanes)) _ _ s (lanes_or_all-ne lanes)
      ∙ step_lift (optional_scope network symbol) _ s n in
    subst (Claims p owner (now + d) now t) (sym checked) (
      Claims-transaction p owner (now + d) now t _ s (
        subst (Claims p owner (now + d) now t)
          (sym (step_write _ _ s ∙ step_gets (λ x. best p x.jobs) _ t))
          (claim_row-Claims p owner d now t (claimable-is_claimable now (lanes_or_all lanes) scope)
            (best p t.jobs) tv (best-Chosen p t.jobs tv.distinct))))
