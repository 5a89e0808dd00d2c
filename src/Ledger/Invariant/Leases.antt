-- ===== src/Ledger/Invariant/Leases.antt =====
-- The lease operations keep the invariant.
use candle_mind.Base.{false, ℕ, ◌+◌, ◌≡◌, refl, true, Option, none, some, List, arith}
use candle_mind.Base.Text.{Text}
use candle_mind.Base.Int.{ℤ}
use candle_mind.Ledger.Contracts.{JobLane, JobState, Job, ok, is_running}
use candle_mind.Ledger.Rows.{M, ◌>>=◌, Ledger, Env, has_id, job_at, set_jobs}
use candle_mind.Ledger.Enqueue.{now_or}
use candle_mind.Ledger.Lease.{
  lease_lapsed, release_lapsed, expire_leases, recover_expired_leases, claim_row, claim_next,
  claimable_id, start, check_lease, require_running_lease, renew, renew_lease, release,
  release_running_job,
}
use candle_mind.Ledger.Publish.{has_outcome}
use candle_mind.Ledger.Keeps.{
  After-lift, After-gets, After-fetch_then, After-raise_if, After-write, After-pure,
  After-fetch_job, After-transaction,
}
use candle_mind.Ledger.Invariant.{lease_check, IsValid}
use candle_mind.Ledger.Invariant.Jobs.{same_row, Fits, update-IsValid}

lapsed-Fits : (now : ℕ) (j : Job) → lease_lapsed now j ≡ true → Fits j (release_lapsed now j)
lapsed-Fits now j h = ground arith

pub expire-IsValid :
    (now : ℕ) (s : Ledger)
    → IsValid s
    → IsValid (set_jobs (lease_lapsed now) (release_lapsed now) s)
expire-IsValid now s v =
    update-IsValid (lease_lapsed now) (release_lapsed now) (λ j. refl) s v
      (λ i j e h. lapsed-Fits now j h)

pub recover_expired_leases-IsValid :
    (env : Env) (now_ms : Option ℕ) (s : Ledger)
    → IsValid s
    → IsValid (recover_expired_leases env now_ms s).1
unfolding recover_expired_leases expire_leases
recover_expired_leases-IsValid env now_ms s v = After-transaction IsValid _ s v (
    After-gets IsValid _ _ s
      (After-write IsValid _ _ s (After-pure IsValid _ _ (expire-IsValid (now_or env now_ms) s v))))

start-Fits :
    (i owner : Text) (expires now : ℕ) (j : Job)
    → claimable_id i j ≡ true
    → Fits j (start owner expires now j)
start-Fits i owner expires now j h = ground arith

claim_row-IsValid :
    (owner : Text) (lease_ms now : ℕ) (row : Option Job) (s : Ledger)
    → IsValid s
    → IsValid (claim_row owner lease_ms now row s).1
unfolding claim_row
claim_row-IsValid owner lease_ms now none s v = After-pure IsValid none s v
claim_row-IsValid owner lease_ms now (some row) s v =
    let started =
      update-IsValid (claimable_id row.id) (start owner (now + lease_ms) now) (λ j. refl) s v
        (λ i j e h. start-Fits row.id owner (now + lease_ms) now j h) in
    After-gets IsValid _ _ s (
      After-write IsValid _ _ s (
        After-raise_if IsValid _ _ _ _ started (λ _.
          After-fetch_then IsValid row.id _ _ started
            (λ j. After-pure IsValid (some j) _ started))))

pub claim_next-IsValid :
    (env : Env) (worker : Text) (lease_ms : ℤ) (lanes : Option (List JobLane))
    (network symbol : Option Text) (now_ms : Option ℕ) (s : Ledger)
    → IsValid s
    → IsValid (claim_next env worker lease_ms lanes network symbol now_ms s).1
unfolding claim_next expire_leases
claim_next-IsValid env worker lease_ms lanes network symbol now_ms s v =
    After-lift IsValid _ _ s v λ owner _. After-lift IsValid _ _ s v λ duration _.
      After-raise_if IsValid _ _ _ s v λ _. After-lift IsValid _ _ s v λ scope _.
        After-transaction IsValid _ s v (
          After-write IsValid _ _ s (
            After-gets IsValid _ _ _ (
              claim_row-IsValid owner duration (now_or env now_ms) _ _
                (expire-IsValid (now_or env now_ms) s v))))

-- The row that a lease check accepts is the running row of that id.
pub check_lease-ok :
    (worker : Text) (now : ℕ) (o : Option Job) (row : Job)
    → check_lease worker now o ≡ ok row
    → (o ≡ some row) × (is_running row.state ≡ true)
unfolding check_lease
check_lease-ok worker now none row h = cc
check_lease-ok worker now (some r) row h = ground arith

-- Every row of that id is running then.
running_row :
    (i worker : Text) (now : ℕ) (s : Ledger) (row : Job) (k : Text) (j : Job)
    → check_lease worker now (job_at i s) ≡ ok row
    → job_at k s ≡ some j
    → has_id i j ≡ true
    → is_running j.state ≡ true
running_row i worker now s row k j c e h =
    let found = check_lease-ok worker now (job_at i s) row c in
    rw (same_row i k s row j found.0 e h) found.1

renew-Fits :
    (expires now : ℕ) (j : Job)
    → is_running j.state ≡ true
    → lease_check j ≡ true
    → Fits j (renew expires now j)
renew-Fits expires now j h c = ground arith

release-Fits :
    (state : JobState) (available : ℕ) (code : Text) (now : ℕ) (completed : Option ℕ) (j : Job)
    → is_running state ≡ false
    → has_outcome state ≡ false
    → is_running j.state ≡ true
    → Fits j (release state available code now completed j)
release-Fits state available code now completed j h k c = ground arith

pub require-IsValid :
    {B : Type 0} (i worker : Text) (now : ℕ) (k : Job → M B) (s : Ledger)
    → IsValid s
    → ((row : Job) → check_lease worker now (job_at i s) ≡ ok row → IsValid (k row s).1)
    → IsValid ((require_running_lease i worker now >>= k) s).1
unfolding require_running_lease ◌>>=◌
require-IsValid i worker now k s v f =
    After-lift IsValid (check_lease worker now (job_at i s)) k s v f

pub lease_at :
    (s : Ledger) → IsValid s → (k : Text) (j : Job) → job_at k s ≡ some j → lease_check j ≡ true
lease_at s v k j e = ground (arith, v.leased k)

pub renew_lease-IsValid :
    (env : Env) (i worker : Text) (lease_ms : ℤ) (now_ms : Option ℕ) (s : Ledger)
    → IsValid s
    → IsValid (renew_lease env i worker lease_ms now_ms s).1
unfolding renew_lease
renew_lease-IsValid env i worker lease_ms now_ms s v = After-lift IsValid _ _ s v λ id _.
    After-lift IsValid _ _ s v λ owner _. After-lift IsValid _ _ s v λ duration _.
      After-transaction IsValid _ s v (
        require-IsValid id owner _ _ s v λ row c. After-write IsValid _ _ s (
          After-fetch_job IsValid id _ (
            update-IsValid (has_id id) _ (λ j. refl) s v
              λ k j e h.
                renew-Fits _ _ j (running_row id owner _ s row k j c e h) (lease_at s v k j e))))

pub release_running_job-IsValid :
    (env : Env) (i worker : Text) (state : JobState) (available : Option ℕ) (error_code : Text)
    (now_ms : Option ℕ) (s : Ledger)
    → is_running state ≡ false
    → has_outcome state ≡ false
    → IsValid s
    → IsValid (release_running_job env i worker state available error_code now_ms s).1
unfolding release_running_job
release_running_job-IsValid env i worker state available error_code now_ms s idle ended v =
    After-lift IsValid _ _ s v λ id _. After-lift IsValid _ _ s v λ owner _.
      After-lift IsValid _ _ s v λ code _. After-transaction IsValid _ s v (
        require-IsValid id owner _ _ s v λ row c. After-write IsValid _ _ s (
          After-fetch_job IsValid id _ (
            update-IsValid (has_id id) _ (λ j. refl) s v
              λ k j e h.
                release-Fits state _ code _ _ j idle ended
                  (running_row id owner _ s row k j c e h))))
