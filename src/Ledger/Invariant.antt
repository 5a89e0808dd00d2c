-- ===== src/Ledger/Invariant.antt =====
-- The invariant of the ledger: what the CHECK, UNIQUE and REFERENCES clauses of the schema say,
-- and that a job has an event exactly when it has completed.
pub mod Jobs
pub mod Leases
pub mod Enqueue
pub mod Publish
pub mod Complete
pub mod Mark
pub mod History
use candle_mind.Base.{
  ℕ, ◌<◌, ◌≡◌, Bool, true, false, not, ◌&&◌, ◌||◌, Option, none, some, List, [], ◌∷◌, is_some,
}
use candle_mind.Base.Text.{Text}
use candle_mind.Base.Table.{find}
use candle_mind.Ledger.Contracts.{JobState, Job, Event, is_running}
use candle_mind.Ledger.Rows.{Ledger, has_id, job_at, event_of, event_at}
use candle_mind.Ledger.Publish.{has_outcome}

-- CHECK((state = 'running' AND … IS NOT NULL) OR (state != 'running' AND … IS NULL))
abbrev pub lease_check : Job → Bool
lease_check j =
    (is_running j.state && (is_some j.lease_owner && is_some j.lease_expires_at_ms))
    || (not (is_running j.state)
        && (not (is_some j.lease_owner) && not (is_some j.lease_expires_at_ms)))

abbrev pub lease_check? : Option Job → Bool
lease_check? none = true
lease_check? (some j) = lease_check j

-- A completed job has an event that waits, a published job one that went out, and no other has one.
abbrev pub published_state : JobState → Bool → Bool
published_state JobState.completed out = not out
published_state JobState.published out = out
published_state _ out = false

abbrev pub linked : Option Job → Option Event → Bool
linked none none = true
linked none (some e) = false
linked (some j) none = not (has_outcome j.state)
linked (some j) (some e) = published_state j.state (is_some e.published_at_ms)

-- PRIMARY KEY
abbrev pub Distinct : List Job → Type 0
Distinct [] = Unit
Distinct (j ∷ js) = (find (has_id j.id) js ≡ none) × Distinct js

pub record IsValid (s : Ledger) : Type 0 where
  pub distinct : Distinct s.jobs
  pub leased : (i : Text) → lease_check? (job_at i s) ≡ true
  pub links : (i : Text) → linked (job_at i s) (event_of i s) ≡ true
  pub by_sequence : (n : ℕ) (e : Event) → event_at n s ≡ some e → event_of e.job_id s ≡ some e
  pub by_job : (i : Text) (e : Event) → event_of i s ≡ some e → event_at e.sequence s ≡ some e
  pub fresh : (n : ℕ) (e : Event) → event_at n s ≡ some e → n < s.next_sequence
