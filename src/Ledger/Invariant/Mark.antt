-- ===== src/Ledger/Invariant/Mark.antt =====
-- market_agent_queue_store.py: `mark_event_published` and the invariant.
use candle_mind.Ledger.Invariant.Publish.{sequence-event_at, job_id-event_of}
use candle_mind.Base.Text.{text_eq_iff}
use candle_mind.Base.{
  Bool-cases, get_or, ◌∙◌, sym, Option, arith, ◌<◌, inr, inl, none, refl, ==_iff,
}
use candle_mind.Base.Table.{find-update_where, change, opt_change}
use candle_mind.Ledger.Contracts.{Job, Event}
use candle_mind.Ledger.Rows.{
  Ledger, Env, for_job, has_sequence, job_at, event_of, event_at, set_jobs, set_events,
}
use candle_mind.Ledger.Enqueue.{now_or}
use candle_mind.Ledger.Publish.{
  publish_event, publish_job, finished_id, publish_row, mark_event_published,
}
use candle_mind.Ledger.Keeps.{
  After-gets, After-write, After-raise, After-transaction, After-fetch_event_at,
}
use candle_mind.Ledger.Invariant.{true, some, ◌≡◌, ℕ, Text, IsValid, lease_check, linked}
use candle_mind.Ledger.Invariant.Jobs.{Distinct-update, job_at-update, lease-change, id-job_at}
use candle_mind.Ledger.Invariant.Leases.{lease_at}

-- The events of the ledger after a publication.
module _ (n published : ℕ) (s : Ledger) where
  abbrev pub sent : Text → Ledger
  sent i =
      set_jobs (finished_id i) (publish_job published)
        (set_events (has_sequence n) (publish_event published) s)

  same_job_id :
      (k : Text) (e : Event)
      → for_job k (change (has_sequence n) (publish_event published) e) ≡ for_job k e
  same_job_id k e = elim (Bool-cases (has_sequence n e)) [ inl h ↦ rw h | inr h ↦ rw h ]

  same_sequence :
      (m : ℕ) (e : Event)
      → has_sequence m (change (has_sequence n) (publish_event published) e) ≡ has_sequence m e
  same_sequence m e = elim (Bool-cases (has_sequence n e)) [ inl h ↦ rw h | inr h ↦ rw h ]

  event_of-sent :
      (i k : Text)
      → event_of k (sent i) ≡ opt_change (has_sequence n) (publish_event published) (event_of k s)
  unfolding event_of
  event_of-sent i k =
      find-update_where (for_job k) (has_sequence n) (publish_event published) s.outbox
        (same_job_id k)

  event_at-sent :
      (i : Text) (m : ℕ)
      → event_at m (sent i) ≡ opt_change (has_sequence n) (publish_event published) (event_at m s)
  unfolding event_at
  event_at-sent i m =
      find-update_where (has_sequence m) (has_sequence n) (publish_event published) s.outbox
        (same_sequence m)

  job_at-sent :
      (i k : Text)
      → job_at k (sent i) ≡ opt_change (finished_id i) (publish_job published) (job_at k s)
  unfolding job_at
  job_at-sent i k =
      unfold job_at in job_at-update (finished_id i) (publish_job published) (λ j. refl) k s

module _ (n published : ℕ) (s : Ledger) (v : IsValid s) (row : Event)
    (found : event_at n s ≡ some row) where
  linked-sent :
      (k : Text) (o : Option Job) (e : Option Event)
      → job_at k s ≡ o
      → event_of k s ≡ e
      → linked o e ≡ true
      → linked
          (opt_change (finished_id row.job_id) (publish_job published) o)
          (opt_change (has_sequence n) (publish_event published) e)
        ≡ true
  linked-sent k none none p q h = refl
  linked-sent k none (some e) p q h = cc
  linked-sent k (some j) none p q h = ground arith
  linked-sent k (some j) (some e) p q h = ground (
    arith,
    id-job_at k s j p,
    job_id-event_of k s e q,
    v.by_job k e q,
    v.by_sequence n row found,
    sequence-event_at n s row found,
    text_eq_iff j.id row.job_id,
    ==_iff e.sequence n,
  )

  lease-sent :
      (j : Job)
      → lease_check j ≡ true
      → finished_id row.job_id j ≡ true
      → lease_check (publish_job published j) ≡ true
  lease-sent j c h = ground arith

  by_sequence-sent :
      (m : ℕ) (e : Event)
      → event_at m (sent n published s row.job_id) ≡ some e
      → event_of e.job_id (sent n published s row.job_id) ≡ some e
  by_sequence-sent m e h =
      rw (event_of-sent n published s row.job_id e.job_id)
        (by_cases (event_at m s) refl (sym (event_at-sent n published s row.job_id m) ∙ h))
    where
      by_cases :
          (o : Option Event)
          → event_at m s ≡ o
          → opt_change (has_sequence n) (publish_event published) o ≡ some e
          → opt_change (has_sequence n) (publish_event published) (event_of e.job_id s) ≡ some e
      by_cases none p q = cc
      by_cases (some d) p q = ground (arith, v.by_sequence m d p)

  by_job-sent :
      (k : Text) (e : Event)
      → event_of k (sent n published s row.job_id) ≡ some e
      → event_at e.sequence (sent n published s row.job_id) ≡ some e
  by_job-sent k e h =
      rw (event_at-sent n published s row.job_id e.sequence)
        (by_cases (event_of k s) refl (sym (event_of-sent n published s row.job_id k) ∙ h))
    where
      by_cases :
          (o : Option Event)
          → event_of k s ≡ o
          → opt_change (has_sequence n) (publish_event published) o ≡ some e
          → opt_change (has_sequence n) (publish_event published) (event_at e.sequence s) ≡ some e
      by_cases none p q = cc
      by_cases (some d) p q = ground (arith, v.by_job k d p)

  fresh-sent :
      (m : ℕ) (e : Event)
      → event_at m (sent n published s row.job_id) ≡ some e
      → m < s.next_sequence
  fresh-sent m e h =
      by_cases (event_at m s) refl (sym (event_at-sent n published s row.job_id m) ∙ h)
    where
      by_cases :
          (o : Option Event)
          → event_at m s ≡ o
          → opt_change (has_sequence n) (publish_event published) o ≡ some e
          → m < s.next_sequence
      by_cases none p q = cc
      by_cases (some d) p q = v.fresh m d p

  pub sent-IsValid : IsValid (sent n published s row.job_id)
  sent-IsValid = record {
    distinct =
        Distinct-update (finished_id row.job_id) (publish_job published) (λ j. refl) s.jobs
          v.distinct;
    leased = λ k. rw (job_at-sent n published s row.job_id k) (
        lease-change (finished_id row.job_id) (publish_job published) (λ j. refl) (job_at k s)
          (v.leased k) (λ j e h. lease-sent j (lease_at s v k j e) h));
    links = λ k.
        rw (job_at-sent n published s row.job_id k, event_of-sent n published s row.job_id k)
          (linked-sent k (job_at k s) (event_of k s) refl refl (v.links k));
    by_sequence = by_sequence-sent;
    by_job = by_job-sent;
    fresh = fresh-sent;
  }

publish_row-IsValid :
    (n now : ℕ) (found : Option Event) (s : Ledger)
    → event_at n s ≡ found
    → IsValid s
    → IsValid (publish_row n now found s).1
unfolding publish_row
publish_row-IsValid n now none s e v = After-raise IsValid _ _ s v
publish_row-IsValid n now (some row) s e v = After-write IsValid _ _ s (
    After-write IsValid _ _ _ (
      After-fetch_event_at IsValid n _ (sent-IsValid n (get_or row.published_at_ms now) s v row e)))

pub mark_event_published-IsValid :
    (env : Env) (n : ℕ) (now_ms : Option ℕ) (s : Ledger)
    → IsValid s
    → IsValid (mark_event_published env n now_ms s).1
unfolding mark_event_published
mark_event_published-IsValid env n now_ms s v =
    After-transaction IsValid _ s v
      (After-gets IsValid _ _ s (publish_row-IsValid n (now_or env now_ms) _ s refl v))
