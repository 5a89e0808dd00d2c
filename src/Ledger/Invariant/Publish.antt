-- ===== src/Ledger/Invariant/Publish.antt =====
-- Completing a job and publishing its event keep the invariant.
use candle_mind.Base.Text.{text_eq_refl, text_eq_iff}
use candle_mind.Base.{
  ◌∙◌, sym, ◌+◌, Option, arith, ◌<◌, inr, inl, if◌then◌else◌, Option-cases, or_else, none, refl,
  ==_iff,
}
use candle_mind.Base.Table.{find_sound, find-append, opt_change}
use candle_mind.Ledger.Contracts.{Job, Event, is_running}
use candle_mind.Ledger.Rows.{
  Ledger, has_id, for_job, has_sequence, job_at, event_of, event_at, set_jobs,
}
use candle_mind.Ledger.Publish.{complete, Completion, new_event, add_event}
use candle_mind.Ledger.Invariant.{true, some, List, ◌≡◌, ℕ, Text, IsValid, lease_check, linked}
use candle_mind.Ledger.Invariant.Jobs.{Distinct-update, job_at-update, lease-change, id-job_at}

pub job_id-event_of : (i : Text) (s : Ledger) (e : Event) → event_of i s ≡ some e → e.job_id ≡ i
unfolding event_of
job_id-event_of i s e h = (text_eq_iff e.job_id i).0 (find_sound (for_job i) s.outbox h)

pub sequence-event_at : (n : ℕ) (s : Ledger) (e : Event) → event_at n s ≡ some e → e.sequence ≡ n
unfolding event_at
sequence-event_at n s e h = (==_iff e.sequence n).0 (find_sound (has_sequence n) s.outbox h)

-- The ledger after a completion: the job is completed, and its event stands last in the outbox.
abbrev pub completed : Text → Job → Completion → List Text → ℕ → Ledger → Ledger
completed i row c reasons now s =
    add_event row c reasons now (set_jobs (has_id i) (complete c.result now) s)

module _ (i : Text) (row : Job) (c : Completion) (reasons : List Text) (now : ℕ) (s : Ledger)
    (v : IsValid s) (found : job_at i s ≡ some row) (running : is_running row.state ≡ true) where
  abbrev event : Event
  event = new_event s.next_sequence row c reasons now

  row_id : row.id ≡ i
  row_id = id-job_at i s row found

  -- A running job has no event yet.
  pub no_event : event_of i s ≡ none
  no_event = ground (arith, v.links i)

  no_sequence : event_at s.next_sequence s ≡ none
  no_sequence = elim (Option-cases (event_at s.next_sequence s)) [
    | inl e ↦ e
    | inr (e, h) ↦ absurd (omega (arith, v.fresh s.next_sequence e h))
  ]

  pub event_of-completed :
      (k : Text)
      → event_of k (completed i row c reasons now s)
        ≡ or_else (event_of k s) (if for_job k event then some event else none)
  unfolding event_of
  event_of-completed k = find-append (for_job k) s.outbox event

  pub event_at-completed :
      (n : ℕ)
      → event_at n (completed i row c reasons now s)
        ≡ or_else (event_at n s) (if has_sequence n event then some event else none)
  unfolding event_at
  event_at-completed n = find-append (has_sequence n) s.outbox event

  pub job_at-completed :
      (k : Text)
      → job_at k (completed i row c reasons now s)
        ≡ opt_change (has_id i) (complete c.result now) (job_at k s)
  unfolding job_at
  job_at-completed k =
      unfold job_at in job_at-update (has_id i) (complete c.result now) (λ j. refl) k s

  -- The row and the event of one id, after the completion.
  linked-completed :
      (k : Text) (o : Option Job) (e : Option Event)
      → job_at k s ≡ o
      → event_of k s ≡ e
      → linked o e ≡ true
      → linked
          (opt_change (has_id i) (complete c.result now) o)
          (or_else e (if for_job k event then some event else none))
        ≡ true
  linked-completed k none none p q h = ground (arith, text_eq_iff row.id k, row_id)
  linked-completed k none (some e) p q h = cc
  linked-completed k (some j) none p q h =
      ground (arith, id-job_at k s j p, text_eq_iff row.id k, text_eq_iff j.id i, row_id)
  linked-completed k (some j) (some e) p q h =
      ground (arith, id-job_at k s j p, text_eq_iff j.id i, no_event)

  lease-completed : (j : Job) → has_id i j ≡ true → lease_check (complete c.result now j) ≡ true
  lease-completed j h = refl

  completed-by_sequence :
      (n : ℕ) (e : Event)
      → event_at n (completed i row c reasons now s) ≡ some e
      → event_of e.job_id (completed i row c reasons now s) ≡ some e
  completed-by_sequence n e h =
      rw (event_of-completed e.job_id)
        (by_cases (event_at n s) refl (sym (event_at-completed n) ∙ h))
    where
      by_cases :
          (o : Option Event)
          → event_at n s ≡ o
          → or_else (event_at n s) (if has_sequence n event then some event else none) ≡ some e
          → or_else (event_of e.job_id s) (if for_job e.job_id event then some event else none)
            ≡ some e
      by_cases none p q = ground (arith, no_event, text_eq_refl row.id, row_id)
      by_cases (some d) p q = ground (arith, v.by_sequence n d p)

  completed-by_job :
      (k : Text) (e : Event)
      → event_of k (completed i row c reasons now s) ≡ some e
      → event_at e.sequence (completed i row c reasons now s) ≡ some e
  completed-by_job k e h =
      rw (event_at-completed e.sequence)
        (by_cases (event_of k s) refl (sym (event_of-completed k) ∙ h))
    where
      by_cases :
          (o : Option Event)
          → event_of k s ≡ o
          → or_else (event_of k s) (if for_job k event then some event else none) ≡ some e
          → or_else
              (event_at e.sequence s)
              (if has_sequence e.sequence event then some event else none)
            ≡ some e
      by_cases none p q = ground (arith, no_sequence)
      by_cases (some d) p q = ground (arith, v.by_job k d p)

  completed-fresh :
      (n : ℕ) (e : Event)
      → event_at n (completed i row c reasons now s) ≡ some e
      → n < s.next_sequence + 1
  completed-fresh n e h = by_cases (event_at n s) refl (sym (event_at-completed n) ∙ h)
    where
      by_cases :
          (o : Option Event)
          → event_at n s ≡ o
          → or_else (event_at n s) (if has_sequence n event then some event else none) ≡ some e
          → n < s.next_sequence + 1
      by_cases none p q = ground arith
      by_cases (some d) p q = omega (arith, v.fresh n d p)

  pub completed-IsValid : IsValid (completed i row c reasons now s)
  completed-IsValid = record {
    distinct = Distinct-update (has_id i) (complete c.result now) (λ j. refl) s.jobs v.distinct;
    leased = λ k. rw (job_at-completed k) (
        lease-change (has_id i) (complete c.result now) (λ j. refl) (job_at k s) (v.leased k)
          (λ j _ h. lease-completed j h));
    links = λ k.
        rw (job_at-completed k, event_of-completed k)
          (linked-completed k (job_at k s) (event_of k s) refl refl (v.links k));
    by_sequence = completed-by_sequence;
    by_job = completed-by_job;
    fresh = completed-fresh;
  }
