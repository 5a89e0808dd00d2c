-- ===== src/Ledger/Invariant/Jobs.antt =====
-- Changes of job rows that are not finished keep the invariant.
use candle_mind.Base.{
  ◌≡◌, refl, sym, ◌∙◌, inl, inr, ap, Bool, true, false, Option, none, some, List, [], ◌∷◌, arith,
  Bool-cases, if◌then◌else◌,
}
use candle_mind.Base.Text.{text_eq_iff, Text, text_eq}
use candle_mind.Base.Table.{find_sound, find, update_where, change, opt_change, find-update_where}
use candle_mind.Ledger.Contracts.{Job, Event}
use candle_mind.Ledger.Rows.{Ledger, has_id, job_at, event_of, event_at, set_jobs}
use candle_mind.Ledger.Publish.{has_outcome}
use candle_mind.Ledger.Invariant.{IsValid, Distinct, lease_check, lease_check?, linked}

-- A change of a row that neither was nor becomes finished.
pub record Fits (j j' : Job) : Type 0 where
  pub lease : lease_check j' ≡ true
  pub was_open : has_outcome j.state ≡ false
  pub stays_open : has_outcome j'.state ≡ false

-- The row that a lookup by id gives has that id.
pub id-job_at : (i : Text) (s : Ledger) (j : Job) → job_at i s ≡ some j → j.id ≡ i
unfolding job_at
id-job_at i s j e = (text_eq_iff j.id i).0 (find_sound (has_id i) s.jobs e)

-- Two lookups that meet in an id give one row.
pub same_row :
    (i k : Text) (s : Ledger) (row j : Job)
    → job_at i s ≡ some row
    → job_at k s ≡ some j
    → has_id i j ≡ true
    → j ≡ row
same_row i k s row j e e' h =
    let same : k ≡ i = sym (id-job_at k s j e') ∙ (text_eq_iff j.id i).0 h in cc

module _ (p : Job → Bool) (f : Job → Job) (same_id : (j : Job) → (f j).id ≡ j.id) where
  id-change : (j : Job) → (change p f j).id ≡ j.id
  id-change j = elim (Bool-cases (p j)) [ inl e ↦ rw e (same_id j) | inr e ↦ rw e ]

  find-update_id :
      (i : Text) (js : List Job)
      → find (has_id i) (update_where p f js) ≡ opt_change p f (find (has_id i) js)
  find-update_id i js =
      find-update_where (has_id i) p f js (λ j. ap (λ (k : Text). text_eq k i) (id-change j))

  pub job_at-update :
      (i : Text) (s : Ledger) → job_at i (set_jobs p f s) ≡ opt_change p f (job_at i s)
  unfolding job_at
  job_at-update i s = find-update_id i s.jobs

  opt_change-none : {o : Option Job} → o ≡ none → opt_change p f o ≡ none
  opt_change-none e = rw e

  pub Distinct-update : (js : List Job) → Distinct js → Distinct (update_where p f js)
  unfolding update_where
  Distinct-update [] d = tt
  Distinct-update (j ∷ js) d =
      (rw (id-change j) (find-update_id j.id js ∙ opt_change-none d.0), Distinct-update js d.1)

  pub lease-change :
      (o : Option Job)
      → lease_check? o ≡ true
      → ((j : Job) → o ≡ some j → p j ≡ true → lease_check (f j) ≡ true)
      → lease_check? (opt_change p f o) ≡ true
  lease-change none h fits = refl
  lease-change (some j) h fits = elim (Bool-cases (p j)) [
    | inl e ↦ rw e (fits j refl e)
    | inr e ↦ rw e h
  ]

  linked_open :
      (j j' : Job) (e : Option Event)
      → Fits j j'
      → linked (some j) e ≡ true
      → linked (some j') e ≡ true
  linked_open j j' none fits h = ground arith
  linked_open j j' (some e) fits h = ground arith

  linked-if :
      (b : Bool) (j : Job) (e : Option Event)
      → linked (some j) e ≡ true
      → (b ≡ true → Fits j (f j))
      → linked (some (if b then f j else j)) e ≡ true
  linked-if true j e h fits = linked_open j (f j) e (fits refl) h
  linked-if false j e h fits = h

  linked-change :
      (o : Option Job) (e : Option Event)
      → linked o e ≡ true
      → ((j : Job) → o ≡ some j → p j ≡ true → Fits j (f j))
      → linked (opt_change p f o) e ≡ true
  linked-change none e h fits = h
  linked-change (some j) e h fits = linked-if (p j) j e h (fits j refl)

  pub update-IsValid :
      (s : Ledger)
      → IsValid s
      → ((i : Text) (j : Job) → job_at i s ≡ some j → p j ≡ true → Fits j (f j))
      → IsValid (set_jobs p f s)
  unfolding event_of event_at
  update-IsValid s v fits = record {
    distinct = Distinct-update s.jobs v.distinct;
    leased = λ i.
        rw (job_at-update i s)
          (lease-change (job_at i s) (v.leased i) (λ j e h. (fits i j e h).lease));
    links = λ i.
        rw (job_at-update i s) (linked-change (job_at i s) (event_of i s) (v.links i) (fits i));
    by_sequence = v.by_sequence;
    by_job = v.by_job;
    fresh = v.fresh;
  }
