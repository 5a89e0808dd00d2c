-- ===== src/Ledger/Invariant/Enqueue.antt =====
-- Enqueuing and superseding keep the invariant.
use candle_mind.Base.Int.{max_ℤ, ℤ}
use candle_mind.Base.Text.{text_eq_refl, text_eq_iff}
use candle_mind.Base.{
  ap, subst, not, ◌||◌, is_some, inl, inr, Bool-cases, ℕ, refl, arith, [], some, ◌∷◌, if◌then◌else◌,
  ◌++◌, or_else,
}
use candle_mind.Ledger.Contracts.{JobLane, Job, Event, Result, is_claimable}
use candle_mind.Ledger.Rows.{Ledger, Env, M, ◌>>=◌, has_id, job_at, event_of, event_at, set_jobs}
use candle_mind.Ledger.Enqueue.{
  place_job, place_message, has_key, add_job, now_or, insert_row, insert_job, merge_into,
  merge_existing, reuse_job, enqueue_job, insert_message, store_message, enqueue_inbox_message,
  job_with_key,
}
use candle_mind.Ledger.Publish.{is_superseded, supersede, supersede_row, supersede_job, has_outcome}
use candle_mind.Json.Value.{Fields}
use candle_mind.Ledger.Rows.{Message}
use candle_mind.Ledger.Keeps.{
  After-pure_then, After-assoc, After-if, After-lift, After-gets, After-raise_if, After-write,
  After-pure, After-raise, After-step, After-fetch_job, After-transaction,
}
use candle_mind.Ledger.Invariant.{
  List, false, true, none, Bool, find, Option, Text, ◌≡◌, IsValid, Distinct, lease_check,
  lease_check?, linked,
}
use candle_mind.Base.Table.{find, find-append}
use candle_mind.Ledger.Invariant.Leases.{lease_at}
use candle_mind.Ledger.Invariant.Jobs.{Fits, update-IsValid, same_row}

Distinct-append :
    (js : List Job) (j : Job) → Distinct js → find (has_id j.id) js ≡ none → Distinct (js ++ j ∷ [])
unfolding find
Distinct-append [] j d e = (refl, tt)
Distinct-append (k ∷ js) j d e = ground (
  arith,
  Distinct-append js j d.1,
  find-append (has_id k.id) js j,
  text_eq_iff k.id j.id,
  text_eq_iff j.id k.id,
)

job_at-append :
    (i : Text) (s : Ledger) (j : Job)
    → job_at i (record s { jobs = s.jobs ++ j ∷ [] })
      ≡ or_else (job_at i s) (if has_id i j then some j else none)
unfolding job_at
job_at-append i s j = find-append (has_id i) s.jobs j

lease-append :
    (o : Option Job) (j : Job) (b : Bool)
    → lease_check? o ≡ true
    → lease_check j ≡ true
    → lease_check? (or_else o (if b then some j else none)) ≡ true
lease-append o j b h k = ground arith

linked-append :
    (o : Option Job) (e : Option Event) (j : Job) (b : Bool)
    → linked o e ≡ true
    → has_outcome j.state ≡ false
    → linked (or_else o (if b then some j else none)) e ≡ true
linked-append none none j b h k = ground arith
linked-append none (some e) j b h k = cc
linked-append (some i) e j b h k = h

append-IsValid :
    (s : Ledger) (j : Job)
    → IsValid s
    → job_at j.id s ≡ none
    → lease_check j ≡ true
    → has_outcome j.state ≡ false
    → IsValid (record s { jobs = s.jobs ++ j ∷ [] })
unfolding event_of event_at job_at
append-IsValid s j v new lease idle = record {
  distinct = Distinct-append s.jobs j v.distinct new;
  leased =
      λ i. rw (job_at-append i s j) (lease-append (job_at i s) j (has_id i j) (v.leased i) lease);
  links = λ i.
      rw (job_at-append i s j)
        (linked-append (job_at i s) (event_of i s) j (has_id i j) (v.links i) idle);
  by_sequence = v.by_sequence;
  by_job = v.by_job;
  fresh = v.fresh;
}

not_found : {A : Type 0} (o : Option A) (b : Bool) → (is_some o || b) ≡ false → o ≡ none
not_found none b h = refl
not_found (some a) b h = cc

-- INSERT INTO jobs either raises and writes nothing, or adds a row of a new id.
insert_row-IsValid :
    {B : Type 0} (j : Job) (k : Unit {0} → M B) (s : Ledger)
    → IsValid s
    → lease_check j ≡ true
    → has_outcome j.state ≡ false
    → ((s' : Ledger) → IsValid s' → IsValid (k tt s').1)
    → IsValid ((insert_row j >>= k) s).1
unfolding insert_row
insert_row-IsValid j k s v lease idle next = After-assoc IsValid _ _ k s (
    After-gets IsValid _ _ s (
      After-assoc IsValid _ _ k s (
        After-raise_if IsValid _ _ _ s v λ free.
          After-write IsValid (add_job j) k s
            (next _ (append-IsValid s j v (not_found _ _ free) lease idle)))))

insert_job-IsValid :
    (env : Env) (network symbol : Text) (lane : JobLane) (key payload : Text) (reasons : List Text)
    (priority : ℤ) (available : Option ℕ) (job_id : Option Text) (now : ℕ) (s : Ledger)
    → IsValid s
    → IsValid
        (insert_job env network symbol lane key payload reasons priority available job_id now s).1
unfolding insert_job
insert_job-IsValid env network symbol lane key payload reasons priority available job_id now s v =
    After-lift IsValid _ _ s v
      λ i _. insert_row-IsValid _ _ s v refl refl λ s' v'. After-fetch_job IsValid i s' v'

merge-Fits :
    (reasons : List Text) (priority : ℤ) (now : ℕ) (j : Job)
    → is_claimable j.state ≡ true
    → lease_check j ≡ true
    → Fits j (merge_into reasons priority now j)
merge-Fits reasons priority now j c h = ground arith

supersede-Fits :
    (code : Text) (now : ℕ) (j : Job)
    → is_claimable j.state ≡ true
    → lease_check j ≡ true
    → Fits j (supersede code now j)
supersede-Fits code now j c h = ground arith

-- A change of one row, by its id, in a state where it may be claimed.
change_row-IsValid :
    (i : Text) (f : Job → Job) (s : Ledger) (row : Job)
    → ((j : Job) → (f j).id ≡ j.id)
    → job_at i s ≡ some row
    → is_claimable row.state ≡ true
    → ((j : Job) → is_claimable j.state ≡ true → lease_check j ≡ true → Fits j (f j))
    → IsValid s
    → IsValid (set_jobs (has_id i) f s)
change_row-IsValid i f s row same e c fits v =
    update-IsValid (has_id i) f same s v
      λ k j e' h. fits j (rw (same_row i k s row j e e' h) c) (lease_at s v k j e')

supersede_row-IsValid :
    (i code : Text) (now : ℕ) (o : Option Job) (s : Ledger)
    → job_at i s ≡ o
    → IsValid s
    → IsValid (supersede_row i code now o s).1
unfolding supersede_row
supersede_row-IsValid i code now none s e v = After-raise IsValid _ _ s v
supersede_row-IsValid i code now (some row) s e v = elim (Bool-cases (is_superseded row.state)) [
  | inl b ↦ rw b (After-pure IsValid row s v)
  | inr b ↦ elim (Bool-cases (is_claimable row.state)) [
    | inr c ↦ rw (b, c) (After-raise IsValid _ _ s v)
    | inl c ↦
        rw (b, c)
          (After-write IsValid _ _ s (
            After-fetch_job IsValid i _ (
              change_row-IsValid i (supersede code now) s row (λ j. refl) e c
                (supersede-Fits code now) v)))
  ]
]

pub supersede_job-IsValid :
    (env : Env) (i reason : Text) (now_ms : Option ℕ) (s : Ledger)
    → IsValid s
    → IsValid (supersede_job env i reason now_ms s).1
unfolding supersede_job
supersede_job-IsValid env i reason now_ms s v = After-lift IsValid _ _ s v λ id _.
    After-lift IsValid _ _ s v λ code _.
      After-transaction IsValid _ s v
        (After-gets IsValid _ _ s (supersede_row-IsValid id code (now_or env now_ms) _ s refl v))

reuse_job-IsValid :
    (row : Job) (lane : JobLane) (payload : Text) (reasons : List Text) (priority : ℤ) (now : ℕ)
    (s : Ledger)
    → job_at row.id s ≡ some row
    → IsValid s
    → IsValid (reuse_job row lane payload reasons priority now s).1
unfolding reuse_job merge_existing
reuse_job-IsValid row lane payload reasons priority now s e v =
    After-raise_if IsValid _ _ _ s v λ _.
      After-if IsValid (not (is_claimable row.state)) _ _ _ s
        (λ _. After-pure_then IsValid tt _ s (After-fetch_job IsValid row.id s v))
        (λ c. After-assoc IsValid _ _ _ s (
          After-lift IsValid _ _ s v λ merged _. After-write IsValid _ _ s (
            After-fetch_job IsValid row.id _ (
              change_row-IsValid row.id (merge_into merged (max_ℤ row.priority priority) now) s row
                (λ j. refl) e (ground arith) (merge-Fits merged (max_ℤ row.priority priority) now)
                v))))

-- A lookup by another column gives a row that its id finds too.
pub find-job_at :
    (p : Job → Bool) (js : List Job) (j : Job)
    → Distinct js
    → find p js ≡ some j
    → find (has_id j.id) js ≡ some j
unfolding find
find-job_at p [] j d e = cc
find-job_at p (k ∷ js) j d e =
    ground (
      arith,
      find-job_at p js j d.1,
      text_eq_refl k.id,
      text_eq_iff k.id j.id,
      text_eq_iff k.id k.id,
    )

place_job-IsValid :
    (env : Env) (network symbol : Text) (lane : JobLane) (key payload : Text) (reasons : List Text)
    (priority : ℤ) (available : Option ℕ) (job_id : Option Text) (now : ℕ) (found : Option Job)
    (s : Ledger)
    → job_with_key network symbol key s ≡ found
    → IsValid s
    → IsValid
        (place_job env network symbol lane key payload reasons priority available job_id now found
          s).1
unfolding place_job job_with_key job_at
place_job-IsValid env network symbol lane key payload reasons priority available job_id now
      (some row) s e v =
    reuse_job-IsValid row lane payload reasons priority now s
      (find-job_at (has_key network symbol key) s.jobs row v.distinct e) v
place_job-IsValid env network symbol lane key payload reasons priority available job_id now none s e
      v =
    insert_job-IsValid env network symbol lane key payload reasons priority available job_id now s v

pub enqueue_job-IsValid :
    (env : Env) (network symbol : Text) (lane : JobLane) (key : Text) (payload : Option Fields)
    (reasons : List Text) (priority : ℤ) (available : Option ℕ) (job_id : Option Text)
    (now_ms : Option ℕ) (s : Ledger)
    → IsValid s
    → IsValid
        (enqueue_job env network symbol lane key payload reasons priority available job_id now_ms
          s).1
unfolding enqueue_job
enqueue_job-IsValid env network symbol lane key payload reasons priority available job_id now_ms s
      v =
    After-lift IsValid _ _ s v λ scope _. After-lift IsValid _ _ s v λ k _.
      After-lift IsValid _ _ s v λ encoded _. After-lift IsValid _ _ s v λ normalized _.
        After-transaction IsValid _ s v (
          After-gets IsValid _ _ s (
            place_job-IsValid env scope.0 scope.1 lane k encoded normalized priority available
              job_id (now_or env now_ms) _ s refl v))

-- A write to the inbox alone.
inbox-IsValid :
    (s : Ledger) (inbox : List Message) → IsValid s → IsValid (record s { inbox = inbox })
unfolding job_at event_of event_at
inbox-IsValid s inbox v = record {
  distinct = v.distinct;
  leased = v.leased;
  links = v.links;
  by_sequence = v.by_sequence;
  by_job = v.by_job;
  fresh = v.fresh;
}

place_message-IsValid :
    (env : Env) (network symbol message_id message payload : Text) (priority : ℤ)
    (available : Option ℕ) (job_id : Option Text) (now : ℕ) (found : Option (Message × Job))
    (s : Ledger)
    → IsValid s
    → IsValid
        (place_message env network symbol message_id message payload priority available job_id now
          found s).1
unfolding place_message store_message insert_message
place_message-IsValid env network symbol message_id message payload priority available job_id now
      (some (m, j)) s v =
    After-raise_if IsValid _ _ _ s v (λ _. After-pure IsValid j s v)
place_message-IsValid env network symbol message_id message payload priority available job_id now
      none s v =
    After-step IsValid _ _ s
      (insert_job-IsValid env network symbol JobLane.inbox _ payload [] priority available job_id
        now s v)
      λ j s' e.
        let v' : IsValid s' = subst IsValid (ap (λ (r : Result Job × Ledger). r.1) e) (
          insert_job-IsValid env network symbol JobLane.inbox _ payload [] priority available job_id
            now s v) in
        After-assoc IsValid _ _ _ s' (
          After-gets IsValid _ _ s' (
            After-assoc IsValid _ _ _ s' (
              After-raise_if IsValid _ _ _ s' v'
                λ _. After-write IsValid _ _ s' (After-pure IsValid j _ (inbox-IsValid s' _ v')))))

pub enqueue_inbox_message-IsValid :
    (env : Env) (network symbol message_id content : Text) (payload : Option Fields) (priority : ℤ)
    (available : Option ℕ) (job_id : Option Text) (now_ms : Option ℕ) (s : Ledger)
    → IsValid s
    → IsValid
        (enqueue_inbox_message env network symbol message_id content payload priority available
          job_id now_ms s).1
unfolding enqueue_inbox_message
enqueue_inbox_message-IsValid env network symbol message_id content payload priority available
      job_id now_ms s v =
    After-lift IsValid _ _ s v λ scope _. After-lift IsValid _ _ s v λ i _.
      After-lift IsValid _ _ s v λ message _. After-lift IsValid _ _ s v λ encoded _.
        After-transaction IsValid _ s v (
          After-gets IsValid _ _ s (
            place_message-IsValid env scope.0 scope.1 i message encoded priority available job_id
              (now_or env now_ms) _ s v))
