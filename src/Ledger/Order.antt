-- ===== src/Ledger/Order.antt =====
-- Which job a worker gets.
pub mod Claim
use candle_mind.Ledger.Invariant.{Distinct}
use candle_mind.Base.{
  inr, inl, Bool-cases, ℕ, length, refl, none, if◌then◌else◌, some, Option, [], true, arith, ◌∷◌,
  false, List, Bool, ◌≡◌,
}
use candle_mind.Base.Text.{
  text_eq_iff, text_eq_refl, text_ltb_asym, Text, text_ltb, text_ltb_trans, text_ltb_irrefl,
}
use candle_mind.Base.Table.{find, select}
use candle_mind.Ledger.Contracts.{Job, is_claimable, Result, ok, err, bounded_text}
use candle_mind.Ledger.Rows.{Ledger, Env, has_id, job_at, set_jobs}
use candle_mind.Ledger.Lease.{start, claimable_id, before, best, better}

before_irrefl : (j : Job) → before j j ≡ false
unfolding before
before_irrefl j = ground (arith, text_ltb_irrefl j.id)

-- `before` is a strict total order of keys: what is not before may be chained.
before_trans : (a b c : Job) → before a b ≡ false → before b c ≡ false → before a c ≡ false
unfolding before
before_trans a b c h k = ground (arith, text_ltb_trans a.id b.id c.id)

-- No row that meets the test comes before the chosen one.
abbrev pub First : (Job → Bool) → Job → List Job → Type 0
First p r [] = Unit
First p r (j ∷ js) = (p j ≡ true → before j r ≡ false) × First p r js

before_asym : (a b : Job) → before a b ≡ true → before b a ≡ false
unfolding before
before_asym a b h = ground (arith, text_ltb_asym a.id b.id)

First-weaken :
    (p : Job → Bool) (a b : Job) (js : List Job) → before b a ≡ false → First p b js → First p a js
First-weaken p a b [] h f = tt
First-weaken p a b (j ∷ js) h f = (λ e. before_trans j b a (f.0 e) h, First-weaken p a b js h f.1)

abbrev pub NoneIs : (Job → Bool) → List Job → Type 0
NoneIs p [] = Unit
NoneIs p (j ∷ js) = (p j ≡ false) × NoneIs p js

NoneIs-First : (p : Job → Bool) (r : Job) (js : List Job) → NoneIs p js → First p r js
NoneIs-First p r [] n = tt
NoneIs-First p r (j ∷ js) n = (λ e. cc (n.0), NoneIs-First p r js n.1)

-- What `best` has found: nothing meets the test, or the row does, is in the table, and is first.
abbrev pub Chosen : (Job → Bool) → List Job → Option Job → Type 0
Chosen p js none = NoneIs p js
Chosen p js (some r) = (p r ≡ true) × (find (has_id r.id) js ≡ some r) × First p r js

-- A row further down is found by its id in the whole table.
find_tail :
    (j : Job) (js : List Job) (r : Job)
    → Distinct (j ∷ js)
    → find (has_id r.id) js ≡ some r
    → find (has_id r.id) (j ∷ js) ≡ some r
unfolding find
find_tail j js r d e = ground (arith, text_eq_iff j.id r.id)

find_head : (j : Job) (js : List Job) → find (has_id j.id) (j ∷ js) ≡ some j
unfolding find
find_head j js = ground (arith, text_eq_refl j.id)

best-Chosen : (p : Job → Bool) (js : List Job) → Distinct js → Chosen p js (best p js)
unfolding best better
best-Chosen p [] d = tt
best-Chosen p (j ∷ js) d = pick (best p js) (p j) refl (best-Chosen p js d.1)
  where
    keep :
        (k : Job) (b : Bool)
        → before k j ≡ b
        → p j ≡ true
        → Chosen p js (some k)
        → Chosen p (j ∷ js) (some (if b then k else j))
    keep k true e t c = (c.0, find_tail j js k d c.1, (λ _. before_asym k j e, c.2))
    keep k false e t c = (t, find_head j js, (λ _. before_irrefl j, First-weaken p j k js e c.2))

    pick :
        (o : Option Job) (b : Bool)
        → p j ≡ b
        → Chosen p js o
        → Chosen p (j ∷ js) (if b then some (better j o) else o)
    pick none true e c = (e, find_head j js, (λ _. before_irrefl j, NoneIs-First p j js c))
    pick none false e c = (e, c)
    pick (some k) true e c = keep k (before k j) refl e c
    pick (some k) false e c = (c.0, find_tail j js k d c.1, (λ t. cc, c.2))

select-none :
    (i : Text) (js : List Job) → find (has_id i) js ≡ none → length (select (claimable_id i) js) ≡ 0
unfolding find select
select-none i [] h = refl
select-none i (j ∷ js) h = ground (arith, select-none i js)

-- The UPDATE of a claim meets exactly the chosen row.
select-one :
    (js : List Job) (r : Job)
    → Distinct js
    → find (has_id r.id) js ≡ some r
    → is_claimable r.state ≡ true
    → length (select (claimable_id r.id) js) ≡ 1
unfolding find select
select-one [] r d h c = cc
select-one (j ∷ js) r d h c = elim (Bool-cases (has_id r.id j)) [
  | inl e ↦ ground (arith, select-none r.id js, (text_eq_iff j.id r.id).0 e)
  | inr e ↦ ground (arith, select-one js r d.1)
]

-- What a claim does, given the ledger `t` in which the lapsed leases are back in the queue.
abbrev pub Claims : (Job → Bool) → Text → ℕ → ℕ → Ledger → Result (Option Job) × Ledger → Type 0
Claims p owner expires now t (ok none, s') = NoneIs p t.jobs × (s' ≡ t)
Claims p owner expires now t (ok (some job), s') =
    (row : Job) × (job_at row.id t ≡ some row)
    × (p row ≡ true)
    × First p row t.jobs
    × (job ≡ start owner expires now row)
    × (s' ≡ set_jobs (claimable_id row.id) (start owner expires now) t)
Claims p owner expires now t (err e, s') = ⊥
