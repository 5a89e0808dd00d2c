-- ===== src/Live/Again.antt =====
-- live_strategy_runtime.py and live_layered_runtime.py: a decision that is prepared again, and after
-- its commit.
use candle_mind.Base.Text.{text_eq_refl}
use candle_mind.Base.Result.{err, ok, Result}
use candle_mind.Runtime.Tape.{locate, Window, TapeRow}
use candle_mind.Live.Plan.{
  on_decided, Decided, on_window, LiveFault, on_last, on_pending, on_next, on_reference, committed,
  Prepared, DecisionPlan, commit, Live, prepare_decision, Strategy,
}
use candle_mind.Base.Floats.{Floats}
use candle_mind.Base.{
  ◌∙◌, none, Option, ℕ, some, not, true, ◌≡◌, split_if, List, leb, ◌==◌, ◌+◌, refl, arith, subst,
  sym,
}

module _ (R : Floats) (A S : Type 0) (g : Strategy R A S) where
  -- A plan has the ID and the time of a decision.
  abbrev Plans : TapeRow R → DecisionPlan R A S → Type 0
  Plans d p = (p.decision_id ≡ g.decision_id d.close_time) × (p.decision_time ≡ d.close_time)

  -- A plan that is answered is pending, and is of the decision of the window.
  abbrev Answers : TapeRow R → Prepared R A S → Type 0
  Answers d (after, err f) = Unit
  Answers d (after, ok none) = Unit
  Answers d (after, ok (some p)) = (after.pending ≡ some p) × Plans d p

  module _ (r : Live R A S) (w : Window R) (cutoff : ℕ) (price : Option R.F) where
    on_decided-Answers :
        (execution : ℕ) (x : R.F) (o : Result LiveFault (Decided R A S))
        → Answers w.decision (on_decided R A S g r w.decision.close_time execution x o)
    on_decided-Answers execution x (err f) = tt
    on_decided-Answers execution x (ok d) = (refl, (refl, refl))

    on_reference-Answers :
        (n : TapeRow R) (o : Option R.F) → Answers w.decision (on_reference R A S g r w cutoff n o)
    on_reference-Answers n none = tt
    on_reference-Answers n (some x) = on_decided-Answers n.open_time x _

    on_next-Answers :
        (o : Option (TapeRow R)) → Answers w.decision (on_next R A S g r w cutoff price o)
    on_next-Answers none = tt
    on_next-Answers (some n) = on_reference-Answers n _

    on_last-Answers : (o : Option ℕ) → Answers w.decision (on_last R A S g r w cutoff price o)
    on_last-Answers none = (refl, (refl, refl))
    on_last-Answers (some last) =
        split_if (Answers w.decision) (leb w.decision.close_time last) (λ _. tt)
          (λ _.
            split_if (Answers w.decision) (not (w.decision.close_time == last + 300000)) (λ _. tt)
              (λ _. on_next-Answers w.next))

    -- When nothing is pending, the window's decision is what is answered.
    on_pending-Answers :
        r.pending ≡ none → Answers w.decision (on_pending R A S g r w cutoff price r.pending)
    on_pending-Answers h =
        subst (λ o. Answers w.decision (on_pending R A S g r w cutoff price o)) (sym h)
          (on_last-Answers r.last_decision)

  -- What comes after an answer `some p`, on the same tape, with whatever cutoff and price of it.
  abbrev pub Settled : List (TapeRow R) → ℕ → Option R.F → DecisionPlan R A S → Live R A S → Type 0
  Settled tape cutoff price p after =
      (prepare_decision R A S g after tape cutoff price ≡ (after, ok (some p)))
      × (commit R A S after p.decision_id true true ≡ (committed R A S after p, ok tt))
      × (prepare_decision R A S g (committed R A S after p) tape cutoff price
          ≡ (committed R A S after p, ok none))

  again :
      (tape : List (TapeRow R)) (cutoff : ℕ) (price : Option R.F) (w : Window R)
      (after : Live R A S) (p : DecisionPlan R A S)
      → locate R cutoff none tape ≡ some w
      → after.pending ≡ some p
      → Plans w.decision p
      → prepare_decision R A S g after tape cutoff price ≡ (after, ok (some p))
  unfolding prepare_decision
  again tape cutoff price w after p e h plans =
      rw (e, h, plans.0, text_eq_refl (g.decision_id w.decision.close_time)) refl

  commits-pending :
      (after : Live R A S) (p : DecisionPlan R A S)
      → after.pending ≡ some p
      → commit R A S after p.decision_id true true ≡ (committed R A S after p, ok tt)
  unfolding commit
  commits-pending after p h = rw (h, text_eq_refl p.decision_id) refl

  idle :
      (tape : List (TapeRow R)) (cutoff : ℕ) (price : Option R.F) (w : Window R)
      (after : Live R A S) (p : DecisionPlan R A S)
      → locate R cutoff none tape ≡ some w
      → Plans w.decision p
      → prepare_decision R A S g (committed R A S after p) tape cutoff price
        ≡ (committed R A S after p, ok none)
  unfolding prepare_decision
  idle tape cutoff price w after p e plans =
      let same : leb w.decision.close_time p.decision_time ≡ true = rw (plans.1) (ground arith) in
      rw (e, same) refl

  prepared-Settled :
      (r : Live R A S) (tape : List (TapeRow R)) (cutoff : ℕ) (price : Option R.F)
      (o : Option (Window R)) (k : Prepared R A S) {after : Live R A S} {p : DecisionPlan R A S}
      → locate R cutoff none tape ≡ o
      → r.pending ≡ none
      → on_window R A S g r cutoff price o ≡ k
      → k ≡ (after, ok (some p))
      → Settled tape cutoff price p after
  prepared-Settled r tape cutoff price none k {after} {p} e h f q = cc
  prepared-Settled r tape cutoff price (some w) k {after} {p} e h f q =
      let a : Answers w.decision (after, ok (some p)) =
        subst (Answers w.decision) (f ∙ q) (on_pending-Answers r w cutoff price h) in
      (
        again tape cutoff price w after p e a.0 a.1,
        commits-pending after p a.0,
        idle tape cutoff price w after p e a.1,
      )

  -- When nothing is pending and `prepare_decision` answers a plan, then the same call again answers
  -- the same plan and changes nothing; the commit of the plan's ID, once its actions are confirmed and
  -- the state can be saved, succeeds and takes the state and the times of the plan; and after it the
  -- same call answers that there is no decision and changes nothing.
  pub prepare_decision-Settled :
      (r : Live R A S) (tape : List (TapeRow R)) (cutoff : ℕ) (price : Option R.F)
      {after : Live R A S} {p : DecisionPlan R A S}
      → r.pending ≡ none
      → prepare_decision R A S g r tape cutoff price ≡ (after, ok (some p))
      → Settled tape cutoff price p after
  unfolding prepare_decision
  prepare_decision-Settled r tape cutoff price {after} {p} h q =
      prepared-Settled r tape cutoff price (locate R cutoff none tape) _ refl h refl q
