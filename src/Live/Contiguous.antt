-- ===== src/Live/Contiguous.antt =====
-- live_strategy_runtime.py and live_layered_runtime.py: the decisions that are committed.
use candle_mind.Paper.Broker.{is_price}
use candle_mind.Runtime.Tape.{Window, TapeRow}
use candle_mind.Base.Text.{text_eq, Text}
use candle_mind.Base.Result.{ok, err, Result}
use candle_mind.Live.Calls.{
  committed_plans, IsFollowed, end, Following, Chain, LiveCall, run, IsLive, step,
}
use candle_mind.Live.Plan.{
  on_decided, Prepared, on_next, on_pending, on_reference, Decided, commits, on_last, LiveFault,
  discards, committed, proposes, prepare_decision, on_window, DecisionPlan, Strategy, commit,
  reference_price, Live, discard,
}
use candle_mind.Base.Floats.{Floats}
use candle_mind.Base.{
  ap, ◌∙◌, none, Option, ℕ, some, Bool, [], not, ◌∷◌, ◌++◌, true, ◌≡◌, split_if, List, leb, ◌==◌,
  ◌+◌, refl, arith, subst, sym,
}

module _ (R : Floats) where
  -- A reference price is one, and its bar is the next.
  reference_price-Next :
      (time cutoff : ℕ) (price : Option R.F) (n : TapeRow R) (o : Option R.F)
      → reference_price R time cutoff price n ≡ o
      → {x : R.F} → o ≡ some x
      → (n.open_time ≡ time + 1) × (is_price R x ≡ true)
  unfolding reference_price
  reference_price-Next time cutoff price n o e {x} h = ground arith

  module _ (A S : Type 0) where
    -- A call keeps a pending plan next to the last decision, and commits plans in their order.
    abbrev pub Good : Live R A S → Live R A S × List (DecisionPlan R A S) → Type 0
    Good r (after, plans) =
        IsLive R A S after
        × Chain R A S r.last_decision plans
        × (after.last_decision ≡ end R A S r.last_decision plans)

    stays-Good : (r : Live R A S) → IsLive R A S r → Good r (r, [])
    stays-Good r live = (live, tt, refl)

    module _ (g : Strategy R A S) (r : Live R A S) (live : IsLive R A S r) where
      proposes-Good :
          (p : DecisionPlan R A S)
          → Following R A S r.last_decision p
          → Good r ((proposes R A S r p).0, [])
      unfolding IsLive
      proposes-Good p follows = (follows, tt, refl)

      Following-some :
          (o : Option ℕ) (last : ℕ) (p : DecisionPlan R A S)
          → o ≡ some last
          → Following R A S (some last) p
          → Following R A S o p
      Following-some o last p e f = subst (λ x. Following R A S x p) (sym e) f

      Following-none :
          (o : Option ℕ) (p : DecisionPlan R A S)
          → o ≡ none
          → Following R A S none p
          → Following R A S o p
      Following-none o p e f = subst (λ x. Following R A S x p) (sym e) f

      on_decided-Good :
          (last time execution : ℕ) (x : R.F) (o : Result LiveFault (Decided R A S))
          → r.last_decision ≡ some last
          → time ≡ last + 300000
          → execution ≡ time + 1
          → is_price R x ≡ true
          → Good r ((on_decided R A S g r time execution x o).0, [])
      on_decided-Good last time execution x (err f) e a b price = stays-Good r live
      on_decided-Good last time execution x (ok d) e a b price =
          proposes-Good _ (Following-some r.last_decision last _ e (a, rw b refl, x, refl, price))

      on_reference-Good :
          (w : Window R) (cutoff : ℕ) (price : Option R.F) (n : TapeRow R) (last : ℕ)
          (o : Option R.F)
          → r.last_decision ≡ some last
          → w.decision.close_time ≡ last + 300000
          → reference_price R w.decision.close_time cutoff price n ≡ o
          → Good r ((on_reference R A S g r w cutoff n o).0, [])
      on_reference-Good w cutoff price n last none e a h = stays-Good r live
      on_reference-Good w cutoff price n last (some x) e a h =
          let next = reference_price-Next w.decision.close_time cutoff price n (some x) h refl in
          on_decided-Good last w.decision.close_time n.open_time x (g.decide r.state w cutoff x) e a
            next.0 next.1

      on_next-Good :
          (w : Window R) (cutoff : ℕ) (price : Option R.F) (o : Option (TapeRow R)) (last : ℕ)
          → r.last_decision ≡ some last
          → w.decision.close_time ≡ last + 300000
          → Good r ((on_next R A S g r w cutoff price o).0, [])
      on_next-Good w cutoff price none last e a = stays-Good r live
      on_next-Good w cutoff price (some n) last e a =
          on_reference-Good w cutoff price n last _ e a refl

      on_last-Good :
          (w : Window R) (cutoff : ℕ) (price : Option R.F) (o : Option ℕ)
          → r.last_decision ≡ o
          → Good r ((on_last R A S g r w cutoff price o).0, [])
      on_last-Good w cutoff price none e =
          proposes-Good _ (Following-none r.last_decision _ e (refl, refl))
      on_last-Good w cutoff price (some last) e =
          split_if (λ (k : Prepared R A S). Good r (k.0, [])) (leb w.decision.close_time last)
            (λ _. stays-Good r live)
            (λ _.
              split_if (λ (k : Prepared R A S). Good r (k.0, []))
                (not (w.decision.close_time == last + 300000)) (λ _. stays-Good r live)
                (λ h. on_next-Good w cutoff price w.next last e (ground arith)))

      on_pending-Good :
          (w : Window R) (cutoff : ℕ) (price : Option R.F) (o : Option (DecisionPlan R A S))
          → Good r ((on_pending R A S g r w cutoff price o).0, [])
      on_pending-Good w cutoff price none = on_last-Good w cutoff price r.last_decision refl
      on_pending-Good w cutoff price (some p) =
          split_if (λ (k : Prepared R A S). Good r (k.0, []))
            (text_eq p.decision_id (g.decision_id w.decision.close_time)) (λ _. stays-Good r live)
            (λ _. stays-Good r live)

      on_window-Good :
          (cutoff : ℕ) (price : Option R.F) (o : Option (Window R))
          → Good r ((on_window R A S g r cutoff price o).0, [])
      on_window-Good cutoff price none = stays-Good r live
      on_window-Good cutoff price (some w) = on_pending-Good w cutoff price r.pending

      prepare_decision-Good :
          (tape : List (TapeRow R)) (cutoff : ℕ) (price : Option R.F)
          → Good r ((prepare_decision R A S g r tape cutoff price).0, [])
      unfolding prepare_decision
      prepare_decision-Good tape cutoff price = on_window-Good cutoff price _

    committed-Good :
        (r : Live R A S) (p : DecisionPlan R A S)
        → Following R A S r.last_decision p
        → Good r (committed R A S r p, p ∷ [])
    unfolding IsLive
    committed-Good r p follows = (tt, (follows, tt), refl)

    commits-Good :
        (r : Live R A S) (id : Text) (confirmed writable : Bool) (o : Option (DecisionPlan R A S))
        → IsLive R A S r
        → IsFollowed R A S r.last_decision o
        → Good r (
          (commits R A S r id confirmed writable o).0,
          committed_plans R A S o (commits R A S r id confirmed writable o).1,
        )
    commits-Good r id confirmed writable none live follows = stays-Good r live
    commits-Good r id confirmed writable (some p) live follows =
        let P : Live R A S × Result LiveFault Unit → Type 0 =
          λ k. Good r (k.0, committed_plans R A S (some p) k.1) in
        split_if P (not (text_eq p.decision_id id)) (λ _. stays-Good r live)
          (λ _.
            split_if P (not confirmed) (λ _. stays-Good r live)
              (λ _.
                split_if P (not writable) (λ _. stays-Good r live)
                  (λ _. committed-Good r p follows)))

    commit-Good :
        (r : Live R A S) (id : Text) (confirmed writable : Bool)
        → IsLive R A S r
        → Good r (
          (commit R A S r id confirmed writable).0,
          committed_plans R A S r.pending (commit R A S r id confirmed writable).1,
        )
    unfolding commit IsLive
    commit-Good r id confirmed writable live =
        commits-Good r id confirmed writable r.pending live live

    discarded-Good : (r : Live R A S) → Good r (record r { pending = none }, [])
    unfolding IsLive
    discarded-Good r = (tt, tt, refl)

    discards-Good :
        (r : Live R A S) (id : Text) (o : Option (DecisionPlan R A S))
        → IsLive R A S r
        → Good r ((discards R A S r id o).0, [])
    discards-Good r id none live = stays-Good r live
    discards-Good r id (some p) live =
        split_if (λ (k : Live R A S × Result LiveFault Unit). Good r (k.0, []))
          (not (text_eq p.decision_id id)) (λ _. stays-Good r live) (λ _. discarded-Good r)

    discard-Good :
        (r : Live R A S) (id : Text) → IsLive R A S r → Good r ((discard R A S r id).0, [])
    unfolding discard
    discard-Good r id live = discards-Good r id r.pending live

    step-Good : (r : Live R A S) (k : LiveCall R A S) → IsLive R A S r → Good r (step R A S r k)
    unfolding step
    step-Good r (LiveCall.prepares g tape cutoff price) live =
        prepare_decision-Good g r live tape cutoff price
    step-Good r (LiveCall.commits_plan id confirmed writable) live =
        commit-Good r id confirmed writable live
    step-Good r (LiveCall.discards_plan id) live = discard-Good r id live

    append-Chain :
        (last : Option ℕ) (plans more : List (DecisionPlan R A S))
        → Chain R A S last plans
        → Chain R A S (end R A S last plans) more
        → Chain R A S last (plans ++ more)
          × (end R A S last (plans ++ more) ≡ end R A S (end R A S last plans) more)
    append-Chain last [] more h k = (k, refl)
    append-Chain last (p ∷ plans) more h k =
        let rest = append-Chain (some p.decision_time) plans more h.1 k in ((h.0, rest.0), rest.1)

    then-Good :
        (r : Live R A S) (first : Live R A S × List (DecisionPlan R A S))
        (rest : Live R A S × List (DecisionPlan R A S))
        → Good r first
        → Good first.0 rest
        → Good r (rest.0, first.1 ++ rest.1)
    then-Good r first rest h k =
        let more =
          append-Chain r.last_decision first.1 rest.1 h.1
            (subst (λ x. Chain R A S x rest.1) h.2 k.1) in
        (k.0, more.0, k.2 ∙ ap (λ x. end R A S x rest.1) h.2 ∙ sym more.1)

    -- In any history of calls of `prepare_decision`, `commit` and `discard`, with any tapes, cutoffs
    -- and prices, from a runtime whose pending plan, if there is one, follows its last decision: the
    -- plans that are committed form a chain. Each is for the bar after the last committed decision and
    -- is executed at the open of the bar after it, at a finite positive price, but that the first of a
    -- runtime without a decision has no actions. The runtime ends at the last decision of the chain,
    -- and its pending plan follows it.
    pub run-Contiguous :
        (r : Live R A S) (calls : List (LiveCall R A S))
        → IsLive R A S r
        → Good r (run R A S r calls)
    unfolding run
    run-Contiguous r [] live = stays-Good r live
    run-Contiguous r (k ∷ calls) live =
        let first = step-Good r k live in
        then-Good r (step R A S r k) (run R A S (step R A S r k).0 calls) first
          (run-Contiguous (step R A S r k).0 calls first.0)
