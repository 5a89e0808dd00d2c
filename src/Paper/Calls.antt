-- ===== src/Paper/Calls.antt =====
-- paper_broker.py: histories of calls, the validity of the broker, and the decisions that fill.
use candle_mind.Paper.Effects.{
  close_position-Effect, add_layer-Effect, open_position-Effect, Effect, position_of, Did,
}
use candle_mind.Base.TextSet.{
  distinct-one, distinct, insert, member-insert, ascending, ascending-insert, member,
}
use candle_mind.Base.Checked.{is_position}
use candle_mind.Paper.Broker.{
  zero_division, value_error, runtime_error, PaperPosition, settle_funding, close_position,
  add_layer, returned, open_position, Call, begun, is_price, PaperFill, PaperBroker, Outcome,
}
use candle_mind.Pyramid.Config.{SarPyramidConfig}
use candle_mind.Base.Int.{pos, eq_ℤ, ℤ}
use candle_mind.Base.Text.{text_eq_refl, Text}
use candle_mind.Base.Floats.{Floats}
use candle_mind.Base.{
  length, inr, sym, inl, ◌⊎◌, subst, refl, arith, Bool, all, Option, [], not, ◌∷◌, ◌++◌, true, ◌≡◌,
  split_if, List,
}

module _ (R : Floats) where
  pub data PaperCall : Type 0 where
    opens : ℤ → R.F → Text → PaperCall
    adds : R.F → Text → PaperCall
    closes : Text → R.F → Text → PaperCall
    settles : Text → R.F → R.F → PaperCall

  -- An open is at a price.
  abbrev pub is_priced : PaperCall → Bool
  is_priced (opens direction reference decision_id) = is_price R reference
  is_priced _ = true

module _ (R : Floats) (timedelta : Text → Option ℤ) (c : SarPyramidConfig R) where
  -- The IDs of the fills that a call returns.
  abbrev pub filled_ids : Outcome (PaperFill R) → List Text
  filled_ids (returned f) = f.decision_id ∷ []
  filled_ids _ = []

  abbrev pub outcome : Call R (PaperFill R) → PaperBroker R × List Text
  outcome (b, o) = (b, filled_ids o)

  -- A call, with the IDs that it fills.
  unfoldable pub call : PaperBroker R → PaperCall R → PaperBroker R × List Text
  call b (opens direction reference decision_id) =
      outcome (open_position R timedelta b direction reference decision_id c)
  call b (adds reference decision_id) = outcome (add_layer R b reference decision_id c)
  call b (closes action reference decision_id) =
      outcome (close_position R b action reference decision_id c)
  call b (settles funding_id rate mark_price) =
      ((settle_funding R b funding_id rate mark_price).0, [])

  abbrev pub followed : List Text → PaperBroker R × List Text → PaperBroker R × List Text
  followed ids (b, later) = (b, ids ++ later)

  -- Calls in their order.
  unfoldable pub calls : PaperBroker R → List (PaperCall R) → PaperBroker R × List Text
  unfolding call
  calls b [] = (b, [])
  calls b (k ∷ ks) = followed (call b k).1 (calls (call b k).0 ks)

  pub record IsValid (b : PaperBroker R) : Type 0 where
    pub placed : is_position c.layers (position_of R b) ≡ true
    pub decisions : ascending b.processed_decisions ≡ true
    pub funding : ascending b.processed_funding ≡ true

  -- What a call that fills or raises does to the validity and the recorded IDs.
  pub record Moves (b : PaperBroker R) (after : PaperBroker R × List Text) : Type 0 where
    pub valid : IsValid b → IsValid after.0
    pub kept :
        (x : Text)
        → member x b.processed_decisions ≡ true
        → member x after.0.processed_decisions ≡ true
    -- The IDs that are filled are new, and recorded.
    pub new : all (λ x. not (member x b.processed_decisions)) after.1 ≡ true
    pub once : distinct after.1 ≡ true
    pub recorded : all (λ x. member x after.0.processed_decisions) after.1 ≡ true

  pub stays-Moves : (b : PaperBroker R) → Moves b (b, [])
  stays-Moves b = record {
    valid = λ v. v;
    kept = λ x h. h;
    new = refl;
    once = refl;
    recorded = refl;
  }

  begun-Moves : (b : PaperBroker R) (decision_id : Text) → Moves b (begun R b decision_id, [])
  begun-Moves b decision_id = record {
    valid = λ v. record {
      placed = v.placed;
      decisions = ascending-insert decision_id b.processed_decisions v.decisions;
      funding = v.funding;
    };
    kept = λ x h. ground (arith, member-insert x decision_id b.processed_decisions);
    new = refl;
    once = refl;
    recorded = refl;
  }

  Did-Moves :
      (b : PaperBroker R) (decision_id : Text) (target : ℤ × ℤ) (after : PaperBroker R)
      → Did R c.layers b decision_id target after
      → Moves b (after, decision_id ∷ [])
  Did-Moves b decision_id target after d = record {
    valid = λ v. record {
      placed = subst (λ q. is_position c.layers q ≡ true) (sym d.placed) (d.allowed v.placed);
      decisions = rw d.recorded (ascending-insert decision_id b.processed_decisions v.decisions);
      funding = rw d.funded v.funding;
    };
    kept = λ x h. rw d.recorded (ground (arith, member-insert x decision_id b.processed_decisions));
    new = ground (arith, d.fresh);
    once = distinct-one decision_id;
    recorded = rw d.recorded (
        ground (
          arith,
          member-insert decision_id decision_id b.processed_decisions,
          text_eq_refl decision_id,
        ));
  }

  left-Moves :
      (b : PaperBroker R) (decision_id : Text) (after : PaperBroker R)
      → (after ≡ b) ⊎ (after ≡ begun R b decision_id)
      → Moves b (after, [])
  left-Moves b decision_id after (inl e) = subst (λ x. Moves b (x, [])) (sym e) (stays-Moves b)
  left-Moves b decision_id after (inr e) =
      subst (λ x. Moves b (x, [])) (sym e) (begun-Moves b decision_id)

  pub Effect-Moves :
      (b : PaperBroker R) (decision_id : Text) (target : ℤ × ℤ) (after : PaperBroker R)
      (o : Outcome (PaperFill R))
      → Effect R c.layers b decision_id target (after, o)
      → Moves b (after, filled_ids o)
  unfolding Effect
  Effect-Moves b decision_id target after (returned f) e =
      subst (λ x. Moves b (after, x ∷ [])) (sym e.0) (Did-Moves b decision_id target after e.1)
  Effect-Moves b decision_id target after (runtime_error m) e = left-Moves b decision_id after e
  Effect-Moves b decision_id target after (value_error m) e = left-Moves b decision_id after e
  Effect-Moves b decision_id target after zero_division e = left-Moves b decision_id after e

  unfoldable pub Settled : PaperBroker R → PaperBroker R × Outcome R.F → Type 0
  Settled b r = Moves b (r.0, [])

  funded-Moves :
      (b after : PaperBroker R)
      → (after.position ≡ b.position)
      → after.processed_decisions ≡ b.processed_decisions
      → (ascending b.processed_funding ≡ true → ascending after.processed_funding ≡ true)
      → Moves b (after, [])
  funded-Moves b after p d f = record {
    valid = λ v. record {
      placed =
          subst
            (λ (q : PaperPosition R).
              is_position c.layers (q.direction, pos (length q.entries)) ≡ true)
            (sym p) v.placed;
      decisions = rw d v.decisions;
      funding = f v.funding;
    };
    kept = λ x h. rw d h;
    new = refl;
    once = refl;
    recorded = refl;
  }

  unmoved : (b : PaperBroker R) (o : Outcome R.F) → Settled b (b, o)
  unfolding Settled
  unmoved b o = stays-Moves b

  moved :
      (b after : PaperBroker R) (funding_id : Text) (o : Outcome R.F)
      → after.position ≡ b.position
      → after.processed_decisions ≡ b.processed_decisions
      → after.processed_funding ≡ insert funding_id b.processed_funding
      → Settled b (after, o)
  unfolding Settled
  moved b after funding_id o p d f =
      funded-Moves b after p d (λ a. rw f (ascending-insert funding_id b.processed_funding a))

  pub settle_funding-Moves :
      (b : PaperBroker R) (funding_id : Text) (rate mark_price : R.F)
      → Settled b (settle_funding R b funding_id rate mark_price)
  unfolding settle_funding
  settle_funding-Moves b funding_id rate mark_price =
      split_if (Settled b) (member funding_id b.processed_funding) (λ _. unmoved b _)
        (λ _.
          split_if (Settled b) (not (R.is_finite rate)) (λ _. unmoved b _)
            (λ _.
              split_if (Settled b) (not (is_price R mark_price)) (λ _. unmoved b _)
                (λ _.
                  split_if (Settled b) (eq_ℤ b.position.direction (pos 0))
                    (λ _. moved b _ funding_id _ refl refl refl)
                    (λ _. moved b _ funding_id _ refl refl refl))))

  pub Settled-Moves :
      (b : PaperBroker R) (r : PaperBroker R × Outcome R.F) → Settled b r → Moves b (r.0, [])
  unfolding Settled
  Settled-Moves b r s = s

  pub call-Moves : (b : PaperBroker R) (k : PaperCall R) → is_priced R k ≡ true → Moves b (call b k)
  unfolding call
  call-Moves b (opens direction reference decision_id) h =
      Effect-Moves b decision_id _ _ _
        (open_position-Effect R b decision_id c timedelta direction reference h)
  call-Moves b (adds reference decision_id) h =
      Effect-Moves b decision_id _ _ _ (add_layer-Effect R b decision_id c reference)
  call-Moves b (closes action reference decision_id) h =
      Effect-Moves b decision_id _ _ _ (close_position-Effect R b decision_id c action reference)
  call-Moves b (settles funding_id rate mark_price) h =
      Settled-Moves b _ (settle_funding-Moves b funding_id rate mark_price)
