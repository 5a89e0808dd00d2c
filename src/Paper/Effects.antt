-- ===== src/Paper/Effects.antt =====
-- paper_broker.py: what a fill does to a position, and what a call that raises leaves.
use candle_mind.Base.Checked.{is_position, is_side}
use candle_mind.Base.TextSet.{insert}
use candle_mind.Pyramid.Config.{validate_config, SarPyramidConfig}
use candle_mind.Base.Int.{leb_ℤ, eq_ℤ, pos, ℤ}
use candle_mind.Base.Text.{codes, Text}
use candle_mind.Paper.Broker.{
  opened, open_valid, is_zero, zero_division, is_price, add_entry, value_error, close_position,
  add_layer, open_position, open_priced, Outcome, returned, begun, runtime_error, PaperFill,
  filled_in, closed, is_taken, Call, PaperBroker,
}
use candle_mind.Base.Floats.{Floats}
use candle_mind.Base.{
  arith, none, some, Bool, length-snoc, inr, ap, Option, refl, ◌⊎◌, suc, inl, length, not, false,
  true, ◌≡◌, split_if,
}

abbrev is_raised : {A : Type 0} → Outcome A → Bool
is_raised (returned a) = false
is_raised _ = true

module _ (R : Floats) where
  -- The direction and the layers of the position.
  abbrev pub position_of : PaperBroker R → ℤ × ℤ
  position_of b = (b.position.direction, pos (length b.position.entries))

  -- A fill: the position becomes `target`, and an ID that was not there before is recorded.
  pub record Did (most : ℤ) (b : PaperBroker R) (decision_id : Text) (target : ℤ × ℤ)
      (after : PaperBroker R) : Type 0 where
    pub placed : position_of after ≡ target
    pub allowed : is_position most (position_of b) ≡ true → is_position most target ≡ true
    pub fresh : is_taken R b decision_id ≡ false
    pub recorded : after.processed_decisions ≡ insert decision_id b.processed_decisions
    pub funded : after.processed_funding ≡ b.processed_funding

  -- A call that returns fills; one that raises leaves the broker, with or without the ID recorded.
  unfoldable pub Effect : ℤ → PaperBroker R → Text → ℤ × ℤ → Call R (PaperFill R) → Type 0
  Effect most b decision_id target (after, returned f) =
      (f.decision_id ≡ decision_id) × Did most b decision_id target after
  Effect most b decision_id target (after, _) = (after ≡ b) ⊎ (after ≡ begun R b decision_id)

  module _ (b : PaperBroker R) (decision_id : Text) (c : SarPyramidConfig R) where
    -- A position within the layers stays one.
    abbrev Allows : ℤ × ℤ → Type 0
    Allows target = is_position c.layers (position_of b) ≡ true → is_position c.layers target ≡ true

    filled_in-Effect :
        (start : PaperBroker R) (action : Text) (reference : R.F)
        → is_taken R b decision_id ≡ false
        → start.processed_decisions ≡ insert decision_id b.processed_decisions
        → start.processed_funding ≡ b.processed_funding
        → Allows (start.position.direction, pos (suc (length start.position.entries)))
        → Effect c.layers b decision_id
            (start.position.direction, pos (suc (length start.position.entries)))
            (filled_in R start action reference decision_id c)
    unfolding Effect filled_in
    filled_in-Effect start action reference fresh recorded funded allowed = (
      refl,
      record {
        placed = ap (λ n. (start.position.direction, pos n)) (length-snoc start.position.entries _);
        allowed = allowed;
        fresh = fresh;
        recorded = recorded;
        funded = funded;
      },
    )

    closed-Effect :
        (action : Text) (reference : R.F)
        → is_taken R b decision_id ≡ false
        → Effect c.layers b decision_id
            (pos 0, pos 0)
            (closed R (begun R b decision_id) action reference decision_id c)
    unfolding Effect closed
    closed-Effect action reference fresh = (
      refl,
      record { placed = refl; allowed = λ _. refl; fresh = fresh; recorded = refl; funded = refl },
    )

    raised-Effect :
        (target : ℤ × ℤ) (after : PaperBroker R) (o : Outcome (PaperFill R))
        → is_raised o ≡ true
        → (after ≡ b) ⊎ (after ≡ begun R b decision_id)
        → Effect c.layers b decision_id target (after, o)
    unfolding Effect
    raised-Effect target after (returned f) h e = cc
    raised-Effect target after (runtime_error m) h e = e
    raised-Effect target after (value_error m) h e = e
    raised-Effect target after zero_division h e = e

    keeps-Effect :
        (target : ℤ × ℤ) (o : Outcome (PaperFill R))
        → is_raised o ≡ true
        → Effect c.layers b decision_id target (b, o)
    keeps-Effect target o h = raised-Effect target b o h (inl refl)

    records-Effect :
        (target : ℤ × ℤ) (o : Outcome (PaperFill R))
        → is_raised o ≡ true
        → Effect c.layers b decision_id target (begun R b decision_id, o)
    records-Effect target o h = raised-Effect target (begun R b decision_id) o h (inr refl)

    add_entry-Effect :
        (start : PaperBroker R) (action : Text) (reference : R.F)
        → is_taken R b decision_id ≡ false
        → start.processed_decisions ≡ insert decision_id b.processed_decisions
        → start.processed_funding ≡ b.processed_funding
        → is_price R reference ≡ true
        → Allows (start.position.direction, pos (suc (length start.position.entries)))
        → Effect c.layers b decision_id
            (start.position.direction, pos (suc (length start.position.entries)))
            (add_entry R start action reference decision_id c)
    unfolding add_entry
    add_entry-Effect start action reference fresh recorded funded price allowed =
        rw price (filled_in-Effect start action reference fresh recorded funded allowed)

    -- An open at a price becomes one layer.
    open_priced-Effect :
        (direction : ℤ) (reference : R.F)
        → is_taken R b decision_id ≡ false
        → is_price R reference ≡ true
        → Allows (direction, pos 1)
        → Effect c.layers b decision_id
            (direction, pos 1)
            (open_priced R (begun R b decision_id) direction reference decision_id c)
    unfolding open_priced
    open_priced-Effect direction reference fresh price allowed =
        split_if (Effect c.layers b decision_id (direction, pos 1)) (is_zero R reference)
          (λ zero. records-Effect _ zero_division refl)
          (λ _.
            add_entry-Effect (opened R (begun R b decision_id) direction reference c) (codes "open")
              reference fresh refl refl price allowed)

    open_valid-Effect :
        (direction : ℤ) (reference : R.F) (invalid : Option Text)
        → is_taken R b decision_id ≡ false
        → is_price R reference ≡ true
        → (invalid ≡ none → Allows (direction, pos 1))
        → Effect c.layers b decision_id
            (direction, pos 1)
            (open_valid R (begun R b decision_id) direction reference decision_id c invalid)
    open_valid-Effect direction reference (some m) fresh price allowed =
        records-Effect _ (value_error m) refl
    open_valid-Effect direction reference none fresh price allowed =
        open_priced-Effect direction reference fresh price (allowed refl)

    opened-position :
        (timedelta : Text → Option ℤ) (direction : ℤ)
        → validate_config R timedelta c ≡ none
        → not (is_side direction) ≡ false
        → is_position c.layers (direction, pos 1) ≡ true
    unfolding validate_config
    opened-position timedelta direction valid side = ground arith

    pub open_position-Effect :
        (timedelta : Text → Option ℤ) (direction : ℤ) (reference : R.F)
        → is_price R reference ≡ true
        → Effect c.layers b decision_id
            (direction, pos 1)
            (open_position R timedelta b direction reference decision_id c)
    unfolding open_position
    open_position-Effect timedelta direction reference price =
        split_if (Effect c.layers b decision_id (direction, pos 1))
          (not (eq_ℤ b.position.direction (pos 0))) (λ _. keeps-Effect _ _ refl)
          (λ _.
            split_if (Effect c.layers b decision_id (direction, pos 1)) (is_taken R b decision_id)
              (λ _. keeps-Effect _ _ refl)
              (λ fresh.
                split_if (Effect c.layers b decision_id (direction, pos 1))
                  (not (is_side direction)) (λ _. records-Effect _ _ refl)
                  (λ side.
                    open_valid-Effect direction reference _ fresh price
                      (λ valid _. opened-position timedelta direction valid side))))

    added-position :
        eq_ℤ b.position.direction (pos 0) ≡ false
        → leb_ℤ c.layers (pos (length b.position.entries)) ≡ false
        → Allows (b.position.direction, pos (suc (length b.position.entries)))
    added-position held room placed = ground arith

    abbrev add_target : ℤ × ℤ
    add_target = (b.position.direction, pos (suc (length b.position.entries)))

    pub add_layer-Effect :
        (reference : R.F)
        → Effect c.layers b decision_id
            (b.position.direction, pos (suc (length b.position.entries)))
            (add_layer R b reference decision_id c)
    unfolding add_layer add_entry
    add_layer-Effect reference =
        split_if (Effect c.layers b decision_id add_target) (eq_ℤ b.position.direction (pos 0))
          (λ _. keeps-Effect _ _ refl)
          (λ held.
            split_if (Effect c.layers b decision_id add_target)
              (leb_ℤ c.layers (pos (length b.position.entries))) (λ _. keeps-Effect _ _ refl)
              (λ room.
                split_if (Effect c.layers b decision_id add_target) (is_taken R b decision_id)
                  (λ _. keeps-Effect _ _ refl)
                  (λ fresh.
                    split_if (Effect c.layers b decision_id add_target) (is_price R reference)
                      (λ _.
                        filled_in-Effect (begun R b decision_id) _ reference fresh refl refl
                          (λ placed. added-position held room placed))
                      (λ _. records-Effect _ _ refl))))

    pub close_position-Effect :
        (action : Text) (reference : R.F)
        → Effect c.layers b decision_id
            (pos 0, pos 0)
            (close_position R b action reference decision_id c)
    unfolding close_position
    close_position-Effect action reference =
        split_if (Effect c.layers b decision_id (pos 0, pos 0)) (eq_ℤ b.position.direction (pos 0))
          (λ _. keeps-Effect _ _ refl)
          (λ _.
            split_if (Effect c.layers b decision_id (pos 0, pos 0)) (is_taken R b decision_id)
              (λ _. keeps-Effect _ _ refl)
              (λ fresh.
                split_if (Effect c.layers b decision_id (pos 0, pos 0)) (not (is_price R reference))
                  (λ _. records-Effect _ _ refl) (λ _. closed-Effect action reference fresh)))
