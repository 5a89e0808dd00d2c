-- ===== src/Paper/Broker.antt =====
-- paper_broker.py: the broker and its operations. A call returns the broker that it leaves with its
-- result, also where it raises.
use candle_mind.Base.Checked.{is_side}
use candle_mind.Pyramid.Config.{validate_config, SarPyramidConfig, PositionSnapshot}
use candle_mind.Base.Int.{leb_ℤ, eq_ℤ, ℤ, neg_ℤ, pos}
use candle_mind.Base.TextSet.{member, insert}
use candle_mind.Base.Floats.{Floats}
use candle_mind.Base.{
  ◌||◌, length, none, some, map, Bool, Option, [], not, ◌∷◌, ◌++◌, ◌&&◌, true, List, if◌then◌else◌,
}
use candle_mind.Base.Text.{text_eq, codes, Text}

-- What a call returns or raises.
pub data Outcome (A : Type 0) : Type 0 where
  returned : A → Outcome A
  runtime_error : Text → Outcome A
  value_error : Text → Outcome A
  zero_division : Outcome A

module _ (R : Floats) where
  pub record PaperFill : Type 0 where
    pub action : Text
    pub direction : ℤ
    pub quantity : R.F
    pub reference_price : R.F
    pub fill_price : R.F
    pub fee : R.F
    pub decision_id : Text

  pub record PaperEntry : Type 0 where
    pub price : R.F
    pub quantity : R.F

  pub record PaperPosition : Type 0 where
    pub direction : ℤ
    pub layer_quantity : R.F
    pub entries : List PaperEntry

  pub record PaperBroker : Type 0 where
    pub cash : R.F
    pub realized_pnl : R.F
    pub fees : R.F
    pub funding_pnl : R.F
    pub position : PaperPosition
    pub processed_decisions : List Text
    pub paper_fill_count_complete : Bool
    pub processed_funding : List Text

  abbrev pub zero_F : R.F
  zero_F = R.literal (codes "0.0")

  -- `PaperPosition()`
  abbrev pub no_position : PaperPosition
  no_position = record { direction = pos 0; layer_quantity = zero_F; entries = [] }

  -- `PaperPosition.quantity`
  abbrev pub quantity_of : PaperPosition → R.F
  quantity_of p = R.sum (map (λ (e : PaperEntry). e.quantity) p.entries)

  -- `PaperPosition.anchor`: the price of the last entry.
  abbrev pub anchor_of : List PaperEntry → Option R.F
  anchor_of [] = none
  anchor_of (e ∷ []) = some e.price
  anchor_of (e ∷ f ∷ entries) = anchor_of (f ∷ entries)

  -- `_price` does not raise.
  unfoldable pub is_price : R.F → Bool
  is_price x = R.is_finite x && not (R.le x zero_F)

  -- `PaperBroker(initial_cash)`
  unfoldable pub new_broker : R.F → Outcome PaperBroker
  new_broker initial_cash =
      if is_price initial_cash
      then returned (record {
        cash = initial_cash;
        realized_pnl = zero_F;
        fees = zero_F;
        funding_pnl = zero_F;
        position = no_position;
        processed_decisions = [];
        paper_fill_count_complete = true;
        processed_funding = [];
      })
      else value_error (codes "initial cash must be finite and positive")

  -- `snapshot`
  unfoldable pub snapshot : PaperBroker → PositionSnapshot R
  snapshot b = record {
    direction = b.position.direction;
    layers = pos (length b.position.entries);
    anchor = anchor_of b.position.entries;
  }

  abbrev price_error : {A : Type 0} → Outcome A
  price_error = value_error (codes "price must be finite and positive")

  -- The terms of `direction * quantity * (price - entry price)`.
  abbrev gain : ℤ → R.F → PaperEntry → R.F
  gain direction price e = R.mul (R.mul (R.from_int direction) e.quantity) (R.sub price e.price)

  -- `equity`
  unfoldable pub equity : PaperBroker → R.F → Outcome R.F
  equity b mark_price =
      if is_price mark_price
      then returned
          (R.add b.cash (R.sum (map (gain b.position.direction mark_price) b.position.entries)))
      else price_error

  abbrev pub Call : Type 0 → Type 0
  Call A = PaperBroker × Outcome A

  -- `_begin` raises.
  abbrev pub is_taken : PaperBroker → Text → Bool
  is_taken b decision_id = text_eq decision_id [] || member decision_id b.processed_decisions

  abbrev taken_error : Outcome PaperFill
  taken_error = value_error (codes "decision ID is empty or already processed")

  -- The broker after `_begin`.
  abbrev pub begun : PaperBroker → Text → PaperBroker
  begun b decision_id = record b { processed_decisions = insert decision_id b.processed_decisions }

  -- `_add`, where the price is one.
  unfoldable pub filled_in : PaperBroker → Text → R.F → Text → SarPyramidConfig R → Call PaperFill
  filled_in b action reference decision_id c =
      let p = b.position in
      let fill =
        R.mul reference
          (R.add (R.literal (codes "1.0")) (R.mul (R.from_int p.direction) c.slippage_rate)) in
      let fee = R.mul (R.mul p.layer_quantity fill) c.fee_rate in
      (
        record b {
          cash = R.sub b.cash fee;
          realized_pnl = R.sub b.realized_pnl fee;
          fees = R.add b.fees fee;
          position = record p {
            entries = p.entries ++ record { price = fill; quantity = p.layer_quantity } ∷ [];
          };
        },
        returned (record {
          action = action;
          direction = p.direction;
          quantity = p.layer_quantity;
          reference_price = reference;
          fill_price = fill;
          fee = fee;
          decision_id = decision_id;
        }),
      )

  -- `_add`
  unfoldable pub add_entry : PaperBroker → Text → R.F → Text → SarPyramidConfig R → Call PaperFill
  unfolding filled_in
  add_entry b action reference decision_id c =
      if is_price reference then filled_in b action reference decision_id c else (b, price_error)

  -- The position that `open` makes before its entry.
  abbrev pub opened : PaperBroker → ℤ → R.F → SarPyramidConfig R → PaperBroker
  opened b direction reference_price c = record b {
    position = record {
      direction = direction;
      layer_quantity =
          R.div (R.div (R.mul b.cash c.target_notional_fraction) reference_price)
            (R.from_int c.layers);
      entries = [];
    };
  }

  unfoldable pub is_zero : R.F → Bool
  is_zero x = R.le x zero_F && R.le zero_F x

  -- `open`, once the configuration has been validated.
  unfoldable pub open_priced : PaperBroker → ℤ → R.F → Text → SarPyramidConfig R → Call PaperFill
  unfolding add_entry
  open_priced b direction reference_price decision_id c =
      if is_zero reference_price
      then (b, zero_division)
      else add_entry (opened b direction reference_price c) (codes "open") reference_price
          decision_id c

  abbrev pub open_valid :
      PaperBroker → ℤ → R.F → Text → SarPyramidConfig R → Option Text → Call PaperFill
  open_valid b direction reference_price decision_id c (some m) = (b, value_error m)
  open_valid b direction reference_price decision_id c none =
      open_priced b direction reference_price decision_id c

  module _ (timedelta : Text → Option ℤ) where
    -- `open`
    unfoldable pub open_position :
        PaperBroker → ℤ → R.F → Text → SarPyramidConfig R → Call PaperFill
    unfolding open_priced
    open_position b direction reference_price decision_id c =
        if not (eq_ℤ b.position.direction (pos 0))
        then (b, runtime_error (codes "cannot open while a position exists"))
        else if is_taken b decision_id
        then (b, taken_error)
        else if not (is_side direction)
        then (begun b decision_id, value_error (codes "invalid direction"))
        else open_valid (begun b decision_id) direction reference_price decision_id c
            (validate_config R timedelta c)

  -- `add`
  unfoldable pub add_layer : PaperBroker → R.F → Text → SarPyramidConfig R → Call PaperFill
  unfolding add_entry
  add_layer b reference_price decision_id c =
      if eq_ℤ b.position.direction (pos 0)
      then (b, runtime_error (codes "cannot add without a position"))
      else if leb_ℤ c.layers (pos (length b.position.entries))
      then (b, runtime_error (codes "position is already at the layer cap"))
      else if is_taken b decision_id
      then (b, taken_error)
      else add_entry (begun b decision_id) (codes "add") reference_price decision_id c

  -- `close`, where the price is one.
  unfoldable pub closed : PaperBroker → Text → R.F → Text → SarPyramidConfig R → Call PaperFill
  closed b action reference_price decision_id c =
      let direction = b.position.direction in
      let fill_price =
        R.mul reference_price
          (R.sub (R.literal (codes "1.0")) (R.mul (R.from_int direction) c.slippage_rate)) in
      let quantity = quantity_of b.position in
      let fee = R.mul (R.mul quantity fill_price) c.fee_rate in
      let gross = R.sum (map (gain direction fill_price) b.position.entries) in
      (
        record b {
          cash = R.add b.cash (R.sub gross fee);
          realized_pnl = R.add b.realized_pnl (R.sub gross fee);
          fees = R.add b.fees fee;
          position = no_position;
        },
        returned (record {
          action = action;
          direction = direction;
          quantity = quantity;
          reference_price = reference_price;
          fill_price = fill_price;
          fee = fee;
          decision_id = decision_id;
        }),
      )

  -- `close`
  unfoldable pub close_position :
      PaperBroker → Text → R.F → Text → SarPyramidConfig R → Call PaperFill
  unfolding closed
  close_position b action reference_price decision_id c =
      if eq_ℤ b.position.direction (pos 0)
      then (b, runtime_error (codes "cannot close without a position"))
      else if is_taken b decision_id
      then (b, taken_error)
      else if not (is_price reference_price)
      then (begun b decision_id, price_error)
      else closed (begun b decision_id) action reference_price decision_id c

  -- The funding of a position, where there is one.
  abbrev pub paid : PaperBroker → R.F → R.F → Call R.F
  paid b rate mark_price =
      let p = b.position in
      let payment =
        R.mul (R.mul (R.mul (R.from_int (neg_ℤ p.direction)) (quantity_of p)) mark_price) rate in
      (
        record b {
          cash = R.add b.cash payment;
          realized_pnl = R.add b.realized_pnl payment;
          funding_pnl = R.add b.funding_pnl payment;
        },
        returned payment,
      )

  -- `settle_funding`
  unfoldable pub settle_funding : PaperBroker → Text → R.F → R.F → Call R.F
  settle_funding b funding_id rate mark_price =
      if member funding_id b.processed_funding
      then (b, returned zero_F)
      else if not (R.is_finite rate)
      then (b, value_error (codes "funding rate must be finite"))
      else if not (is_price mark_price)
      then (b, price_error)
      else (let settled = record b { processed_funding = insert funding_id b.processed_funding } in
          if eq_ℤ b.position.direction (pos 0)
          then (settled, returned zero_F)
          else paid settled rate mark_price)
