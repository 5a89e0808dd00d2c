-- ===== src/Paper/Document.antt =====
-- paper_broker.py: `to_dict`, `from_dict` and `_validate`. The entries of a position are copied as
-- they are; their numbers are floats.
use candle_mind.Base.Int.{pos, eq_ℤ}
use candle_mind.Base.Text.{codes, Text}
use candle_mind.Base.TextSet.{set_of-ascending, set_of, ascending}
use candle_mind.Base.Checked.{is_side, refuse_if, accepted, refused, Checked}
use candle_mind.Paper.Broker.{is_price, zero_F, PaperPosition, PaperEntry, PaperBroker}
use candle_mind.Base.Floats.{Floats}
use candle_mind.Base.Scalar.{Scalar, float_value, int_value, float_of, int_of, and_then, required}
use candle_mind.Base.{
  ap, ◌∙◌, refl, eq_Bool, ◌||◌, is_some, none, get_or, some, Option, Bool, [], not, ◌∷◌, false,
  true, ◌≡◌, List,
}

module _ (R : Floats) where
  pub record PositionDocument : Type 0 where
    pub direction : Option (Scalar R)
    pub layer_quantity : Option (Scalar R)
    pub entries : Option (List (PaperEntry R))

  pub record PaperDocument : Type 0 where
    pub cash : Option (Scalar R)
    pub realized_pnl : Option (Scalar R)
    pub fees : Option (Scalar R)
    pub funding_pnl : Option (Scalar R)
    pub position : Option PositionDocument
    pub processed_decisions : Option (List Text)
    -- `some none` is a value that is no `bool`.
    pub paper_fill_count_complete : Option (Option Bool)
    pub processed_funding : Option (List Text)

  -- `asdict(self.position)`
  abbrev pub position_document : PaperPosition R → PositionDocument
  position_document p = record {
    direction = some (int_value p.direction);
    layer_quantity = some (float_value p.layer_quantity);
    entries = some p.entries;
  }

  -- `to_dict`
  unfoldable pub to_dict : PaperBroker R → PaperDocument
  to_dict b = record {
    cash = some (float_value b.cash);
    realized_pnl = some (float_value b.realized_pnl);
    fees = some (float_value b.fees);
    funding_pnl = some (float_value b.funding_pnl);
    position = some (position_document b.position);
    processed_decisions = some b.processed_decisions;
    paper_fill_count_complete = some (some b.paper_fill_count_complete);
    processed_funding = some b.processed_funding;
  }

  -- The loop of `_validate`.
  abbrev pub validate_entries : List (PaperEntry R) → Option Text
  validate_entries [] = none
  validate_entries (e ∷ entries) =
      refuse_if (not (is_price R e.price)) (codes "price must be finite and positive") (
        refuse_if (R.le e.quantity (zero_F R)) (codes "invalid position quantity")
          (validate_entries entries))

  abbrev is_nonempty : List (PaperEntry R) → Bool
  is_nonempty [] = false
  is_nonempty (e ∷ entries) = true

  -- `_validate`
  unfoldable pub validate : PaperBroker R → Option Text
  validate b =
      let p = b.position in
      refuse_if (not (R.is_finite b.cash)) (codes "invalid broker cash") (
        refuse_if (not (is_side p.direction || eq_ℤ p.direction (pos 0)))
          (codes "invalid direction")
          (refuse_if (not (eq_Bool (not (eq_ℤ p.direction (pos 0))) (is_nonempty p.entries)))
            (codes "position direction and entries disagree") (validate_entries p.entries)))

  -- `payload.get("paper_fill_count_complete", decisions_present)`, if it is a `bool`.
  abbrev pub completeness : PaperDocument → Option Bool
  completeness d = elim d.paper_fill_count_complete [
    | none ↦ some (is_some d.processed_decisions)
    | some flag ↦ flag
  ]

  abbrev pub required_float : Option (Scalar R) → Checked R.F
  required_float o = and_then (required o) (float_of R)

  -- `float(payload.get(key, 0.0))`
  abbrev pub float_or_zero : Option (Scalar R) → Checked R.F
  float_or_zero none = accepted (zero_F R)
  float_or_zero (some x) = float_of R x

  -- `PaperPosition(…)` of the document of a position.
  abbrev pub position_from : PositionDocument → Checked (PaperPosition R)
  position_from p = and_then (required p.direction) λ d. and_then (int_of R d) λ direction.
      and_then (required_float p.layer_quantity) λ quantity.
        and_then (required p.entries) λ entries.
          accepted (record { direction = direction; layer_quantity = quantity; entries = entries })

  abbrev pub validated : PaperBroker R → Option Text → Checked (PaperBroker R)
  validated b none = accepted b
  validated b (some m) = refused m

  abbrev pub checked_broker : PaperBroker R → Checked (PaperBroker R)
  checked_broker b = validated b (validate b)

  -- The broker, if the completeness of the fill count is a `bool`.
  abbrev pub loads :
      PaperDocument
      → R.F
      → R.F
      → R.F
      → R.F
      → PaperPosition R
      → Option Bool
      → Checked (PaperBroker R)
  loads d cash realized_pnl fees funding_pnl position none =
      refused (codes "invalid paper fill count completeness")
  loads d cash realized_pnl fees funding_pnl position (some complete) = checked_broker (record {
    cash = cash;
    realized_pnl = realized_pnl;
    fees = fees;
    funding_pnl = funding_pnl;
    position = position;
    processed_decisions = set_of (get_or d.processed_decisions []);
    paper_fill_count_complete = complete;
    processed_funding = set_of (get_or d.processed_funding []);
  })

  -- `from_dict`
  unfoldable pub from_dict : PaperDocument → Checked (PaperBroker R)
  from_dict d = and_then (required_float d.cash) λ cash.
      and_then (float_or_zero d.realized_pnl) λ realized_pnl.
        and_then (float_or_zero d.fees) λ fees.
          and_then (float_or_zero d.funding_pnl) λ funding_pnl. and_then (required d.position) λ p.
            and_then (position_from p)
              λ position. loads d cash realized_pnl fees funding_pnl position (completeness d)

  loaded-to_dict :
      (b : PaperBroker R)
      → ascending b.processed_decisions ≡ true
      → ascending b.processed_funding ≡ true
      → loads
          (to_dict b)
          b.cash
          b.realized_pnl
          b.fees
          b.funding_pnl
          b.position
          (some b.paper_fill_count_complete)
        ≡ checked_broker b
  unfolding to_dict
  loaded-to_dict b h k =
      rw (set_of-ascending b.processed_decisions h, set_of-ascending b.processed_funding k) refl

  -- A broker whose sets are written in their order and that `_validate` accepts is what `from_dict`
  -- makes of its `to_dict`, with every balance, the position, the processed IDs and the completeness
  -- of the fill count.
  pub from_dict-to_dict :
      (b : PaperBroker R)
      → ascending b.processed_decisions ≡ true
      → ascending b.processed_funding ≡ true
      → validate b ≡ none
      → from_dict (to_dict b) ≡ accepted b
  unfolding from_dict to_dict
  from_dict-to_dict b h k v = loaded-to_dict b h k ∙ ap (validated b) v
