-- ===== src/Paper/Tests.antt =====
-- The paper broker on whole numbers that stand for floats, and its theorems at a few calls.
use candle_mind.Pyramid.Config.{validate_config, adx_timedelta}
use candle_mind.Paper.Errors.{fill-Effect, fill, Fill, target}
use candle_mind.Paper.Histories.{fills_once, calls-IsValid}
use candle_mind.Base.Checked.{accepted}
use candle_mind.Base.Scalar.{int_value, float_value, bool_value}
use candle_mind.Base.Int.{negsuc, pos}
use candle_mind.Pyramid.Sample.{hour, config, whole}
use candle_mind.Base.Text.{is_space, lstrip, strip, codes, text_eq, text_ltb}
use candle_mind.Base.TextSet.{insert, member, set_of, distinct}
use candle_mind.Paper.Calls.{is_priced, call, calls, IsValid, PaperCall}
use candle_mind.Paper.Effects.{Effect}
use candle_mind.Paper.Broker.{
  is_zero, open_priced, closed, add_entry, filled_in, settle_funding, open_position, close_position,
  add_layer, is_price, PaperBroker,
}
use candle_mind.Paper.Document.{from_dict-to_dict, to_dict, validate, PaperDocument, from_dict}
use candle_mind.Base.{false, some, refl, none, all, [], not, ◌∷◌, true, ◌≡◌, List}

abbrev broker : PaperBroker whole
broker = record {
  cash = pos 10000;
  realized_pnl = pos 0;
  fees = pos 0;
  funding_pnl = pos 0;
  position = record {
    direction = pos 1;
    layer_quantity = pos 5;
    entries = record { price = pos 100; quantity = pos 5 } ∷ [];
  };
  processed_decisions = codes "a" ∷ codes "b" ∷ [];
  paper_fill_count_complete = true;
  processed_funding = codes "f" ∷ [];
}

abbrev history : List (PaperCall whole)
history =
    PaperCall.adds (pos 120) (codes "c")
    ∷ PaperCall.adds (pos 130) (codes "c")
    ∷ PaperCall.settles (codes "f") (pos 1) (pos 120)
    ∷ PaperCall.closes (codes "reverse_close") (pos 110) (codes "d")
    ∷ PaperCall.opens (negsuc 0) (pos 110) (codes "e")
    ∷ []

history_test : (calls whole hour config broker history).1 ≡ codes "c" ∷ codes "d" ∷ codes "e" ∷ []
unfolding calls call add_layer close_position open_position settle_funding filled_in add_entry
    closed open_priced is_price is_zero text_eq insert member text_ltb validate_config strip lstrip
    is_space adx_timedelta
history_test = refl

broker-IsValid : IsValid whole hour config broker
unfolding text_ltb
broker-IsValid = record { placed = refl; decisions = refl; funding = refl }

history_priced : all (is_priced whole) history ≡ true
unfolding is_price text_eq
history_priced = refl

calls-IsValid_example : IsValid whole hour config (calls whole hour config broker history).0
calls-IsValid_example = calls-IsValid whole hour config broker history history_priced broker-IsValid

fills_once_example :
    (distinct (calls whole hour config broker history).1 ≡ true)
    × (all
          (λ x. not (member x broker.processed_decisions))
          (calls whole hour config broker history).1
        ≡ true)
    × (all
          (λ x. member x (calls whole hour config broker history).0.processed_decisions)
          (calls whole hour config broker history).1
        ≡ true)
fills_once_example = fills_once whole hour config broker history history_priced

reference_priced : is_price whole (pos 120) ≡ true
unfolding is_price text_eq
reference_priced = refl

fill-Effect_example :
    Effect whole config.layers broker
      (codes "c")
      (target whole hour config broker Fill.adding)
      (fill whole hour config broker Fill.adding (pos 120) (codes "c"))
fill-Effect_example =
    fill-Effect whole hour config broker Fill.adding (pos 120) (codes "c") reference_priced

-- An older document, with an integer for a float and without some of the keys.
abbrev document : PaperDocument whole
document = record {
  cash = some (int_value (pos 10000));
  realized_pnl = none;
  fees = some (bool_value false);
  funding_pnl = none;
  position = some (record {
    direction = some (float_value (pos 1));
    layer_quantity = some (float_value (pos 5));
    entries = some broker.position.entries;
  });
  processed_decisions = some (codes "b" ∷ codes "a" ∷ codes "b" ∷ []);
  paper_fill_count_complete = none;
  processed_funding = some (codes "f" ∷ []);
}

document_loads : from_dict whole document ≡ accepted broker
unfolding from_dict validate is_price text_eq set_of insert text_ltb
document_loads = refl

broker_accepted : validate whole broker ≡ none
unfolding validate is_price text_eq
broker_accepted = refl

from_dict-to_dict_example : from_dict whole (to_dict whole broker) ≡ accepted broker
from_dict-to_dict_example =
    from_dict-to_dict whole broker broker-IsValid.decisions broker-IsValid.funding broker_accepted
