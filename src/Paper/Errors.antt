-- ===== src/Paper/Errors.antt =====
-- paper_broker.py: the three calls that fill, each on all its branches.
use candle_mind.Paper.Effects.{
  close_position-Effect, add_layer-Effect, open_position-Effect, Effect,
}
use candle_mind.Paper.Broker.{
  close_position, add_layer, open_position, PaperFill, Call, is_price, PaperBroker,
}
use candle_mind.Pyramid.Config.{SarPyramidConfig}
use candle_mind.Base.Text.{Text}
use candle_mind.Base.Int.{pos, ℤ}
use candle_mind.Base.Floats.{Floats}
use candle_mind.Base.{length, suc, Option, true, ◌≡◌}

pub data Fill : Type 0 where
  opening : ℤ → Fill
  adding : Fill
  closing : Text → Fill

module _ (R : Floats) (timedelta : Text → Option ℤ) (c : SarPyramidConfig R) where
  unfoldable pub fill : PaperBroker R → Fill → R.F → Text → Call R (PaperFill R)
  fill b (opening direction) reference decision_id =
      open_position R timedelta b direction reference decision_id c
  fill b adding reference decision_id = add_layer R b reference decision_id c
  fill b (closing action) reference decision_id = close_position R b action reference decision_id c

  -- The position after the fill.
  unfoldable pub target : PaperBroker R → Fill → ℤ × ℤ
  target b (opening direction) = (direction, pos 1)
  target b adding = (b.position.direction, pos (suc (length b.position.entries)))
  target b (closing action) = (pos 0, pos 0)

  -- At a finite positive price, `open`, `add` and `close` either return a fill under their decision
  -- ID, which was not empty or recorded before and is recorded then, with the position at one layer
  -- of the side that was asked for, at one more layer of its side, or flat; or they raise and leave
  -- the broker as it was, except that the ID may have been recorded.
  pub fill-Effect :
      (b : PaperBroker R) (f : Fill) (reference : R.F) (decision_id : Text)
      → is_price R reference ≡ true
      → Effect R c.layers b decision_id (target b f) (fill b f reference decision_id)
  unfolding fill target
  fill-Effect b (opening direction) reference decision_id h =
      open_position-Effect R b decision_id c timedelta direction reference h
  fill-Effect b adding reference decision_id h = add_layer-Effect R b decision_id c reference
  fill-Effect b (closing action) reference decision_id h =
      close_position-Effect R b decision_id c action reference
