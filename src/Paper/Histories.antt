-- ===== src/Paper/Histories.antt =====
-- paper_broker.py: what holds after any calls.
use candle_mind.Base.TextSet.{distinct-append, distinct, member}
use candle_mind.Paper.Calls.{
  call, call-Moves, stays-Moves, IsValid, is_priced, followed, Moves, PaperCall, calls,
}
use candle_mind.Paper.Broker.{PaperBroker}
use candle_mind.Pyramid.Config.{SarPyramidConfig}
use candle_mind.Base.Int.{ℤ}
use candle_mind.Base.Text.{Text}
use candle_mind.Base.Floats.{Floats}
use candle_mind.Base.{
  &&_split, arith, all_mono, all-append, all, Option, [], not, ◌∷◌, true, ◌≡◌, List,
}

module _ (R : Floats) (timedelta : Text → Option ℤ) (c : SarPyramidConfig R) where
  joined-Moves :
      (b : PaperBroker R) (mid after : PaperBroker R × List Text)
      → Moves R timedelta c b mid
      → Moves R timedelta c mid.0 after
      → Moves R timedelta c b (followed R timedelta c mid.1 after)
  joined-Moves b mid after m n = record {
    valid = λ v. n.valid (m.valid v);
    kept = λ x h. n.kept x (m.kept x h);
    new =
        all-append (λ x. not (member x b.processed_decisions)) mid.1 after.1 m.new
          (all_mono (λ x. not (member x mid.0.processed_decisions)) _ after.1
            (λ x h. ground (arith, m.kept x)) n.new);
    once = distinct-append mid.0.processed_decisions mid.1 after.1 m.once n.once m.recorded n.new;
    recorded =
        all-append (λ x. member x after.0.processed_decisions) mid.1 after.1
          (all_mono (λ x. member x mid.0.processed_decisions) _ mid.1 n.kept m.recorded) n.recorded;
  }

  calls-Moves :
      (b : PaperBroker R) (ks : List (PaperCall R))
      → all (is_priced R) ks ≡ true
      → Moves R timedelta c b (calls R timedelta c b ks)
  unfolding calls
  calls-Moves b [] h = stays-Moves R timedelta c b
  calls-Moves b (k ∷ ks) h =
      let parts = &&_split (is_priced R k) (all (is_priced R) ks) h in
      let first = call-Moves R timedelta c b k parts.0 in
      let rest = calls-Moves (call R timedelta c b k).0 ks parts.1 in
      joined-Moves b (call R timedelta c b k) (calls R timedelta c (call R timedelta c b k).0 ks)
        first rest

  -- From a valid broker, and where every open is at a finite positive price, any calls leave a valid
  -- broker: flat without an entry, or on one side with one to `layers` entries, with its decisions
  -- and its settled funding as sets.
  pub calls-IsValid :
      (b : PaperBroker R) (ks : List (PaperCall R))
      → all (is_priced R) ks ≡ true
      → IsValid R timedelta c b
      → IsValid R timedelta c (calls R timedelta c b ks).0
  calls-IsValid b ks h v = (calls-Moves b ks h).valid v

  -- Where every open is at a finite positive price, any calls fill every decision at most once, fill
  -- none that the broker had recorded before, and have recorded each that they fill.
  pub fills_once :
      (b : PaperBroker R) (ks : List (PaperCall R))
      → all (is_priced R) ks ≡ true
      → (distinct (calls R timedelta c b ks).1 ≡ true)
        × (all (λ x. not (member x b.processed_decisions)) (calls R timedelta c b ks).1 ≡ true)
        × (all
              (λ x. member x (calls R timedelta c b ks).0.processed_decisions)
              (calls R timedelta c b ks).1
            ≡ true)
  fills_once b ks h = let m = calls-Moves b ks h in (m.once, m.new, m.recorded)
