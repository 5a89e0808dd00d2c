-- ===== src/Pyramid/Decisions.antt =====
-- sar_pyramid.py: every branch of `transition_sar_pyramid`.
use candle_mind.Pyramid.Transition.{
  progressive, recaptured, against_trend, may_enter, pulled_back, opened_state, stays, capacity,
  entry_ready, add_or_delay, disarmed, is_flat, may_add, reversed, add_anchor, delayed, closes_if,
  decide, stepped, can_delayed_open, does,
}
use candle_mind.Base.Checked.{is_position}
use candle_mind.Pyramid.Fits.{
  entry-counted, one-position, entry-side, grown-position, regime_entries-counted, is_counted, Fits,
  Sound, filled, fills,
}
use candle_mind.Base.Int.{eq_ℤ_sound, ltb_ℤ, eq_ℤ, pos, ℤ}
use candle_mind.Base.Floats.{Floats}
use candle_mind.Pyramid.Config.{
  SarPyramidConfig, PositionSnapshot, SarPyramidSignal, SarPyramidState, SarPyramidActionType,
  SarPyramidAction,
}
use candle_mind.Base.{
  &&_split, none, arith, some, Option, refl, [], not, ◌∷◌, ◌++◌, false, true, ◌≡◌, split_if, List,
}

-- A fill after others.
pub fills-append :
    (first next : List SarPyramidAction) (p : ℤ × ℤ)
    → fills (first ++ next) p ≡ fills next (fills first p)
fills-append [] next p = refl
fills-append (a ∷ first) next p = fills-append first next (filled a p)

-- What a decision closes leaves no position.
leaves-flat :
    (R : Floats) (most d l : ℤ) (a : SarPyramidActionType)
    → is_position most (d, l) ≡ true
    → filled (does a d) (d, l) ≡ (pos 0, pos 0)
    → fills (closes_if R (not (is_flat d)) a d) (d, l) ≡ (pos 0, pos 0)
leaves-flat R most d l a h e =
    split_if (λ actions. fills actions (d, l) ≡ (pos 0, pos 0)) (not (is_flat d)) (λ held. e)
      (λ flat. ground (arith, eq_ℤ_sound d (pos 0), eq_ℤ_sound l (pos 0)))

module _ (R : Floats) (state : SarPyramidState) (s : SarPyramidSignal R) (p : PositionSnapshot R)
    (c : SarPyramidConfig R) (sound : Sound R state s p c) where
  steady : is_counted c.max_entries_per_adx_regime (stepped R state s).regime_entry_count ≡ true
  unfolding stepped
  steady = regime_entries-counted R state s c sound.limited sound.counted

  may_enter-parts :
      may_enter R state s c ≡ true
      → (entry_ready R state s c ≡ true) × (capacity R state s c ≡ true)
  unfolding may_enter
  may_enter-parts h = &&_split (entry_ready R state s c) (capacity R state s c) h

  opens-Fits :
      (before : List SarPyramidAction)
      → may_enter R state s c ≡ true
      → Fits R p c (record {
        state = opened_state R (stepped R state s);
        actions = before ++ does SarPyramidActionType.open_position s.sar_direction ∷ [];
      })
  unfolding Fits stepped
  opens-Fits before ready =
      let both = may_enter-parts ready in
      let side = entry-side R state s c sound.directed both.0 in
      let opened = one-position R c.layers s.sar_direction sound.layered side in
      let counted = entry-counted R state s c both.1 in
      (
        rw
            (fills-append before (does SarPyramidActionType.open_position s.sar_direction ∷ [])
              (p.direction, p.layers))
            opened,
        counted,
      )

  leaves-Fits :
      (a : SarPyramidActionType) (next : SarPyramidState)
      → is_counted c.max_entries_per_adx_regime next.regime_entry_count ≡ true
      → filled (does a p.direction) (p.direction, p.layers) ≡ (pos 0, pos 0)
      → Fits R p c
          (record { state = next; actions = closes_if R (not (is_flat p.direction)) a p.direction })
  unfolding Fits
  leaves-Fits a next h e =
      (rw (leaves-flat R c.layers p.direction p.layers a sound.placed e) refl, h)

  stays-Fits :
      (next : SarPyramidState)
      → is_counted c.max_entries_per_adx_regime next.regime_entry_count ≡ true
      → Fits R p c (stays R next)
  unfolding Fits
  stays-Fits next h = (sound.placed, h)

  reversed-Fits : Fits R p c (reversed R state s p c)
  unfolding reversed
  reversed-Fits =
      split_if (Fits R p c) (may_enter R state s c) (λ ready. opens-Fits _ ready)
        (λ _.
          leaves-Fits SarPyramidActionType.reverse_close (disarmed R (stepped R state s)) steady
            refl)

  grows-Fits :
      eq_ℤ p.direction (pos 0) ≡ false
      → ltb_ℤ p.layers c.layers ≡ true
      → Fits R p c (record {
        state = disarmed R (stepped R state s);
        actions = does SarPyramidActionType.add_layer p.direction ∷ [];
      })
  unfolding Fits
  grows-Fits held room =
      (grown-position R c.layers p.direction p.layers sound.placed held room, steady)

  may_add-Fits :
      (execution_open anchor : R.F)
      → eq_ℤ p.direction (pos 0) ≡ false
      → ltb_ℤ p.layers c.layers ≡ true
      → Fits R p c (may_add R (stepped R state s) s p execution_open c anchor)
  unfolding may_add
  may_add-Fits execution_open anchor held room =
      split_if (Fits R p c) (recaptured R (stepped R state s) s p c anchor)
        (λ _.
          split_if (Fits R p c) (progressive R p execution_open c anchor)
            (λ _. grows-Fits held room) (λ _. stays-Fits _ steady))
        (λ _.
          split_if (Fits R p c) (pulled_back R (stepped R state s) s p anchor)
            (λ _. stays-Fits _ steady) (λ _. stays-Fits _ steady))

  delayed_ready : can_delayed_open R state s p c ≡ true → may_enter R state s c ≡ true
  unfolding can_delayed_open
  delayed_ready h = ground arith

  delayed-Fits : Fits R p c (delayed R state s p c)
  unfolding delayed
  delayed-Fits =
      split_if (Fits R p c) (can_delayed_open R state s p c)
        (λ opens. opens-Fits [] (delayed_ready opens)) (λ _. stays-Fits (stepped R state s) steady)

  trend_exit-Fits : Fits R p c (record {
    state = disarmed R (stepped R state s);
    actions = does SarPyramidActionType.trend_filter_exit p.direction ∷ [];
  })
  unfolding Fits
  trend_exit-Fits = (refl, steady)

  adds_to :
      (anchor : R.F)
      → add_anchor R s p c ≡ some anchor
      → (eq_ℤ p.direction (pos 0) ≡ false) × (ltb_ℤ p.layers c.layers ≡ true)
  adds_to anchor h = ground arith

  add_or_delay-Fits :
      (execution_open : R.F) (anchor : Option R.F)
      → add_anchor R s p c ≡ anchor
      → Fits R p c (add_or_delay R state s p execution_open c anchor)
  add_or_delay-Fits execution_open none e = delayed-Fits
  add_or_delay-Fits execution_open (some anchor) e =
      may_add-Fits execution_open anchor (adds_to anchor e).0 (adds_to anchor e).1

  pub decide-Fits : (execution_open : R.F) → Fits R p c (decide R state s p execution_open c)
  unfolding decide
  decide-Fits execution_open =
      split_if (Fits R p c) (not s.eligible)
        (λ _. leaves-Fits SarPyramidActionType.universe_exit (disarmed R state) sound.counted refl)
        (λ _.
          split_if (Fits R p c) s.sar_reversal (λ _. reversed-Fits)
            (λ _.
              split_if (Fits R p c) (against_trend R s p) (λ _. trend_exit-Fits)
                (λ _. add_or_delay-Fits execution_open (add_anchor R s p c) refl)))
