-- ===== src/Pyramid/Fits.antt =====
-- sar_pyramid.py: the position after a decision, and the entries that it counts.
use candle_mind.Base.Checked.{is_side, is_position}
use candle_mind.Pyramid.Transition.{
  is_direction, entry_aligned, regime_entries, capacity, entry_ready,
}
use candle_mind.Pyramid.Config.{
  TransitionResult, SarPyramidSignal, SarPyramidConfig, SarPyramidState, PositionSnapshot,
  SarPyramidActionType, SarPyramidAction,
}
use candle_mind.Base.{arith, false, true, ◌||◌, suc, ◌≡◌, Bool, [], ℕ, ◌∷◌, List}
use candle_mind.Base.Int.{ltb_ℤ, eq_ℤ_sound, pos_part, eq_ℤ, pos, leb_ℤ, ℤ}
use candle_mind.Base.Floats.{Floats}

-- The direction and the layers of a position after an action has been filled.
abbrev pub filled : SarPyramidAction → ℤ × ℤ → ℤ × ℤ
filled a (d, l) = elim a.action [
  | SarPyramidActionType.open_position ↦ (a.direction, pos 1)
  | SarPyramidActionType.add_layer ↦ (d, pos (suc (pos_part l)))
  | SarPyramidActionType.hold ↦ (d, l)
  | _ ↦ (pos 0, pos 0)
]

abbrev pub fills : List SarPyramidAction → ℤ × ℤ → ℤ × ℤ
fills [] p = p
fills (a ∷ rest) p = fills rest (filled a p)

-- The entries of a regime do not exceed their maximum, if there is one.
abbrev pub is_counted : ℤ → ℕ → Bool
is_counted most n = eq_ℤ most (pos 0) || leb_ℤ (pos n) most

module _ (R : Floats) where
  unfoldable pub Fits : PositionSnapshot R → SarPyramidConfig R → TransitionResult → Type 0
  Fits p c r =
      (is_position c.layers (fills r.actions (p.direction, p.layers)) ≡ true)
      × (is_counted c.max_entries_per_adx_regime r.state.regime_entry_count ≡ true)

  -- What holds of the arguments of a decision.
  pub record Sound (state : SarPyramidState) (s : SarPyramidSignal R) (p : PositionSnapshot R)
      (c : SarPyramidConfig R) : Type 0 where
    pub layered : leb_ℤ (pos 1) c.layers ≡ true
    pub limited : leb_ℤ (pos 0) c.max_entries_per_adx_regime ≡ true
    pub directed : is_direction s.sar_direction ≡ true
    pub placed : is_position c.layers (p.direction, p.layers) ≡ true
    pub counted : is_counted c.max_entries_per_adx_regime state.regime_entry_count ≡ true

  pub regime_entries-counted :
      (state : SarPyramidState) (s : SarPyramidSignal R) (c : SarPyramidConfig R)
      → leb_ℤ (pos 0) c.max_entries_per_adx_regime ≡ true
      → is_counted c.max_entries_per_adx_regime state.regime_entry_count ≡ true
      → is_counted c.max_entries_per_adx_regime (regime_entries R state s) ≡ true
  unfolding regime_entries
  regime_entries-counted state s c h k = ground arith

  -- A position that an entry opens, where there is capacity.
  pub entry-counted :
      (state : SarPyramidState) (s : SarPyramidSignal R) (c : SarPyramidConfig R)
      → capacity R state s c ≡ true
      → is_counted c.max_entries_per_adx_regime (suc (regime_entries R state s)) ≡ true
  unfolding capacity
  entry-counted state s c h = ground arith

  pub entry-side :
      (state : SarPyramidState) (s : SarPyramidSignal R) (c : SarPyramidConfig R)
      → is_direction s.sar_direction ≡ true
      → entry_ready R state s c ≡ true
      → is_side s.sar_direction ≡ true
  unfolding entry_ready entry_aligned
  entry-side state s c h k = ground (arith, eq_ℤ_sound s.entry_trend_direction s.sar_direction)

  pub one-position :
      (most d : ℤ)
      → leb_ℤ (pos 1) most ≡ true
      → is_side d ≡ true
      → is_position most (d, pos 1) ≡ true
  one-position most d h k = ground arith

  pub grown-position :
      (most d l : ℤ)
      → is_position most (d, l) ≡ true
      → eq_ℤ d (pos 0) ≡ false
      → ltb_ℤ l most ≡ true
      → is_position most (d, pos (suc (pos_part l))) ≡ true
  grown-position most d l h k r = ground arith
