-- ===== src/Layered/Cap.antt =====
-- sar_layered.py: the position once the actions of a later bar are filled.
use candle_mind.Base.Floats.{Floats}
use candle_mind.Base.Int.{eq_ℤ_sound, eq_ℤ}
use candle_mind.Base.Checked.{is_position, Checked, accepted, crashed, is_side, refused}
use candle_mind.Layered.Checks.{validate_position}
use candle_mind.Base.{
  sym, not, ◌||◌, split_if, Option, false, zero, refl, length-append, none, arith, is_some, some,
  suc, ◌-◌, ◌≤◌, ◌<◌, [], true, ◌∷◌, ◌≡◌, ℕ, length, List,
}
use candle_mind.Layered.Config.{
  SarLayeredTransition, SarLayeredState, SarLayeredConfig, SarLayeredActionType,
  LayeredPositionSnapshot, SarLayeredAction, SarLayeredSignal,
}
use candle_mind.Layered.Transition.{
  layer_triggered, waits, add_if, close_action, decided, weighted, raw_weights, prefix_weights,
  decide, geometric_layer_weights, entry_action, get_elem?,
}
use candle_mind.Base.Int.{pos_part, leb_ℤ, pos, ℤ}

-- The direction and the layers of a position after an action has been filled.
abbrev pub filled : {R : Floats} → SarLayeredAction R → ℤ × ℤ → ℤ × ℤ
filled a (d, l) = elim a.action [
  | SarLayeredActionType.open_first ↦ (a.direction, pos 1)
  | SarLayeredActionType.add_layer ↦ (d, pos (suc (pos_part l)))
  | SarLayeredActionType.reverse_close ↦ (pos 0, pos 0)
]

abbrev pub fills : {R : Floats} → List (SarLayeredAction R) → ℤ × ℤ → ℤ × ℤ
fills [] p = p
fills (a ∷ rest) p = fills rest (filled a p)

get_elem?-some : {A : Type 0} (l : List A) (n : ℕ) → n < length l → is_some (get_elem? l n) ≡ true
unfolding get_elem?
get_elem?-some [] n h = ground arith
get_elem?-some (x ∷ l) zero h = refl
get_elem?-some (x ∷ l) (suc n) h = get_elem?-some l n (omega (arith, h))

module _ (R : Floats) where
  length-raw : (m : R.F) (i n : ℕ) → length (raw_weights R m i n) ≡ n
  unfolding raw_weights
  length-raw m i zero = refl
  length-raw m i (suc n) = omega (arith, length-raw m (suc i) n)

  length-prefix : (total : R.F) (l : List R.F) → length (prefix_weights R total l) ≡ length l - 1
  unfolding prefix_weights
  length-prefix total [] = refl
  length-prefix total (x ∷ []) = refl
  length-prefix total (x ∷ y ∷ l) = ground (arith, length-prefix total (y ∷ l))

  -- There is a weight for each layer.
  length-geometric : (n : ℕ) (m : R.F) → 1 ≤ n → length (geometric_layer_weights R n m) ≡ n
  unfolding geometric_layer_weights
  length-geometric n m h = omega (
    arith,
    h,
    length-append (prefix_weights R (R.fsum (raw_weights R m 0 n)) (raw_weights R m 0 n)) (_ ∷ []),
    length-prefix (R.fsum (raw_weights R m 0 n)) (raw_weights R m 0 n),
    length-raw m 0 n,
  )

  weighted-some :
      (a : SarLayeredActionType) (d : ℤ) (n : ℕ) (o : Option R.F)
      → is_some o ≡ true
      → (w : R.F) × (weighted R a d n o
          ≡ some (record {
            action = a;
            direction = d;
            layer = some (pos (suc n));
            capital_weight = w;
          }))
  weighted-some a d n none h = ground arith
  weighted-some a d n (some w) h = (w, refl)

  entry-some :
      (a : SarLayeredActionType) (d : ℤ) (n k : ℕ) (m : R.F)
      → n < k
      → (w : R.F) × (entry_action R a d n (geometric_layer_weights R k m)
          ≡ some (record {
            action = a;
            direction = d;
            layer = some (pos (suc n));
            capital_weight = w;
          }))
  unfolding entry_action
  entry-some a d n k m h = weighted-some a d n (get_elem? (geometric_layer_weights R k m) n) (
      get_elem?-some (geometric_layer_weights R k m) n
        (omega (arith, h, length-geometric k m (omega (arith, h)))))

  -- What a decision on a later bar does to the position.
  unfoldable pub Fits :
      SarLayeredSignal R
      → LayeredPositionSnapshot R
      → SarLayeredConfig R
      → Checked (SarLayeredTransition R)
      → Type 0
  Fits s p c (refused m) = true ≡ false
  Fits s p c crashed = true ≡ false
  Fits s p c (accepted t) =
      (is_position c.max_layers (fills t.actions (p.direction, p.layers)) ≡ true)
      × ((fills t.actions (p.direction, p.layers)).0 ≡ s.sar_direction)

  -- One layer on a side.
  one-Fits :
      (state : SarLayeredState) (s : SarLayeredSignal R) (p : LayeredPositionSnapshot R)
      (c : SarLayeredConfig R) (d : ℤ) (w : R.F)
      → leb_ℤ (pos 1) c.max_layers ≡ true
      → is_side s.sar_direction ≡ true
      → Fits s p c (
          decided R state []
            (weighted R SarLayeredActionType.open_first s.sar_direction 0 (some w)))
        × Fits s p c (
            decided R state
              (close_action R d ∷ [])
              (weighted R SarLayeredActionType.open_first s.sar_direction 0 (some w)))
  unfolding Fits
  one-Fits state s p c d w few side = ground arith

  held-Fits :
      (s : SarLayeredSignal R) (p : LayeredPositionSnapshot R) (c : SarLayeredConfig R)
      → eq_ℤ p.direction (pos 0) ≡ false
      → validate_position R p c ≡ none
      → is_position c.max_layers (p.direction, p.layers) ≡ true
  unfolding validate_position
  held-Fits s p c opened fine = ground arith

  grown-Fits :
      (max d l : ℤ)
      → eq_ℤ d (pos 0) ≡ false
      → is_position max (d, l) ≡ true
      → leb_ℤ max l ≡ false
      → (is_position max (d, pos (suc (pos_part l))) ≡ true) × (pos_part l < pos_part max)
  grown-Fits max d l opened fine room = ground arith

  waits-Fits :
      (state : SarLayeredState) (s : SarLayeredSignal R) (p : LayeredPositionSnapshot R)
      (c : SarLayeredConfig R)
      → is_position c.max_layers (p.direction, p.layers) ≡ true
      → p.direction ≡ s.sar_direction
      → Fits s p c (waits R state)
  unfolding Fits
  waits-Fits state s p c held same = (held, same)

  add_if-Fits :
      (state : SarLayeredState) (s : SarLayeredSignal R) (p : LayeredPositionSnapshot R)
      (c : SarLayeredConfig R) (o : Option R.F)
      → is_some o ≡ true
      → p.direction ≡ s.sar_direction
      → is_position c.max_layers (p.direction, p.layers) ≡ true
      → is_position c.max_layers (p.direction, pos (suc (pos_part p.layers))) ≡ true
      → pos_part p.layers < pos_part c.max_layers
      → Fits s p c (add_if R state s p c o)
  unfolding Fits
  add_if-Fits state s p c none has same held grown room = ground arith
  add_if-Fits state s p c (some anchor) has same held grown room =
      let (w, adds) =
        entry-some SarLayeredActionType.add_layer p.direction (pos_part p.layers)
          (pos_part c.max_layers) c.multiplier room in
      split_if (Fits s p c) (layer_triggered R s.decision_close anchor p.direction c)
        (λ _. rw adds (grown, same)) (λ _. (held, same))

  anchored :
      (p : LayeredPositionSnapshot R) (c : SarLayeredConfig R)
      → eq_ℤ p.direction (pos 0) ≡ false
      → validate_position R p c ≡ none
      → is_some p.last_fill_price ≡ true
  unfolding validate_position
  anchored p c opened fine = ground arith

  pub decide-Fits :
      (state : SarLayeredState) (s : SarLayeredSignal R) (p : LayeredPositionSnapshot R)
      (c : SarLayeredConfig R)
      → leb_ℤ (pos 1) c.max_layers ≡ true
      → is_side s.sar_direction ≡ true
      → validate_position R p c ≡ none
      → Fits s p c (decide R state s p c)
  unfolding decide
  decide-Fits state s p c few side fine =
      let (w, first) =
        entry-some SarLayeredActionType.open_first s.sar_direction 0 (pos_part c.max_layers)
          c.multiplier (ground arith) in
      let (enters, reverses) = one-Fits state s p c p.direction w few side in
      split_if (Fits s p c) (eq_ℤ p.direction (pos 0)) (λ _. rw first enters)
        λ opened.
          split_if (Fits s p c) (s.sar_reversal || not (eq_ℤ s.sar_direction p.direction))
            (λ _. rw first reverses)
            λ same.
              let held = held-Fits s p c opened fine in
              let faces = eq_ℤ_sound s.sar_direction p.direction (ground arith) in
              split_if (Fits s p c) (leb_ℤ c.max_layers p.layers)
                (λ _. waits-Fits state s p c held (sym faces))
                λ room.
                  let (grown, less) =
                    grown-Fits c.max_layers p.direction p.layers opened held room in
                  add_if-Fits state s p c p.last_fill_price (anchored p c opened fine) (sym faces)
                    held grown less
