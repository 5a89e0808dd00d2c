-- ===== src/Pyramid/Causal.antt =====
-- sar_pyramid.py: the rows of `parabolic_sar`, one for each bar, from that bar and those before it.
use candle_mind.Base.Checked.{is_side, accepted}
use candle_mind.Base.Int.{eq_ℤ, ℤ}
use candle_mind.Pyramid.Sar.{
  first_trend, row_of, sar_rows, direction_of, Trend, unknown_row, Bar, check_sar, sar_round,
  SarRow, sar_loop, reverses, parabolic_sar,
}
use candle_mind.Base.Floats.{Floats}
use candle_mind.Base.{
  ◌∙◌, sym, subst, refl, arith, ltb, length, ap, Bool, [], not, ◌∷◌, ◌++◌, false, true, ◌≡◌, List,
}

module _ (R : Floats) where
  -- Each row has a side, and is a reversal where that is not the side of the row before it.
  abbrev pub Turns : ℤ → List (SarRow R) → Type 0
  Turns d [] = Unit
  Turns d (r ∷ rows) =
      ((is_side r.sar_direction ≡ true) × (r.sar_reversal ≡ not (eq_ℤ d r.sar_direction)))
      × Turns r.sar_direction rows

  -- The first row is unknown, and the second has a side.
  unfoldable pub Reads : List (SarRow R) → Type 0
  Reads [] = ⊥
  Reads (r ∷ []) = ⊥
  Reads (r ∷ q ∷ rows) =
      (r ≡ unknown_row R)
      × (is_side q.sar_direction ≡ true)
      × (q.sar_reversal ≡ false)
      × Turns q.sar_direction rows

  module _ (step maximum : R.F) where
    reverses-direction :
        (b2 b1 : Bar R) (t : Trend R) (b : Bar R)
        → reverses R b2 b1 t b
          ≡ not (
              eq_ℤ
                (direction_of R t.bullish)
                (direction_of R (sar_round R step maximum b2 b1 t b).bullish))
    unfolding reverses sar_round
    reverses-direction b2 b1 t b = ground arith

    direction_of-side : (bullish : Bool) → is_side (direction_of R bullish) ≡ true
    direction_of-side true = refl
    direction_of-side false = refl

    sar_loop-Turns :
        (b2 b1 : Bar R) (t : Trend R) (bars : List (Bar R))
        → Turns (direction_of R t.bullish) (sar_loop R step maximum b2 b1 t bars)
    unfolding sar_loop
    sar_loop-Turns b2 b1 t [] = tt
    sar_loop-Turns b2 b1 t (b ∷ bars) = (
      (
        direction_of-side (sar_round R step maximum b2 b1 t b).bullish,
        reverses-direction b2 b1 t b,
      ),
      sar_loop-Turns b1 b (sar_round R step maximum b2 b1 t b) bars,
    )

    length-sar_loop :
        (b2 b1 : Bar R) (t : Trend R) (bars : List (Bar R))
        → length (sar_loop R step maximum b2 b1 t bars) ≡ length bars
    unfolding sar_loop
    length-sar_loop b2 b1 t [] = refl
    length-sar_loop b2 b1 t (b ∷ bars) =
        omega (arith, length-sar_loop b1 b (sar_round R step maximum b2 b1 t b) bars)

    -- The rows of more bars begin with those of the bars.
    sar_loop-append :
        (b2 b1 : Bar R) (t : Trend R) (bars later : List (Bar R))
        → (rest : List (SarRow R)) × (sar_loop R step maximum b2 b1 t (bars ++ later)
            ≡ sar_loop R step maximum b2 b1 t bars ++ rest)
    unfolding sar_loop
    sar_loop-append b2 b1 t [] later = (sar_loop R step maximum b2 b1 t later, refl)
    sar_loop-append b2 b1 t (b ∷ bars) later =
        let after = sar_loop-append b1 b (sar_round R step maximum b2 b1 t b) bars later in
        (
          after.0,
          ap (◌∷◌ (row_of R (sar_round R step maximum b2 b1 t b) (reverses R b2 b1 t b))) after.1,
        )

    rows_of :
        (bars : List (Bar R)) {rows : List (SarRow R)}
        → parabolic_sar R step maximum bars ≡ accepted rows
        → (sar_rows R step maximum bars ≡ rows) × (ltb (length bars) 2 ≡ false)
    unfolding parabolic_sar check_sar
    rows_of bars h = ground arith

    sar_rows-Reads :
        (bars : List (Bar R))
        → ltb (length bars) 2 ≡ false
        → (length (sar_rows R step maximum bars) ≡ length bars)
          × Reads (sar_rows R step maximum bars)
    unfolding sar_rows Reads
    sar_rows-Reads [] h = cc
    sar_rows-Reads (a ∷ []) h = cc
    sar_rows-Reads (a ∷ b ∷ bars) h =
        let t = first_trend R step a b in
        (
          omega (arith, length-sar_loop a b t bars),
          (refl, direction_of-side t.bullish, refl, sar_loop-Turns a b t bars),
        )

    sar_rows-append :
        (bars later : List (Bar R))
        → ltb (length bars) 2 ≡ false
        → (rest : List (SarRow R)) × (sar_rows R step maximum (bars ++ later)
            ≡ sar_rows R step maximum bars ++ rest)
    unfolding sar_rows
    sar_rows-append [] later h = cc
    sar_rows-append (a ∷ []) later h = cc
    sar_rows-append (a ∷ b ∷ bars) later h =
        let t = first_trend R step a b in
        let after = sar_loop-append a b t bars later in
        (after.0, ap (λ rows. unknown_row R ∷ row_of R t false ∷ rows) after.1)

    -- Where parabolic_sar does not raise, it gives one row for each bar: the first without a
    -- direction, the second with a side and no reversal, and each later row with a side that is
    -- marked as a reversal exactly where the side is not that of the row before.
    pub parabolic_sar-Reads :
        (bars : List (Bar R)) {rows : List (SarRow R)}
        → parabolic_sar R step maximum bars ≡ accepted rows
        → (length rows ≡ length bars) × Reads rows
    parabolic_sar-Reads bars {rows} h =
        let made = rows_of bars h in
        subst (λ r. (length r ≡ length bars) × Reads r) made.0 (sar_rows-Reads bars made.1)

    -- Where parabolic_sar does not raise on some bars, nor on these with later ones behind them, the
    -- rows of the longer frame begin with the rows of the shorter: no row depends on a later bar.
    pub parabolic_sar-causal :
        (bars later : List (Bar R)) {rows longer : List (SarRow R)}
        → parabolic_sar R step maximum bars ≡ accepted rows
        → parabolic_sar R step maximum (bars ++ later) ≡ accepted longer
        → (rest : List (SarRow R)) × (longer ≡ rows ++ rest)
    parabolic_sar-causal bars later {rows} {longer} h k =
        let made = rows_of bars h in
        let more = rows_of (bars ++ later) k in
        let parts = sar_rows-append bars later made.1 in
        (parts.0, sym more.0 ∙ parts.1 ∙ ap (λ r. r ++ parts.0) made.0)
