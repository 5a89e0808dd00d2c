-- ===== src/Orders/Risk.antt =====
-- exchange_executor.py: where the margin and the leverage of a position that `validate_symbol_risk`
-- accepts are written in the answers of the gateway.
use candle_mind.Orders.Account.{
  cons_if, int_of, truth, config_of, is_nonzero, direction_of, symbol_risk_config, unleveraged,
  amount_of, ConfigRow, ExchangePosition, non_flat, PositionRow, Answered,
}
use candle_mind.Base.{
  All, refl, subst, ap, get_or, ◌∙◌, none, some, Option, Bool, [], not, ◌∷◌, false, true, ◌≡◌, List,
  ◌⊎◌, inl, inr, sym,
}
use candle_mind.Base.Int.{eq_ℤ_sound, eq_ℤ, pos, ℤ}
use candle_mind.Base.Result.{bind-parts, ◌>>=◌, ok}
use candle_mind.Base.Table.{find}
use candle_mind.Base.Text.{codes, upper, text_eq, Text}
use candle_mind.Orders.Rules.{not-false, ok-injective, refuse-parts, Decimals}
use candle_mind.Json.Value.{Json}

module _ (K : Decimals) where
  -- An element of a list.
  abbrev pub Has : {A : Type 0} → List A → A → Type 0
  Has [] x = ⊥
  Has (y ∷ ys) x = (y ≡ x) ⊎ Has ys x

  -- The first configuration of the symbol says so.
  abbrev pub ConfigSays : Text → Answered K (List (ConfigRow K)) → Bool → ℤ → Type 0
  ConfigSays symbol configs isolated leverage =
      (rows : List (ConfigRow K)) × (row : ConfigRow K) × (configs ≡ ok rows)
      × (find (λ (r : ConfigRow K). text_eq r.symbol symbol) rows ≡ some row)
      × (text_eq (upper row.margin_type) (codes "ISOLATED") ≡ isolated)
      × (int_of K (get_or row.leverage (Json.int (pos 0))) ≡ ok leverage)

  -- A value of the row says that the margin is isolated, or the row has none and the configuration
  -- says so.
  abbrev pub IsIsolated : Text → Answered K (List (ConfigRow K)) → PositionRow K → Type 0
  IsIsolated symbol configs row =
      ((v : Json) × (row.isolated ≡ some v) × (truth K v ≡ true))
      ⊎ ((row.isolated ≡ none) × (n : ℤ) × ConfigSays symbol configs true n)

  abbrev pub IsUnleveraged : Text → Answered K (List (ConfigRow K)) → PositionRow K → Type 0
  IsUnleveraged symbol configs row =
      ((v : Json) × (row.leverage ≡ some v) × (int_of K v ≡ ok (pos 1)))
      ⊎ ((row.leverage ≡ none) × (b : Bool) × ConfigSays symbol configs b (pos 1))

  abbrev pub IsFlat : PositionRow K → Type 0
  IsFlat row = (x : K.D) × (amount_of K row ≡ ok x) × (is_nonzero K x ≡ false)

  -- The only row that may not be flat.
  abbrev pub IsLone : List (PositionRow K) → PositionRow K → Type 0
  IsLone rows row = Has rows row × All (λ r. IsFlat r ⊎ (row ≡ r)) rows

  -- A position on isolated margin with a leverage of one, and what says so: without rows, the
  -- configuration; else the only row that may not be flat, whose amount the position has.
  pub data IsSafe (symbol : Text) (positions : Answered K (List (PositionRow K)))
      (configs : Answered K (List (ConfigRow K))) (p : ExchangePosition K) : Type 0 where
    unheld :
        positions ≡ ok []
        → ConfigSays symbol configs true (pos 1)
        → p.direction ≡ pos 0
        → p.quantity ≡ K.zero
        → IsSafe symbol positions configs p
    held :
        (rows : List (PositionRow K)) (row : PositionRow K) (q : K.D)
        → positions ≡ ok rows
        → IsLone rows row
        → amount_of K row ≡ ok q
        → p.direction ≡ direction_of K q
        → p.quantity ≡ K.abs q
        → IsIsolated symbol configs row
        → IsUnleveraged symbol configs row
        → IsSafe symbol positions configs p

  -- The rows that are kept are rows, and the others are flat.
  abbrev pub Kept : List (PositionRow K) → List (PositionRow K) → Type 0
  Kept rows some_rows = All (Has rows) some_rows × All (λ r. IsFlat r ⊎ Has some_rows r) rows

  more-Has :
      (row : PositionRow K) (rows kept : List (PositionRow K))
      → All (Has rows) kept
      → All (Has (row ∷ rows)) kept
  more-Has row rows [] h = tt
  more-Has row rows (k ∷ kept) h = (inr h.0, more-Has row rows kept h.1)

  one_more :
      (row r : PositionRow K) (kept : List (PositionRow K))
      → IsFlat r ⊎ Has kept r
      → IsFlat r ⊎ Has (row ∷ kept) r
  one_more row r kept (inl flat) = inl flat
  one_more row r kept (inr h) = inr (inr h)

  others_more :
      (row : PositionRow K) (kept rows : List (PositionRow K))
      → All (λ r. IsFlat r ⊎ Has kept r) rows
      → All (λ r. IsFlat r ⊎ Has (row ∷ kept) r) rows
  others_more row kept [] h = tt
  others_more row kept (r ∷ rows) h = (one_more row r kept h.0, others_more row kept rows h.1)

  cons_if-Kept :
      (row : PositionRow K) (rows rest : List (PositionRow K)) (x : K.D) (b : Bool)
      → amount_of K row ≡ ok x
      → is_nonzero K x ≡ b
      → Kept rows rest
      → Kept (row ∷ rows) (cons_if K b row rest)
  cons_if-Kept row rows rest x true e h k =
      ((inl refl, more-Has row rows rest k.0), (inr (inl refl), others_more row rest rows k.1))
  cons_if-Kept row rows rest x false e h k = (more-Has row rows rest k.0, (inl (x, e, h), k.1))

  pub non_flat-Kept :
      (rows kept : List (PositionRow K)) → non_flat K rows ≡ ok kept → Kept rows kept
  unfolding non_flat
  non_flat-Kept [] kept h = let none_kept : [] ≡ kept = cc in subst (Kept []) none_kept (tt, tt)
  non_flat-Kept (row ∷ rows) kept h =
      let a = bind-parts (amount_of K row) _ kept h in
      let r = bind-parts (non_flat K rows) _ kept a.2 in
      let made = ok-injective (ok _) _ kept refl r.2 in
      subst (Kept (row ∷ rows)) made
        (cons_if-Kept row rows r.0 a.0 (is_nonzero K a.0) a.1 refl (non_flat-Kept rows r.0 r.1))

  unless_one : (r row : PositionRow K) → IsFlat r ⊎ ⊥ → IsFlat r ⊎ (row ≡ r)
  unless_one r row (inl flat) = inl flat
  unless_one r row (inr h) = elim h [ ]

  pub others_than_none :
      (rows : List (PositionRow K)) (row : PositionRow K)
      → All (λ r. IsFlat r ⊎ Has [] r) rows
      → All (λ r. IsFlat r ⊎ (row ≡ r)) rows
  others_than_none [] row h = tt
  others_than_none (r ∷ rows) row h = (unless_one r row h.0, others_than_none rows row h.1)

  only_one : (r row : PositionRow K) → IsFlat r ⊎ Has (row ∷ []) r → IsFlat r ⊎ (row ≡ r)
  only_one r row (inl flat) = inl flat
  only_one r row (inr (inl same)) = inr same
  only_one r row (inr (inr h)) = elim h [ ]

  pub others_than_one :
      (rows : List (PositionRow K)) (row : PositionRow K)
      → All (λ r. IsFlat r ⊎ Has (row ∷ []) r) rows
      → All (λ r. IsFlat r ⊎ (row ≡ r)) rows
  others_than_one [] row h = tt
  others_than_one (r ∷ rows) row h = (only_one r row h.0, others_than_one rows row h.1)

  pub unleveraged_sound :
      (p q : ExchangePosition K)
      → unleveraged K p ≡ ok q
      → (p ≡ q) × (p.isolated ≡ true) × (p.leverage ≡ pos 1)
  unleveraged_sound p q h =
      let a = refuse-parts (not p.isolated) _ _ q h in
      let b = refuse-parts (not (eq_ℤ p.leverage (pos 1))) _ _ q a.1 in
      (
        ok-injective (ok p) p q refl b.1,
        not-false _ a.0,
        eq_ℤ_sound p.leverage (pos 1) (not-false _ b.0),
      )

  module _ (symbol : Text) (configs : Answered K (List (ConfigRow K))) where
    config_says :
        (rows : List (ConfigRow K)) (o : Option (ConfigRow K)) (c : Bool × ℤ)
        → configs ≡ ok rows
        → find (λ (r : ConfigRow K). text_eq r.symbol symbol) rows ≡ o
        → config_of K o ≡ ok c
        → ConfigSays symbol configs c.0 c.1
    config_says rows none c e f h = cc
    config_says rows (some row) c e f h =
        let l = bind-parts (int_of K (get_or row.leverage (Json.int (pos 0)))) _ c h in
        let made = ok-injective (ok _) _ c refl l.2 in
        (rows, row, e, f, ap (λ (x : Bool × ℤ). x.0) made, l.1 ∙ ap (λ (x : Bool × ℤ). ok x.1) made)

    pub symbol_risk_config-ConfigSays :
        (c : Bool × ℤ)
        → symbol_risk_config K symbol configs ≡ ok c
        → ConfigSays symbol configs c.0 c.1
    unfolding symbol_risk_config
    symbol_risk_config-ConfigSays c h =
        let r = bind-parts configs _ c h in config_says r.0 _ c r.1 refl r.2

    -- What the values that `risk_of` takes say.
    abbrev pub RiskSays : Option Json → Option Json → Json × Json → Type 0
    RiskSays i l v =
        ((i ≡ some v.0)
          ⊎ ((i ≡ none)
              × (b : Bool) × (n : ℤ) × (v.0 ≡ Json.bool b)
              × ConfigSays symbol configs b n))
        × ((l ≡ some v.1)
            ⊎ ((l ≡ none)
                × (b : Bool) × (n : ℤ) × (v.1 ≡ Json.int n)
                × ConfigSays symbol configs b n))

    from_config :
        (c : Bool × ℤ) (l : Option Json)
        → ConfigSays symbol configs c.0 c.1
        → (l ≡ some (get_or l (Json.int c.1)))
          ⊎ ((l ≡ none)
              × (b : Bool) × (n : ℤ) × (get_or l (Json.int c.1) ≡ Json.int n)
              × ConfigSays symbol configs b n)
    from_config c none s = inr (refl, c.0, c.1, refl, s)
    from_config c (some v) s = inl refl

    pub chosen :
        (i l : Option Json) (v : Json × Json)
        → (elim i [
          | none ↦ symbol_risk_config K symbol configs >>= λ c.
              ok (Json.bool c.0, get_or l (Json.int c.1))
          | some isolated ↦ elim l [
            | none ↦ symbol_risk_config K symbol configs >>= λ c. ok (isolated, Json.int c.1)
            | some leverage ↦ ok (isolated, leverage)
          ]
        ])
          ≡ ok v
        → RiskSays i l v
    chosen none l v h =
        let c = bind-parts (symbol_risk_config K symbol configs) _ v h in
        let made = ok-injective (ok _) _ v refl c.2 in
        let says = symbol_risk_config-ConfigSays c.0 c.1 in
        subst (RiskSays none l) made (inr (refl, c.0.0, c.0.1, refl, says), from_config c.0 l says)
    chosen (some i) none v h =
        let c = bind-parts (symbol_risk_config K symbol configs) _ v h in
        let made = ok-injective (ok _) _ v refl c.2 in
        let says = symbol_risk_config-ConfigSays c.0 c.1 in
        subst (RiskSays (some i) none) made (inl refl, inr (refl, c.0.0, c.0.1, refl, says))
    chosen (some i) (some l) v h =
        let made = ok-injective (ok _) _ v refl h in
        subst (RiskSays (some i) (some l)) made (inl refl, inl refl)

    pub isolated_by :
        (row : PositionRow K) (v : Json × Json)
        → RiskSays row.isolated row.leverage v
        → truth K v.0 ≡ true
        → IsIsolated symbol configs row
    isolated_by row v (inl own, l) h = inl (v.0, own, h)
    isolated_by row v (inr (missing, b, n, e, says), l) h =
        let yes : b ≡ true = ap (truth K) (sym e) ∙ h in
        inr (missing, n, subst (λ x. ConfigSays symbol configs x n) yes says)

    pub single_by :
        (row : PositionRow K) (v : Json × Json)
        → RiskSays row.isolated row.leverage v
        → int_of K v.1 ≡ ok (pos 1)
        → IsUnleveraged symbol configs row
    single_by row v (i, inl own) h = inl (v.1, own, h)
    single_by row v (i, inr (missing, b, n, e, says)) h =
        let one = ok-injective (ok n) n (pos 1) refl (ap (int_of K) (sym e) ∙ h) in
        inr (missing, b, subst (λ x. ConfigSays symbol configs b x) one says)
