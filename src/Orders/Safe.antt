-- ===== src/Orders/Safe.antt =====
-- exchange_executor.py: `validate_symbol_risk` and `current_position`.
use candle_mind.Orders.Risk.{
  single_by, isolated_by, non_flat-Kept, held, chosen, ConfigSays, others_than_one, unheld,
  others_than_none, symbol_risk_config-ConfigSays, unleveraged_sound, IsLone, Kept, IsSafe,
}
use candle_mind.Orders.Account.{
  non_flat, risk_of, amount_of, row_position, int_of, one_position, truth, symbol_risk_config,
  position_in, direction_of, position_of, ExchangePosition, ConfigRow, PositionRow,
  validate_symbol_risk, current_position, Answered,
}
use candle_mind.Base.{refl, subst, ap, ◌∙◌, [], ◌∷◌, true, ◌≡◌, List, inl, sym}
use candle_mind.Base.Int.{pos}
use candle_mind.Base.Result.{bind-parts, ok}
use candle_mind.Base.Text.{Text}
use candle_mind.Orders.Intents.{normalized_symbol}
use candle_mind.Orders.Rules.{ok-injective, non_negative_decimal, Decimals}
use candle_mind.Json.Value.{Json}

module _ (K : Decimals) where
  module _ (symbol : Text) (configs : Answered K (List (ConfigRow K))) (p : ExchangePosition K)
      (isolated : p.isolated ≡ true) (single : p.leverage ≡ pos 1) where
    -- What a position that was made of a row has of it.
    abbrev Made : PositionRow K → K.D → Json × Json → Type 0
    Made row q v =
        (p.symbol ≡ symbol)
        × (p.direction ≡ direction_of K q)
        × (p.quantity ≡ K.abs q)
        × (truth K v.0 ≡ true)
        × (int_of K v.1 ≡ ok (pos 1))

    position_of-Made :
        (row : PositionRow K) (q : K.D) (v : Json × Json)
        → position_of K symbol row q v ≡ ok p
        → Made row q v
    position_of-Made row q v h =
        let price = bind-parts (non_negative_decimal K (K.decimal_of row.entry_price)) _ p h in
        let leverage = bind-parts (int_of K v.1) _ p price.2 in
        let made = ok-injective (ok _) _ p refl leverage.2 in
        (
          ap (λ (x : ExchangePosition K). x.symbol) (sym made),
          ap (λ (x : ExchangePosition K). x.direction) (sym made),
          ap (λ (x : ExchangePosition K). x.quantity) (sym made),
          ap (λ (x : ExchangePosition K). x.isolated) made ∙ isolated,
          leverage.1 ∙ ap (λ (x : ExchangePosition K). ok x.leverage) made ∙ ap ok single,
        )

    row_position-IsSafe :
        (positions : Answered K (List (PositionRow K))) (rows : List (PositionRow K))
        (row : PositionRow K)
        → positions ≡ ok rows
        → IsLone K rows row
        → row_position K symbol (symbol_risk_config K symbol configs) row ≡ ok p
        → (p.symbol ≡ symbol) × IsSafe K symbol positions configs p
    row_position-IsSafe positions rows row e lone h =
        let q = bind-parts (amount_of K row) _ p h in
        let v = bind-parts (risk_of K row (symbol_risk_config K symbol configs)) _ p q.2 in
        let says = chosen K symbol configs row.isolated row.leverage v.0 v.1 in
        let made = position_of-Made row q.0 v.0 v.2 in
        (
          made.0,
          held rows row q.0 e lone q.1 made.1 made.2
              (isolated_by K symbol configs row v.0 says made.3)
              (single_by K symbol configs row v.0 says made.4),
        )

    one_position-IsSafe :
        (positions : Answered K (List (PositionRow K))) (first : PositionRow K)
        (more kept : List (PositionRow K))
        → positions ≡ ok (first ∷ more)
        → Kept K (first ∷ more) kept
        → one_position K symbol (symbol_risk_config K symbol configs) first kept ≡ ok p
        → (p.symbol ≡ symbol) × IsSafe K symbol positions configs p
    one_position-IsSafe positions first more [] e k h =
        row_position-IsSafe positions (first ∷ more) first e
          (inl refl, others_than_none K (first ∷ more) first k.1) h
    one_position-IsSafe positions first more (row ∷ []) e k h =
        row_position-IsSafe positions (first ∷ more) row e
          (k.0.0, others_than_one K (first ∷ more) row k.1) h
    one_position-IsSafe positions first more (row ∷ other ∷ kept) e k h = cc

    position_in-IsSafe :
        (positions : Answered K (List (PositionRow K))) (rows : List (PositionRow K))
        → positions ≡ ok rows
        → position_in K symbol (symbol_risk_config K symbol configs) rows ≡ ok p
        → (p.symbol ≡ symbol) × IsSafe K symbol positions configs p
    position_in-IsSafe positions [] e h =
        let c = bind-parts (symbol_risk_config K symbol configs) _ p h in
        let made = ok-injective (ok _) _ p refl c.2 in
        let says = symbol_risk_config-ConfigSays K symbol configs c.0 c.1 in
        let yes : c.0.0 ≡ true = ap (λ (x : ExchangePosition K). x.isolated) made ∙ isolated in
        let one : c.0.1 ≡ pos 1 = ap (λ (x : ExchangePosition K). x.leverage) made ∙ single in
        (
          ap (λ (x : ExchangePosition K). x.symbol) (sym made),
          unheld e
              (subst (λ b. ConfigSays K symbol configs b (pos 1)) yes
                (subst (λ n. ConfigSays K symbol configs c.0.0 n) one says))
              (ap (λ (x : ExchangePosition K). x.direction) (sym made))
              (ap (λ (x : ExchangePosition K). x.quantity) (sym made)),
        )
    position_in-IsSafe positions (row ∷ rows) e h =
        let k = bind-parts (non_flat K (row ∷ rows)) _ p h in
        one_position-IsSafe positions row rows k.0 e (non_flat-Kept K (row ∷ rows) k.0 k.1) k.2

  current_position-IsSafe :
      (symbol : Text) (positions : Answered K (List (PositionRow K)))
      (configs : Answered K (List (ConfigRow K))) (p : ExchangePosition K)
      → current_position K symbol positions configs ≡ ok p
      → p.isolated ≡ true
      → p.leverage ≡ pos 1
      → (normalized_symbol symbol ≡ ok p.symbol) × IsSafe K p.symbol positions configs p
  unfolding current_position
  current_position-IsSafe symbol positions configs p h isolated single =
      let n = bind-parts (normalized_symbol symbol) _ p h in
      let rows = bind-parts positions _ p n.2 in
      let safe = position_in-IsSafe n.0 configs p isolated single positions rows.0 rows.1 rows.2 in
      (n.1 ∙ ap ok (sym safe.0), subst (λ x. IsSafe K x positions configs p) (sym safe.0) safe.1)

  -- Where validate_symbol_risk accepts a position, it is of the normalised symbol. Either the gateway
  -- has no row of it, the position is flat, and the configuration of the symbol says isolated margin
  -- and a leverage of one. Or all rows but one are flat, the position has the amount of that row, and
  -- that row says isolated margin and a leverage of one, or where it lacks the value, the configuration
  -- of the symbol does.
  pub validate_symbol_risk-IsSafe :
      (symbol : Text) (positions : Answered K (List (PositionRow K)))
      (configs : Answered K (List (ConfigRow K))) (p : ExchangePosition K)
      → validate_symbol_risk K symbol positions configs ≡ ok p
      → (normalized_symbol symbol ≡ ok p.symbol) × IsSafe K p.symbol positions configs p
  unfolding validate_symbol_risk
  validate_symbol_risk-IsSafe symbol positions configs p h =
      let c = bind-parts (current_position K symbol positions configs) _ p h in
      let u = unleveraged_sound K c.0 p c.2 in
      current_position-IsSafe symbol positions configs p (c.1 ∙ ap ok u.0)
        (ap (λ (x : ExchangePosition K). x.isolated) (sym u.0) ∙ u.1)
        (ap (λ (x : ExchangePosition K). x.leverage) (sym u.0) ∙ u.2)
