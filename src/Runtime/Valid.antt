-- ===== src/Runtime/Valid.antt =====
-- sar_adx_runtime.py: the actions and the funding keep the broker valid.
use candle_mind.Runtime.Tape.{FundingRow}
use candle_mind.Paper.Effects.{
  close_position-Effect, add_layer-Effect, open_position-Effect, Effect,
}
use candle_mind.Runtime.Actions.{settle_rows, run_actions, settled, acted, act, RuntimeFault}
use candle_mind.Base.Result.{err, ok, Result}
use candle_mind.Paper.Broker.{
  settle_funding, zero_division, value_error, runtime_error, returned, is_price, PaperFill, Call,
  PaperBroker,
}
use candle_mind.Pyramid.Config.{SarPyramidActionType, SarPyramidAction, SarPyramidConfig}
use candle_mind.Base.Int.{ℤ}
use candle_mind.Base.Text.{Text}
use candle_mind.Base.Floats.{Floats}
use candle_mind.Base.{
  refl, none, leb, suc, subst, ℕ, some, Option, [], ◌∷◌, true, ◌≡◌, split_if, List,
}
use candle_mind.Paper.Calls.{IsValid, Effect-Moves, settle_funding-Moves, Settled-Moves}

module _ (R : Floats) (timedelta : Text → Option ℤ) (c : SarPyramidConfig R) where
  -- From a valid broker to a valid broker, or to an exception.
  abbrev pub Keeps : PaperBroker R → Result RuntimeFault (PaperBroker R) → Type 0
  Keeps b (ok after) = IsValid R timedelta c b → IsValid R timedelta c after
  Keeps b (err f) = Unit

  kept_by :
      (b : PaperBroker R) (k l : Call R (PaperFill R)) (id : Text) (target : ℤ × ℤ)
      → Effect R c.layers b id target k
      → some k ≡ some l
      → IsValid R timedelta c b
      → IsValid R timedelta c l.0
  kept_by b k l id target e h v =
      let same : k ≡ l = cc in
      subst (λ (x : Call R (PaperFill R)). IsValid R timedelta c x.0) same
        ((Effect-Moves R timedelta c b id target k.0 k.1 e).valid v)

  -- An action that is not skipped.
  act-IsValid :
      (t : SarPyramidActionType) (d : ℤ) (b : PaperBroker R) (reference : R.F) (id : Text)
      (k : Call R (PaperFill R))
      → is_price R reference ≡ true
      → act R timedelta (record { action = t; direction = d }) b reference id c ≡ some k
      → IsValid R timedelta c b
      → IsValid R timedelta c k.0
  unfolding act
  act-IsValid SarPyramidActionType.open_position d b reference id k price h v =
      kept_by b _ k id _ (open_position-Effect R b id c timedelta d reference price) h v
  act-IsValid SarPyramidActionType.add_layer d b reference id k price h v =
      kept_by b _ k id _ (add_layer-Effect R b id c reference) h v
  act-IsValid SarPyramidActionType.reverse_close d b reference id k price h v =
      kept_by b _ k id _ (close_position-Effect R b id c _ reference) h v
  act-IsValid SarPyramidActionType.trend_filter_exit d b reference id k price h v =
      kept_by b _ k id _ (close_position-Effect R b id c _ reference) h v
  act-IsValid SarPyramidActionType.universe_exit d b reference id k price h v =
      kept_by b _ k id _ (close_position-Effect R b id c _ reference) h v
  act-IsValid SarPyramidActionType.hold d b reference id k price h v = cc

  chained :
      (b after : PaperBroker R) (r : Result RuntimeFault (PaperBroker R))
      → (IsValid R timedelta c b → IsValid R timedelta c after)
      → Keeps after r
      → Keeps b r
  chained b after (ok x) h k = λ v. k (h v)
  chained b after (err f) h k = tt

  acted-Keeps :
      (b : PaperBroker R) (o : Option (Call R (PaperFill R)))
      (next : PaperBroker R → List (PaperFill R) × Result RuntimeFault (PaperBroker R))
      → ((k : Call R (PaperFill R))
          → o ≡ some k
          → IsValid R timedelta c b
          → IsValid R timedelta c k.0)
      → ((x : PaperBroker R) → Keeps x (next x).1)
      → Keeps b (acted R timedelta next b o).1
  acted-Keeps b none next valid keeps = keeps b
  acted-Keeps b (some (after, returned f)) next valid keeps =
      chained b after (next after).1 (valid (after, returned f) refl) (keeps after)
  acted-Keeps b (some (after, runtime_error m)) next valid keeps = tt
  acted-Keeps b (some (after, value_error m)) next valid keeps = tt
  acted-Keeps b (some (after, zero_division)) next valid keeps = tt

  pub run_actions-Keeps :
      (id : ℕ → SarPyramidActionType → Text) (reference : R.F) (n : ℕ)
      (actions : List SarPyramidAction) (b : PaperBroker R)
      → is_price R reference ≡ true
      → Keeps b (run_actions R timedelta id reference c n actions b).1
  unfolding run_actions
  run_actions-Keeps id reference n [] b price = λ v. v
  run_actions-Keeps id reference n (a ∷ actions) b price =
      acted-Keeps b (act R timedelta a b reference (id n a.action) c)
        (run_actions R timedelta id reference c (suc n) actions)
        (λ k h v. act-IsValid a.action a.direction b reference (id n a.action) k price h v)
        (λ x. run_actions-Keeps id reference (suc n) actions x price)

  settled-Keeps :
      (b : PaperBroker R) (k : Call R R.F)
      (next : PaperBroker R → Result RuntimeFault (PaperBroker R))
      → (IsValid R timedelta c b → IsValid R timedelta c k.0)
      → ((x : PaperBroker R) → Keeps x (next x))
      → Keeps b (settled R timedelta next k)
  settled-Keeps b (after, returned x) next valid keeps =
      chained b after (next after) valid (keeps after)
  settled-Keeps b (after, runtime_error m) next valid keeps = tt
  settled-Keeps b (after, value_error m) next valid keeps = tt
  settled-Keeps b (after, zero_division) next valid keeps = tt

  pub settle_rows-Keeps :
      (isoformat : ℕ → Text) (cutoff : ℕ) (mark_price : R.F) (rows : List (FundingRow R))
      (b : PaperBroker R)
      → Keeps b (settle_rows R timedelta isoformat cutoff mark_price rows b)
  unfolding settle_rows
  settle_rows-Keeps isoformat cutoff mark_price [] b = λ v. v
  settle_rows-Keeps isoformat cutoff mark_price (row ∷ rows) b =
      split_if (Keeps b) (leb row.funding_time cutoff)
        (λ _.
          settled-Keeps b
            (settle_funding R b (isoformat row.funding_time) row.funding_rate mark_price) _
            (λ v.
              (Settled-Moves R timedelta c b _ (
                  settle_funding-Moves R timedelta c b (isoformat row.funding_time) row.funding_rate
                    mark_price)).valid
                v)
            (λ x. settle_rows-Keeps isoformat cutoff mark_price rows x))
        (λ _. settle_rows-Keeps isoformat cutoff mark_price rows b)
