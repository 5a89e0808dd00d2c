-- ===== src/Intent/Calls.antt =====
-- strategy_runtime_intent.py: calls of the methods that write, by any processes, and what a lease that
-- was inspected says of its file.
use candle_mind.Base.Dict.{lookup}
use candle_mind.Json.Value.{Fields}
use candle_mind.Base.Int.{ℤ}
use candle_mind.Base.Text.{text_eq_sound, Text}
use candle_mind.Intent.Store.{
  release_lease, renew_lease, reclaim_stale_lease, File, acquire_lease, Process, set_desired_state,
  Store,
}
use candle_mind.Base.Result.{err, ok, Result}
use candle_mind.Intent.Document.{
  LeaseDocument, Fault, StrategyScope, TradingLease, same_scope, is_lease, Calendar,
}
use candle_mind.Base.Floats.{Floats}
use candle_mind.Base.{Bool, arith, Option, [], ◌∷◌, ◌++◌, true, ◌≡◌, List}

module _ (R : Floats) (calendar : Calendar R) where
  pub data StoreCall : Type 0 where
    sets : Text → StrategyScope → Fields → StoreCall
    acquires : StrategyScope → Text → R.F → Text → StoreCall
    reclaims_stale : StrategyScope → Text → Text → StoreCall
    renews : TradingLease R → R.F → StoreCall
    releases : TradingLease R → StoreCall

  -- A call with the process that makes it, the time, and what its host says of processes.
  pub record At : Type 0 where
    pub me : Process
    pub now : R.F
    pub alive : ℤ → Bool
    pub call : StoreCall

  abbrev pub granted_of :
      {A : Type 0} → A → Result Fault (TradingLease R) → A × List (TradingLease R)
  granted_of s (ok l) = (s, l ∷ [])
  granted_of s (err f) = (s, [])

  -- The store after a call, with the lease that it grants.
  unfoldable pub step : Store R calendar → At → Store R calendar × List (TradingLease R)
  unfolding set_desired_state acquire_lease reclaim_stale_lease renew_lease release_lease
  step s a = elim a.call [
    | sets desired_state scope config ↦
        ((set_desired_state R calendar s a.now desired_state scope config).0, [])
    | acquires scope runtime_id ttl lease_id ↦
        (let r = acquire_lease R calendar a.me a.now a.alive s scope runtime_id ttl lease_id in
          granted_of r.0 r.1)
    | reclaims_stale scope expected_lease_id reason ↦
        ((reclaim_stale_lease R calendar a.me a.now a.alive s scope expected_lease_id reason).0, [])
    | renews l ttl ↦ ((renew_lease R calendar a.me a.now s l ttl).0, [])
    | releases l ↦ ((release_lease R calendar a.me s l).0, [])
  ]

  unfoldable pub run : Store R calendar → List At → Store R calendar × List (TradingLease R)
  unfolding step
  run s [] = (s, [])
  run s (a ∷ ats) = let later = run (step s a).0 ats in (later.0, (step s a).1 ++ later.1)

  -- The file of a scope.
  abbrev pub lease_file : Store R calendar → Text → Option (File (LeaseDocument R))
  lease_file s k = lookup k s.leases

  same_scope_sound : (s t : StrategyScope) → same_scope s t ≡ true → s ≡ t
  unfolding same_scope
  same_scope_sound s t h = ground (
    arith,
    text_eq_sound s.provider t.provider,
    text_eq_sound s.network t.network,
    text_eq_sound s.symbol t.symbol,
  )

  pub is_lease-scope :
      (v : ℤ) (scope : StrategyScope) (l : TradingLease R)
      → is_lease R calendar v scope l ≡ true
      → l.scope ≡ scope
  unfolding is_lease
  is_lease-scope v scope l h = ground (arith, same_scope_sound l.scope scope)
