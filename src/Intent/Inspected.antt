-- ===== src/Intent/Inspected.antt =====
-- strategy_runtime_intent.py: what a lease that was inspected says of its file.
use candle_mind.Intent.Calls.{is_lease-scope}
use candle_mind.Base.Dict.{lookup}
use candle_mind.Intent.Store.{unreadable, content, checked_file, File, Store, inspect_lease}
use candle_mind.Base.Result.{err, ◌>>=◌, ok, Result}
use candle_mind.Intent.Document.{
  scope_key, with_scope, is_lease, checked_lease, strategy_scope, from_document, TradingLease,
  LeaseDocument, validate_lease, StrategyScope, fault_unless, Calendar, Fault,
}
use candle_mind.Base.Floats.{Floats}
use candle_mind.Base.{none, ap, subst, refl, some, Option, Bool, false, true, ◌≡◌}

pub fault_unless_sound :
    {A : Type 0} (b : Bool) (f : Fault) (x y : A)
    → fault_unless b f (ok x) ≡ ok y
    → (b ≡ true) × (x ≡ y)
fault_unless_sound true f x y h = (refl, cc)
fault_unless_sound false f x y h = cc

module _ (R : Floats) (calendar : Calendar R) where
  -- A lease of a scope, read from a document.
  pub record Read (d : LeaseDocument R) (scope : StrategyScope) (l : TradingLease R) : Type 0 where
    pub scoped : l.scope ≡ scope
    pub identity : l.lease_id ≡ d.lease_id
    pub host : l.owner_host ≡ d.owner_host
    pub pid : l.owner_pid ≡ d.owner_pid

  checked-Read :
      (d : LeaseDocument R) (scope : StrategyScope) (x l : TradingLease R)
      → (is_lease R calendar d.schema_version scope x ≡ true) × (x ≡ l)
      → x.lease_id ≡ d.lease_id
      → x.owner_host ≡ d.owner_host
      → x.owner_pid ≡ d.owner_pid
      → Read d scope l
  checked-Read d scope x l h identity host pid = subst (Read d scope) h.1 (record {
    scoped = is_lease-scope R calendar d.schema_version scope x h.0;
    identity = identity;
    host = host;
    pid = pid;
  })

  made-Read :
      (d : LeaseDocument R) (scope : StrategyScope) (l : TradingLease R)
      (made : Result Fault StrategyScope)
      → checked_lease R calendar d scope (made >>= with_scope R d) ≡ ok l
      → Read d scope l
  made-Read d scope l (err f) h = cc
  made-Read d scope l (ok made) h =
      checked-Read d scope _ l (fault_unless_sound _ Fault.intent_error _ l h) refl refl refl

  validate_lease-Read :
      (d : LeaseDocument R) (scope : StrategyScope) (l : TradingLease R)
      → validate_lease R calendar d scope ≡ ok l
      → Read d scope l
  unfolding validate_lease from_document
  validate_lease-Read d scope l h =
      made-Read d scope l (strategy_scope d.scope.provider d.scope.network d.scope.symbol) h

  some_lease :
      (r : Result Fault (TradingLease R)) (l : TradingLease R)
      → (r >>= λ x. ok (some x)) ≡ ok (some l)
      → r ≡ ok l
  some_lease (ok x) l h = let same : x ≡ l = cc in ap ok same
  some_lease (err f) l h = cc

  -- The document of a lease that is inspected.
  checked_file-Read :
      (scope : StrategyScope) (o : Option (File (LeaseDocument R))) (l : TradingLease R)
      → checked_file R calendar scope o ≡ ok (some l)
      → (d : LeaseDocument R) × (o ≡ some (content d)) × Read d scope l
  checked_file-Read scope none l h = cc
  checked_file-Read scope (some unreadable) l h = cc
  checked_file-Read scope (some (content d)) l h =
      (d, refl, validate_lease-Read d scope l (some_lease (validate_lease R calendar d scope) l h))

  pub inspect_lease-Read :
      (s : Store R calendar) (scope : StrategyScope) (l : TradingLease R)
      → inspect_lease R calendar s scope ≡ ok (some l)
      → (d : LeaseDocument R) × (lookup (scope_key scope) s.leases ≡ some (content d))
        × Read d scope l
  unfolding inspect_lease
  inspect_lease-Read s scope l h = checked_file-Read scope (lookup (scope_key scope) s.leases) l h
