-- ===== src/Intent/Store.antt =====
-- strategy_runtime_intent.py: the store. A method is a function of the process that calls it and of
-- what it reads from the clock, in one step. `_LOCK` makes it one among the threads of a process; that
-- calls of different processes do not interleave is assumed.
use candle_mind.Journal.Validate.{safe_fields}
use candle_mind.Json.Value.{Fields}
use candle_mind.Base.Dict.{remove, lookup, put, Entry}
use candle_mind.Base.Result.{ok, err, ◌>>=◌, Result}
use candle_mind.Intent.Document.{
  fault_unless, validate_lease, strategy_scope, scope_key, is_desired_state, is_identifier,
  LeaseDocument, Fault, validate_intent, as_dict, StrategyScope, IntentDocument, TradingLease,
  Calendar,
}
use candle_mind.Base.Int.{succ_ℤ, eq_ℤ, pos, ℤ}
use candle_mind.Base.Floats.{Floats}
use candle_mind.Base.Text.{codes, strip, text_eq, Text}
use candle_mind.Base.{
  length, leb, none, some, Bool, Option, not, false, ◌&&◌, true, List, if◌then◌else◌,
}

pub record Process : Type 0 where
  pub host : Text
  pub pid : ℤ

-- A file that `json.loads` does not read, or its document.
pub data File (A : Type 0) : Type 0 where
  unreadable : File A
  content : A → File A

pub data LeaseStatus : Type 0 where
  absent active stale_unverifiable expired_owner_alive stale_confirmed : LeaseStatus

module _ (R : Floats) (calendar : Calendar R) where
  pub record Store : Type 0 where
    pub intent : Option (File (IntentDocument R))
    pub leases : List (Entry (File (LeaseDocument R)))

  pub record Audit : Type 0 where
    pub status : LeaseStatus
    pub lease : Option (TradingLease R)
    pub reclaimable : Bool

  abbrev pub checked_intent :
      Option (File (IntentDocument R)) → Result Fault (Option (IntentDocument R))
  checked_intent none = ok none
  checked_intent (some unreadable) = err Fault.intent_error
  checked_intent (some (content d)) = validate_intent R calendar d >>= λ i. ok (some i)

  -- `load`
  unfoldable pub load : Store → Result Fault (Option (IntentDocument R))
  unfolding validate_intent
  load s = checked_intent s.intent

  abbrev pub next_generation : Option (IntentDocument R) → ℤ
  next_generation none = pos 1
  next_generation (some d) = succ_ℤ d.generation

  abbrev pub new_intent :
      R.F → Text → StrategyScope → Fields → Option (IntentDocument R) → IntentDocument R
  new_intent now desired_state scope config previous = record {
    schema_version = pos 1;
    desired_state = desired_state;
    scope = scope;
    config = config;
    generation = next_generation previous;
    updated_at = calendar.utc_timestamp now;
  }

  -- A document that is stored, with the store.
  abbrev pub written : Store → IntentDocument R → Store × Result Fault (IntentDocument R)
  written s d = (record s { intent = some (content d) }, ok d)

  abbrev pub write_after :
      Store
      → R.F
      → Text
      → StrategyScope
      → Fields
      → Result Fault (Option (IntentDocument R))
      → Store × Result Fault (IntentDocument R)
  write_after s now desired_state scope config (err f) = (s, err f)
  write_after s now desired_state scope config (ok previous) =
      written s (new_intent now desired_state scope config previous)

  -- `set_desired_state`, for a `config` that is a dict.
  unfoldable pub set_desired_state :
      Store → R.F → Text → StrategyScope → Fields → Store × Result Fault (IntentDocument R)
  unfolding load text_eq
  set_desired_state s now desired_state scope config =
      if is_desired_state R calendar desired_state && safe_fields config
      then write_after s now desired_state scope config (load s)
      else (s, err Fault.value_error)

  abbrev pub checked_file :
      StrategyScope → Option (File (LeaseDocument R)) → Result Fault (Option (TradingLease R))
  checked_file scope none = ok none
  checked_file scope (some unreadable) = err Fault.intent_error
  checked_file scope (some (content d)) = validate_lease R calendar d scope >>= λ l. ok (some l)

  -- `inspect_lease`
  unfoldable pub inspect_lease : Store → StrategyScope → Result Fault (Option (TradingLease R))
  inspect_lease s scope = checked_file scope (lookup (scope_key scope) s.leases)

  -- The status of a lease, whether `_pid_is_running` says `alive`.
  abbrev pub status_of : Process → R.F → (ℤ → Bool) → TradingLease R → LeaseStatus
  status_of me now alive l =
      if not (R.le l.expires_at_epoch now)
      then LeaseStatus.active
      else if not (text_eq l.owner_host me.host)
      then LeaseStatus.stale_unverifiable
      else if alive l.owner_pid
      then LeaseStatus.expired_owner_alive
      else LeaseStatus.stale_confirmed

  abbrev pub is_confirmed : LeaseStatus → Bool
  is_confirmed LeaseStatus.stale_confirmed = true
  is_confirmed _ = false

  abbrev pub audited : Process → R.F → (ℤ → Bool) → Option (TradingLease R) → Audit
  audited me now alive none = record {
    status = LeaseStatus.absent;
    lease = none;
    reclaimable = false;
  }
  audited me now alive (some l) = record {
    status = status_of me now alive l;
    lease = some l;
    reclaimable = is_confirmed (status_of me now alive l);
  }

  -- `audit_lease`
  unfoldable pub audit_lease :
      Process → R.F → (ℤ → Bool) → Store → StrategyScope → Result Fault Audit
  unfolding inspect_lease text_eq
  audit_lease me now alive s scope = inspect_lease s scope >>= λ l. ok (audited me now alive l)

  unfoldable pub is_ttl : R.F → Bool
  is_ttl ttl = R.is_finite ttl && not (R.le ttl (R.from_int (pos 0)))

  abbrev pub new_lease : Process → R.F → StrategyScope → Text → R.F → Text → TradingLease R
  new_lease me now scope runtime_id ttl lease_id = record {
    lease_id = lease_id;
    runtime_id = runtime_id;
    scope = scope;
    owner_pid = me.pid;
    owner_host = me.host;
    acquired_at = calendar.utc_timestamp now;
    renewed_at = calendar.utc_timestamp now;
    expires_at_epoch = R.add now ttl;
  }

  -- The fault of `acquire_lease` where the file exists: the audit may raise.
  abbrev pub conflict : Result Fault Audit → Fault
  conflict (ok a) = Fault.lease_conflict
  conflict (err f) = f

  -- `_atomic_write` refuses a document with a number that is not finite.
  abbrev pub store_lease : Store → TradingLease R → Store × Result Fault (TradingLease R)
  store_lease s l =
      if R.is_finite l.expires_at_epoch
      then (record s { leases = put (scope_key l.scope) (content (as_dict R l)) s.leases }, ok l)
      else (s, err Fault.value_error)

  abbrev pub create_lease :
      Store
      → TradingLease R
      → Fault
      → Option (File (LeaseDocument R))
      → Store × Result Fault (TradingLease R)
  create_lease s l f none = store_lease s l
  create_lease s l f (some file) =
      (s, err (if R.is_finite l.expires_at_epoch then f else Fault.value_error))

  -- `acquire_lease`; `lease_id` is `uuid4().hex`.
  unfoldable pub acquire_lease :
      Process
      → R.F
      → (ℤ → Bool)
      → Store
      → StrategyScope
      → Text
      → R.F
      → Text
      → Store × Result Fault (TradingLease R)
  unfolding audit_lease as_dict
  acquire_lease me now alive s scope runtime_id ttl lease_id =
      if is_identifier runtime_id && is_ttl ttl
      then create_lease s (new_lease me now scope runtime_id ttl lease_id)
          (conflict (audit_lease me now alive s scope)) (lookup (scope_key scope) s.leases)
      else (s, err Fault.value_error)

  -- The lease of a reclaim has its ID, and is confirmed to be stale.
  unfoldable pub reclaims : Text → Audit → Bool
  unfolding text_eq
  reclaims expected_lease_id a = elim a.lease [
    | none ↦ false
    | some l ↦ text_eq l.lease_id expected_lease_id && a.reclaimable
  ]

  abbrev pub reclaimed :
      Store → StrategyScope → Text → Result Fault Audit → Store × Result Fault Unit
  reclaimed s scope expected_lease_id (err f) = (s, err f)
  reclaimed s scope expected_lease_id (ok a) =
      if reclaims expected_lease_id a
      then (record s { leases = remove (scope_key scope) s.leases }, ok tt)
      else (s, err Fault.lease_conflict)

  -- `reclaim_stale_lease`
  unfoldable pub reclaim_stale_lease :
      Process → R.F → (ℤ → Bool) → Store → StrategyScope → Text → Text → Store × Result Fault Unit
  unfolding audit_lease reclaims strip
  reclaim_stale_lease me now alive s scope expected_lease_id reason =
      if is_identifier expected_lease_id && leb 8 (length (strip reason))
      then reclaimed s scope expected_lease_id (audit_lease me now alive s scope)
      else (s, err Fault.value_error)

  -- The tests of `_require_owned_lease` on the current lease.
  unfoldable pub owns : Process → TradingLease R → TradingLease R → Bool
  unfolding text_eq
  owns me expected current =
      text_eq current.lease_id expected.lease_id
      && text_eq current.runtime_id expected.runtime_id
      && text_eq current.owner_host me.host
      && eq_ℤ current.owner_pid me.pid

  abbrev pub owned :
      Process → TradingLease R → Option (TradingLease R) → Result Fault (TradingLease R)
  owned me expected none = err Fault.lease_conflict
  owned me expected (some current) =
      fault_unless (owns me expected current) Fault.lease_conflict (ok current)

  -- `_require_owned_lease`
  unfoldable pub require_owned_lease :
      Process → Store → TradingLease R → Result Fault (TradingLease R)
  unfolding inspect_lease
  require_owned_lease me s expected = inspect_lease s expected.scope >>= owned me expected

  abbrev pub renewed : TradingLease R → R.F → R.F → TradingLease R
  renewed current now ttl = record current {
    renewed_at = calendar.utc_timestamp now;
    expires_at_epoch = R.add now ttl;
  }

  abbrev pub renew_owned :
      R.F → Store → R.F → Result Fault (TradingLease R) → Store × Result Fault (TradingLease R)
  renew_owned now s ttl (err f) = (s, err f)
  renew_owned now s ttl (ok current) =
      if R.le current.expires_at_epoch now
      then (s, err Fault.lease_conflict)
      else store_lease s (renewed current now ttl)

  -- `renew_lease`
  unfoldable pub renew_lease :
      Process → R.F → Store → TradingLease R → R.F → Store × Result Fault (TradingLease R)
  unfolding require_owned_lease as_dict
  renew_lease me now s l ttl =
      if is_ttl ttl
      then renew_owned now s ttl (require_owned_lease me s l)
      else (s, err Fault.value_error)

  abbrev pub release_owned :
      Store → StrategyScope → Result Fault (TradingLease R) → Store × Result Fault Unit
  release_owned s scope (err f) = (s, err f)
  release_owned s scope (ok current) =
      (record s { leases = remove (scope_key scope) s.leases }, ok tt)

  -- `release_lease`
  unfoldable pub release_lease : Process → Store → TradingLease R → Store × Result Fault Unit
  unfolding require_owned_lease
  release_lease me s l = release_owned s l.scope (require_owned_lease me s l)

  pub data Recommendation : Type 0 where
    remain_stopped audit_and_reconcile_before_resume : Recommendation

  pub record RestartReport : Type 0 where
    pub intent : Option (IntentDocument R)
    -- `none` is "not_applicable".
    pub lease : Option Audit
    pub recommended_action : Recommendation
    pub may_place_orders : Bool

  abbrev pub report : IntentDocument R → Audit → RestartReport
  report d a = record {
    intent = some d;
    lease = some a;
    recommended_action =
        if text_eq d.desired_state (codes "running")
        then audit_and_reconcile_before_resume
        else remain_stopped;
    may_place_orders = false;
  }

  abbrev pub reported :
      Process → R.F → (ℤ → Bool) → Store → Option (IntentDocument R) → Result Fault RestartReport
  reported me now alive s none = ok (record {
    intent = none;
    lease = none;
    recommended_action = remain_stopped;
    may_place_orders = false;
  })
  reported me now alive s (some d) =
      strategy_scope d.scope.provider d.scope.network d.scope.symbol >>= λ scope.
      audit_lease me now alive s scope >>= λ a. ok (report d a)

  -- `audit_restart`
  unfoldable pub audit_restart : Process → R.F → (ℤ → Bool) → Store → Result Fault RestartReport
  unfolding load audit_lease text_eq
  audit_restart me now alive s = load s >>= reported me now alive s
