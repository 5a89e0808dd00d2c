-- ===== src/Intent/Document.antt =====
-- strategy_runtime_intent.py: the scope, the lease, the two documents and their validation. A document
-- has the keys that are required and no other, each with a value of its class.
use candle_mind.Json.Value.{Fields}
use candle_mind.Base.Int.{leb_ℤ, ltb_ℤ, eq_ℤ, pos, ℤ}
use candle_mind.Journal.Validate.{safe_fields, is_alnum}
use candle_mind.Base.Result.{ok, ◌>>=◌, err, Result}
use candle_mind.Base.Floats.{Floats}
use candle_mind.Base.Text.{codes, lower, text_eq, Text}
use candle_mind.Base.{
  length, leb, ◌||◌, all, ◌==◌, Bool, [], not, ◌∷◌, ◌++◌, false, ◌&&◌, true, if◌then◌else◌,
}

-- ValueError, StrategyRuntimeIntentError and StrategyRuntimeLeaseConflict.
pub data Fault : Type 0 where
  value_error intent_error lease_conflict : Fault

abbrev pub fault_unless : {A : Type 0} → Bool → Fault → Result Fault A → Result Fault A
fault_unless b f r = if b then r else err f

-- `_IDENTIFIER.fullmatch`
unfoldable pub is_identifier : Text → Bool
is_identifier [] = false
is_identifier (c ∷ t) =
    is_alnum c
    && all (λ d. is_alnum d || d == b'_' || d == b'.' || d == b'-') t
    && leb (length t) 63

-- `_SYMBOL.fullmatch`
unfoldable pub is_symbol : Text → Bool
is_symbol t =
    all (λ c. (leb b'A' c && leb c b'Z') || (leb b'0' c && leb c b'9')) t
    && leb 2 (length t)
    && leb (length t) 24

pub record StrategyScope : Type 0 where
  pub provider : Text
  pub network : Text
  pub symbol : Text

-- `StrategyScope(provider, network, symbol)`
unfoldable pub strategy_scope : Text → Text → Text → Result Fault StrategyScope
strategy_scope provider network symbol = fault_unless (is_identifier provider) Fault.value_error (
    fault_unless (is_identifier network) Fault.value_error (
      fault_unless (is_symbol symbol) Fault.value_error
        (ok (record { provider = lower provider; network = lower network; symbol = symbol }))))

-- `key`
unfoldable pub scope_key : StrategyScope → Text
unfolding lower
scope_key s = lower s.provider ++ codes "_" ++ lower s.network ++ codes "_" ++ s.symbol

unfoldable pub same_scope : StrategyScope → StrategyScope → Bool
unfolding text_eq
same_scope s t =
    text_eq s.provider t.provider && text_eq s.network t.network && text_eq s.symbol t.symbol

-- What the code takes from datetime: `_utc_timestamp`, and whether `fromisoformat` reads the text
-- before a final "Z".
pub record Calendar (R : Floats) : Type 0 where
  pub utc_timestamp : R.F → Text
  pub reads : Text → Bool

abbrev pub ends_with_z : Text → Bool
ends_with_z [] = false
ends_with_z (c ∷ []) = c == b'Z'
ends_with_z (c ∷ d ∷ t) = ends_with_z (d ∷ t)

module _ (R : Floats) where
  pub record TradingLease : Type 0 where
    pub lease_id : Text
    pub runtime_id : Text
    pub scope : StrategyScope
    pub owner_pid : ℤ
    pub owner_host : Text
    pub acquired_at : Text
    pub renewed_at : Text
    pub expires_at_epoch : R.F

  -- The document of a lease; its scope is not checked yet.
  pub record LeaseDocument : Type 0 where
    pub schema_version : ℤ
    pub lease_id : Text
    pub runtime_id : Text
    pub scope : StrategyScope
    pub owner_pid : ℤ
    pub owner_host : Text
    pub acquired_at : Text
    pub renewed_at : Text
    pub expires_at_epoch : R.F

  pub record IntentDocument : Type 0 where
    pub schema_version : ℤ
    pub desired_state : Text
    pub scope : StrategyScope
    pub config : Fields
    pub generation : ℤ
    pub updated_at : Text

  -- `as_dict`
  unfoldable pub as_dict : TradingLease → LeaseDocument
  as_dict l = record {
    schema_version = pos 1;
    lease_id = l.lease_id;
    runtime_id = l.runtime_id;
    scope = l.scope;
    owner_pid = l.owner_pid;
    owner_host = l.owner_host;
    acquired_at = l.acquired_at;
    renewed_at = l.renewed_at;
    expires_at_epoch = l.expires_at_epoch;
  }

  abbrev pub with_scope : LeaseDocument → StrategyScope → Result Fault TradingLease
  with_scope d s = ok (record {
    lease_id = d.lease_id;
    runtime_id = d.runtime_id;
    scope = s;
    owner_pid = d.owner_pid;
    owner_host = d.owner_host;
    acquired_at = d.acquired_at;
    renewed_at = d.renewed_at;
    expires_at_epoch = d.expires_at_epoch;
  })

  -- `from_document`
  unfoldable pub from_document : LeaseDocument → Result Fault TradingLease
  unfolding strategy_scope
  from_document d = strategy_scope d.scope.provider d.scope.network d.scope.symbol >>= with_scope d

  module _ (calendar : Calendar R) where
    -- `_valid_timestamp`
    unfoldable pub valid_timestamp : Text → Bool
    valid_timestamp t = ends_with_z t && calendar.reads t

    -- The tests of `_validate_lease` on a lease.
    unfoldable pub is_lease : ℤ → StrategyScope → TradingLease → Bool
    unfolding is_identifier same_scope valid_timestamp
    is_lease schema_version scope l =
        is_identifier l.lease_id
        && is_identifier l.runtime_id
        && eq_ℤ schema_version (pos 1)
        && same_scope l.scope scope
        && ltb_ℤ (pos 0) l.owner_pid
        && not (text_eq l.owner_host [])
        && valid_timestamp l.acquired_at
        && valid_timestamp l.renewed_at
        && R.is_finite l.expires_at_epoch

    abbrev pub checked_lease :
        LeaseDocument → StrategyScope → Result Fault TradingLease → Result Fault TradingLease
    checked_lease d scope (err f) = err Fault.intent_error
    checked_lease d scope (ok l) =
        fault_unless (is_lease d.schema_version scope l) Fault.intent_error (ok l)

    -- `_validate_lease`
    unfoldable pub validate_lease : LeaseDocument → StrategyScope → Result Fault TradingLease
    unfolding from_document is_lease
    validate_lease d scope = checked_lease d scope (from_document d)

    unfoldable pub is_desired_state : Text → Bool
    is_desired_state t = text_eq t (codes "running") || text_eq t (codes "stopped")

    abbrev pub is_ok : {A : Type 0} → Result Fault A → Bool
    is_ok (ok a) = true
    is_ok (err f) = false

    -- The tests of `_validate_intent`.
    unfoldable pub is_intent : IntentDocument → Bool
    is_intent d =
        eq_ℤ d.schema_version (pos 1)
        && is_desired_state d.desired_state
        && is_ok (strategy_scope d.scope.provider d.scope.network d.scope.symbol)
        && safe_fields d.config
        && leb_ℤ (pos 1) d.generation
        && valid_timestamp d.updated_at

    -- `_validate_intent`
    unfoldable pub validate_intent : IntentDocument → Result Fault IntentDocument
    unfolding is_intent
    validate_intent d = fault_unless (is_intent d) Fault.intent_error (ok d)
