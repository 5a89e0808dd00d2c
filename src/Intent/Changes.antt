-- ===== src/Intent/Changes.antt =====
-- strategy_runtime_intent.py: the four things that a call can do to the leases.
use candle_mind.Intent.Inspected.{fault_unless_sound, Read, inspect_lease-Read}
use candle_mind.Intent.Calls.{granted_of}
use candle_mind.Base.Dict.{remove, put, lookup}
use candle_mind.Base.Result.{◌>>=◌, ok, err, Result}
use candle_mind.Base.Text.{strip, text_eq_refl, Text, text_eq}
use candle_mind.Base.Int.{eq_ℤ, ℤ}
use candle_mind.Intent.Store.{
  renewed, renew_owned, is_ttl, release_owned, renew_lease, require_owned_lease, release_lease,
  owns, owned, reclaimed, create_lease, File, audit_lease, audited, inspect_lease, new_lease,
  acquire_lease, reclaim_stale_lease, reclaims, content, Store, Process,
}
use candle_mind.Intent.Document.{
  is_identifier, StrategyScope, as_dict, scope_key, TradingLease, Fault, LeaseDocument, Calendar,
}
use candle_mind.Base.Floats.{Floats}
use candle_mind.Base.{
  subst, sym, length, leb, arith, Option, refl, some, none, ◌||◌, Bool, [], not, ◌∷◌, ◌&&◌, true,
  ◌≡◌, split_if, List, if◌then◌else◌,
}

module _ (R : Floats) (calendar : Calendar R) (me : Process) (alive : ℤ → Bool) where
  -- The process has the lease, or is on the host of its owner, which is not running.
  abbrev pub may_free : LeaseDocument R → Bool
  may_free d = text_eq d.owner_host me.host && (eq_ℤ d.owner_pid me.pid || not (alive d.owner_pid))

  abbrev pub has_lease : LeaseDocument R → Bool
  has_lease d = text_eq d.owner_host me.host && eq_ℤ d.owner_pid me.pid

  pub data Change (s after : Store R calendar) (granted : List (TradingLease R)) : Type 0 where
    same : after.leases ≡ s.leases → granted ≡ [] → Change s after granted
    taken :
        (l : TradingLease R)
        → lookup (scope_key l.scope) s.leases ≡ none
        → has_lease (as_dict R l) ≡ true
        → after.leases ≡ put (scope_key l.scope) (content (as_dict R l)) s.leases
        → granted ≡ l ∷ []
        → Change s after granted
    prolonged :
        (scope : StrategyScope) (d : LeaseDocument R) (l : TradingLease R)
        → lookup (scope_key scope) s.leases ≡ some (content d)
        → has_lease d ≡ true
        → l.lease_id ≡ d.lease_id
        → after.leases ≡ put (scope_key scope) (content (as_dict R l)) s.leases
        → granted ≡ []
        → Change s after granted
    freed :
        (scope : StrategyScope) (d : LeaseDocument R)
        → lookup (scope_key scope) s.leases ≡ some (content d)
        → may_free d ≡ true
        → after.leases ≡ remove (scope_key scope) s.leases
        → granted ≡ []
        → Change s after granted

  unfoldable pub Grants :
      Store R calendar → Store R calendar × Result Fault (TradingLease R) → Type 0
  Grants s r = Change s (granted_of R calendar r.0 r.1).0 (granted_of R calendar r.0 r.1).1

  unfoldable pub Frees : Store R calendar → Store R calendar × Result Fault Unit → Type 0
  Frees s r = Change s r.0 []

  unfoldable pub Prolongs :
      Store R calendar → Store R calendar × Result Fault (TradingLease R) → Type 0
  Prolongs s r = Change s r.0 []

  refused-Grants : (s : Store R calendar) (f : Fault) → Grants s (s, err f)
  unfolding Grants
  refused-Grants s f = same refl refl

  refused-Frees : (s : Store R calendar) (f : Fault) → Frees s (s, err f)
  unfolding Frees
  refused-Frees s f = same refl refl

  refused-Prolongs : (s : Store R calendar) (f : Fault) → Prolongs s (s, err f)
  unfolding Prolongs
  refused-Prolongs s f = same refl refl

  put-Grants :
      (s : Store R calendar) (l : TradingLease R)
      → lookup (scope_key l.scope) s.leases ≡ none
      → has_lease (as_dict R l) ≡ true
      → Grants s
          (record s { leases = put (scope_key l.scope) (content (as_dict R l)) s.leases }, ok l)
  unfolding Grants
  put-Grants s l free mine = taken l free mine refl refl

  -- `acquire_lease` after its checks.
  create_lease-Grants :
      (s : Store R calendar) (l : TradingLease R) (f : Fault) (o : Option (File (LeaseDocument R)))
      → lookup (scope_key l.scope) s.leases ≡ o
      → has_lease (as_dict R l) ≡ true
      → Grants s (create_lease R calendar s l f o)
  create_lease-Grants s l f none free mine =
      split_if (Grants s) (R.is_finite l.expires_at_epoch) (λ _. put-Grants s l free mine)
        (λ _. refused-Grants s Fault.value_error)
  create_lease-Grants s l f (some file) free mine =
      refused-Grants s (if R.is_finite l.expires_at_epoch then f else Fault.value_error)

  own_lease :
      (now : R.F) (scope : StrategyScope) (runtime_id : Text) (ttl : R.F) (lease_id : Text)
      → has_lease (as_dict R (new_lease R calendar me now scope runtime_id ttl lease_id)) ≡ true
  unfolding as_dict
  own_lease now scope runtime_id ttl lease_id = ground (arith, text_eq_refl me.host)

  pub acquire_lease-Grants :
      (now : R.F) (s : Store R calendar) (scope : StrategyScope) (runtime_id : Text) (ttl : R.F)
      (lease_id : Text)
      → Grants s (acquire_lease R calendar me now alive s scope runtime_id ttl lease_id)
  unfolding acquire_lease
  acquire_lease-Grants now s scope runtime_id ttl lease_id =
      split_if (Grants s) (is_identifier runtime_id && is_ttl R calendar ttl)
        (λ _.
          create_lease-Grants s (new_lease R calendar me now scope runtime_id ttl lease_id) _
            (lookup (scope_key scope) s.leases) refl (own_lease now scope runtime_id ttl lease_id))
        (λ _. refused-Grants s Fault.value_error)

  removed-Frees :
      (s : Store R calendar) (scope : StrategyScope) (d : LeaseDocument R)
      → lookup (scope_key scope) s.leases ≡ some (content d)
      → may_free d ≡ true
      → Frees s (record s { leases = remove (scope_key scope) s.leases }, ok tt)
  unfolding Frees
  removed-Frees s scope d held free = freed scope d held free refl refl

  -- A lease that is confirmed to be stale.
  confirmed_dead :
      (now : R.F) (l : TradingLease R) (expected : Text) (d : LeaseDocument R)
      → reclaims R calendar expected (audited R calendar me now alive (some l)) ≡ true
      → l.owner_host ≡ d.owner_host
      → l.owner_pid ≡ d.owner_pid
      → may_free d ≡ true
  unfolding reclaims
  confirmed_dead now l expected d h host pid = rw (← host, ← pid) (ground arith)

  nothing :
      (now : R.F) (expected : Text)
      → ¬ reclaims R calendar expected (audited R calendar me now alive none) ≡ true
  unfolding reclaims
  nothing now expected h = cc

  audited-Frees :
      (now : R.F) (s : Store R calendar) (scope : StrategyScope) (expected : Text)
      (r : Result Fault (Option (TradingLease R)))
      → inspect_lease R calendar s scope ≡ r
      → Frees s (
          reclaimed R calendar s scope expected (r >>= λ l. ok (audited R calendar me now alive l)))
  audited-Frees now s scope expected (err f) e = refused-Frees s f
  audited-Frees now s scope expected (ok none) e =
      split_if (Frees s) (reclaims R calendar expected (audited R calendar me now alive none))
        (λ h. absurd (nothing now expected h)) (λ _. refused-Frees s Fault.lease_conflict)
  audited-Frees now s scope expected (ok (some l)) e =
      let read = inspect_lease-Read R calendar s scope l e in
      split_if (Frees s) (reclaims R calendar expected (audited R calendar me now alive (some l)))
        (λ h.
          removed-Frees s scope read.0 read.1
            (confirmed_dead now l expected read.0 h read.2.host read.2.pid))
        (λ _. refused-Frees s Fault.lease_conflict)

  pub reclaim_stale_lease-Frees :
      (now : R.F) (s : Store R calendar) (scope : StrategyScope) (expected reason : Text)
      → Frees s (reclaim_stale_lease R calendar me now alive s scope expected reason)
  unfolding reclaim_stale_lease audit_lease
  reclaim_stale_lease-Frees now s scope expected reason =
      split_if (Frees s) (is_identifier expected && leb 8 (length (strip reason)))
        (λ _. audited-Frees now s scope expected (inspect_lease R calendar s scope) refl)
        (λ _. refused-Frees s Fault.value_error)

  owns-has_lease :
      (expected l : TradingLease R) (d : LeaseDocument R)
      → owns R calendar me expected l ≡ true
      → l.owner_host ≡ d.owner_host
      → l.owner_pid ≡ d.owner_pid
      → has_lease d ≡ true
  unfolding owns
  owns-has_lease expected l d h host pid = rw (← host, ← pid) (ground arith)

  -- A lease that the process has, and its document.
  require-Read :
      (s : Store R calendar) (expected l : TradingLease R)
      (r : Result Fault (Option (TradingLease R)))
      → inspect_lease R calendar s expected.scope ≡ r
      → (r >>= owned R calendar me expected) ≡ ok l
      → (d : LeaseDocument R) × (lookup (scope_key expected.scope) s.leases ≡ some (content d))
        × Read R calendar d expected.scope l
        × (has_lease d ≡ true)
  require-Read s expected l (err f) e h = cc
  require-Read s expected l (ok none) e h = cc
  require-Read s expected l (ok (some current)) e h =
      let found =
        fault_unless_sound (owns R calendar me expected current) Fault.lease_conflict current l h in
      let read = inspect_lease-Read R calendar s expected.scope current e in
      (
        read.0,
        read.1,
        subst (Read R calendar read.0 expected.scope) found.1 read.2,
        owns-has_lease expected current read.0 found.0 read.2.host read.2.pid,
      )

  released-Frees :
      (s : Store R calendar) (expected : TradingLease R) (r : Result Fault (TradingLease R))
      → require_owned_lease R calendar me s expected ≡ r
      → Frees s (release_owned R calendar s expected.scope r)
  unfolding require_owned_lease
  released-Frees s expected (err f) e = refused-Frees s f
  released-Frees s expected (ok l) e =
      let read = require-Read s expected l _ refl e in
      removed-Frees s expected.scope read.0 read.1 (own_free read.0 read.3)
    where
      own_free : (d : LeaseDocument R) → has_lease d ≡ true → may_free d ≡ true
      own_free d h = ground arith

  pub release_lease-Frees :
      (s : Store R calendar) (expected : TradingLease R)
      → Frees s (release_lease R calendar me s expected)
  unfolding release_lease
  release_lease-Frees s expected =
      released-Frees s expected (require_owned_lease R calendar me s expected) refl

  put-Prolongs :
      (s : Store R calendar) (scope : StrategyScope) (d : LeaseDocument R) (l : TradingLease R)
      → lookup (scope_key scope) s.leases ≡ some (content d)
      → has_lease d ≡ true
      → l.lease_id ≡ d.lease_id
      → scope ≡ l.scope
      → Prolongs s
          (record s { leases = put (scope_key l.scope) (content (as_dict R l)) s.leases }, ok l)
  unfolding Prolongs
  put-Prolongs s scope d l held mine identity scoped =
      prolonged scope d l held mine identity (rw scoped refl) refl

  renewed-Prolongs :
      (now : R.F) (s : Store R calendar) (expected : TradingLease R) (ttl : R.F)
      (r : Result Fault (TradingLease R))
      → require_owned_lease R calendar me s expected ≡ r
      → Prolongs s (renew_owned R calendar now s ttl r)
  unfolding require_owned_lease
  renewed-Prolongs now s expected ttl (err f) e = refused-Prolongs s f
  renewed-Prolongs now s expected ttl (ok l) e =
      let read = require-Read s expected l _ refl e in
      split_if (Prolongs s) (R.le l.expires_at_epoch now)
        (λ _. refused-Prolongs s Fault.lease_conflict)
        (λ _.
          split_if (Prolongs s) (R.is_finite (R.add now ttl))
            (λ _.
              put-Prolongs s expected.scope read.0 (renewed R calendar l now ttl) read.1 read.3
                read.2.identity (sym read.2.scoped))
            (λ _. refused-Prolongs s Fault.value_error))

  pub renew_lease-Prolongs :
      (now : R.F) (s : Store R calendar) (expected : TradingLease R) (ttl : R.F)
      → Prolongs s (renew_lease R calendar me now s expected ttl)
  unfolding renew_lease
  renew_lease-Prolongs now s expected ttl =
      split_if (Prolongs s) (is_ttl R calendar ttl)
        (λ _.
          renewed-Prolongs now s expected ttl (require_owned_lease R calendar me s expected) refl)
        (λ _. refused-Prolongs s Fault.value_error)
