-- ===== src/Intent/Tests.antt =====
-- The store on whole numbers that stand for floats, and its theorems at a few calls.
use candle_mind.Base.Result.{ok}
use candle_mind.Intent.Roundtrip.{acquire_lease-inspect_lease, Usable}
use candle_mind.Json.Value.{Fields}
use candle_mind.Base.Int.{pos}
use candle_mind.Base.Text.{is_space, lstrip, strip, lower, text_eq, codes}
use candle_mind.Pyramid.Sample.{whole}
use candle_mind.Base.Dict.{remove, put, lookup}
use candle_mind.Intent.Generation.{set_desired_state-Stored, Stored}
use candle_mind.Intent.Held.{is_foreign, lease_held, Keeps}
use candle_mind.Intent.Lock.{run-LockSteps, LockSteps, locked, holder}
use candle_mind.Intent.Calls.{releases, acquires, reclaims_stale, step, run, At}
use candle_mind.Intent.Document.{
  same_scope, is_lease, from_document, validate_lease, valid_timestamp, is_symbol, scope_key,
  StrategyScope, strategy_scope, as_dict, is_identifier, Calendar, TradingLease,
}
use candle_mind.Intent.Store.{
  reclaims, inspect_lease, content, audit_lease, reclaim_stale_lease, set_desired_state, new_lease,
  is_ttl, Store, acquire_lease, Process,
}
use candle_mind.Base.{refl, none, all, some, [], ◌∷◌, false, true, ◌≡◌, List}

abbrev calendar : Calendar whole
calendar = record { utc_timestamp = λ t. codes "2026-01-01T00:00:00Z"; reads = λ t. true }

abbrev scope : StrategyScope
scope = record { provider = codes "binance"; network = codes "testnet"; symbol = codes "BTCUSDT" }

abbrev owner : Process
owner = record { host = codes "alpha"; pid = pos 41 }

abbrev other : Process
other = record { host = codes "alpha"; pid = pos 42 }

abbrev lease : TradingLease whole
lease = new_lease whole calendar owner (pos 100) scope (codes "bot-1") (pos 30) (codes "a1")

abbrev empty : Store whole calendar
empty = record { intent = none; leases = [] }

abbrev held : Store whole calendar
held = record {
  intent = none;
  leases =
      record { key = codes "binance_testnet_BTCUSDT"; value = content (as_dict whole lease) } ∷ [];
}

-- At the time 500 the lease has expired, and its owner runs.
abbrev attempts_of_other : List (At whole calendar)
attempts_of_other =
    record {
      me = other;
      now = pos 500;
      alive = λ p. true;
      call = acquires scope (codes "bot-2") (pos 30) (codes "b2");
    }
    ∷ record {
      me = other;
      now = pos 500;
      alive = λ p. true;
      call = reclaims_stale scope (codes "a1") (codes "the owner is gone");
    }
    ∷ record { me = other; now = pos 500; alive = λ p. true; call = releases lease }
    ∷ []

attempts_foreign : all (is_foreign whole calendar (as_dict whole lease)) attempts_of_other ≡ true
unfolding as_dict text_eq
attempts_foreign = refl

held_file :
    lookup (codes "binance_testnet_BTCUSDT") held.leases ≡ some (content (as_dict whole lease))
unfolding lookup text_eq
held_file = refl

lease_held_example :
    Keeps whole calendar
      (codes "binance_testnet_BTCUSDT")
      (as_dict whole lease)
      (run whole calendar held attempts_of_other).0
      (run whole calendar held attempts_of_other).1
lease_held_example =
    lease_held whole calendar (codes "binance_testnet_BTCUSDT") (as_dict whole lease) held
      attempts_of_other attempts_foreign held_file

-- A dead owner's lease is reclaimed, and the scope acquired again.
abbrev takeover : List (At whole calendar)
takeover =
    record {
      me = other;
      now = pos 500;
      alive = λ p. false;
      call = reclaims_stale scope (codes "a1") (codes "the owner is gone");
    }
    ∷ record {
      me = other;
      now = pos 501;
      alive = λ p. false;
      call = acquires scope (codes "bot-2") (pos 30) (codes "b2");
    }
    ∷ []

takeover_test :
    holder whole calendar (run whole calendar held takeover).0 (codes "binance_testnet_BTCUSDT")
    ≡ locked (codes "b2")
unfolding run step reclaim_stale_lease acquire_lease audit_lease inspect_lease validate_lease
    from_document strategy_scope is_lease is_identifier is_symbol same_scope valid_timestamp as_dict
    scope_key lookup put remove text_eq lower strip lstrip is_space is_ttl reclaims
takeover_test = refl

run-LockSteps_example : LockSteps whole calendar (codes "binance_testnet_BTCUSDT") held takeover
run-LockSteps_example = run-LockSteps whole calendar held takeover (codes "binance_testnet_BTCUSDT")

scope_made : strategy_scope (codes "Binance") (codes "testnet") (codes "BTCUSDT") ≡ ok scope
unfolding strategy_scope is_identifier is_symbol lower
scope_made = refl

usable : Usable whole calendar owner (pos 100) (pos 30) (codes "bot-1") (codes "a1")
unfolding is_identifier is_ttl text_eq valid_timestamp
usable = record {
  runtime = refl;
  identity = refl;
  time = refl;
  pid = refl;
  host = refl;
  stamp = refl;
  finite = refl;
}

unheld : lookup (scope_key scope) empty.leases ≡ none
unfolding lookup
unheld = refl

acquire_lease-inspect_lease_example :
    ((acquire_lease whole calendar owner
        (pos 100)
        (λ p. true)
        empty
        scope
        (codes "bot-1")
        (pos 30)
        (codes "a1")).1
      ≡ ok lease)
    × (inspect_lease whole calendar
          (acquire_lease whole calendar owner
            (pos 100)
            (λ p. true)
            empty
            scope
            (codes "bot-1")
            (pos 30)
            (codes "a1")).0
          scope
        ≡ ok (some lease))
acquire_lease-inspect_lease_example =
    acquire_lease-inspect_lease whole calendar (codes "Binance") (codes "testnet") (codes "BTCUSDT")
      scope owner (pos 100) (λ p. true) empty (codes "bot-1") (pos 30) (codes "a1") scope_made
      usable unheld

set_desired_state-Stored_example :
    Stored whole calendar held
      (set_desired_state whole calendar held (pos 100) (codes "running") scope Fields.end)
set_desired_state-Stored_example =
    set_desired_state-Stored whole calendar held (pos 100) (codes "running") scope Fields.end
      (codes "Binance") (codes "testnet") (codes "BTCUSDT") scope_made usable.stamp
