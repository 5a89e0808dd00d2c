-- ===== src/Intent/Roundtrip.antt =====
-- strategy_runtime_intent.py: what was stored is read again.
use candle_mind.Base.Dict.{lookup-put, put, lookup}
use candle_mind.Base.Int.{ℤ, ltb_ℤ, pos}
use candle_mind.Intent.Store.{
  written, content, load, Store, new_lease, is_ttl, inspect_lease, acquire_lease, Process,
}
use candle_mind.Base.Floats.{Floats}
use candle_mind.Base.Result.{Result, ok}
use candle_mind.Journal.Validate.{is_alnum}
use candle_mind.Base.Text.{text_eq, text_eq_refl, to_lower, Text, lower}
use candle_mind.Intent.Document.{
  validate_intent, IntentDocument, TradingLease, scope_key, valid_timestamp, as_dict, from_document,
  same_scope, fault_unless, is_lease, validate_lease, Calendar, is_symbol, Fault, StrategyScope,
  is_identifier, strategy_scope,
}
use candle_mind.Base.{
  some, none, subst, ◌∙◌, refl, ◌==◌, ap, ◌||◌, arith, all, length, Bool, ℕ, [], ◌∷◌, false, true,
  ◌≡◌,
}

is_alnum-to_lower : (c : ℕ) → is_alnum c ≡ true → is_alnum (to_lower c) ≡ true
is_alnum-to_lower c h = ground arith

to_lower-to_lower : (c : ℕ) → to_lower (to_lower c) ≡ to_lower c
to_lower-to_lower c = ground arith

lower-lower : (t : Text) → lower (lower t) ≡ lower t
unfolding lower
lower-lower [] = refl
lower-lower (c ∷ t) =
    ap (λ d. d ∷ lower (lower t)) (to_lower-to_lower c) ∙ ap (◌∷◌ (to_lower c)) (lower-lower t)

abbrev in_identifier : ℕ → Bool
in_identifier d = is_alnum d || d == b'_' || d == b'.' || d == b'-'

all-lower : (t : Text) → all in_identifier t ≡ true → all in_identifier (lower t) ≡ true
unfolding lower
all-lower [] h = refl
all-lower (c ∷ t) h = ground (arith, all-lower t)

length-lower : (t : Text) → length (lower t) ≡ length t
unfolding lower
length-lower [] = refl
length-lower (c ∷ t) = omega (arith, length-lower t)

is_identifier-lower : (t : Text) → is_identifier t ≡ true → is_identifier (lower t) ≡ true
unfolding is_identifier lower
is_identifier-lower [] h = h
is_identifier-lower (c ∷ t) h = ground (arith, all-lower t, length-lower t)

pub fault_unless-parts :
    {A : Type 0} (b : Bool) (f : Fault) (r : Result Fault A) (y : A)
    → fault_unless b f r ≡ ok y
    → (b ≡ true) × (r ≡ ok y)
fault_unless-parts true f r y h = (refl, h)
fault_unless-parts false f r y h = cc

made_stable :
    (provider network symbol : Text)
    → is_identifier provider ≡ true
    → is_identifier network ≡ true
    → is_symbol symbol ≡ true
    → strategy_scope (lower provider) (lower network) symbol
      ≡ ok (record { provider = lower provider; network = lower network; symbol = symbol })
unfolding strategy_scope
made_stable provider network symbol p n y =
    rw
      (
        is_identifier-lower provider p,
        is_identifier-lower network n,
        y,
        lower-lower provider,
        lower-lower network,
      )
      refl

-- The scope that `StrategyScope` makes is one of its own arguments.
pub strategy_scope-stable :
    (provider network symbol : Text) (scope : StrategyScope)
    → strategy_scope provider network symbol ≡ ok scope
    → strategy_scope scope.provider scope.network scope.symbol ≡ ok scope
unfolding strategy_scope
strategy_scope-stable provider network symbol scope h =
    let p = fault_unless-parts (is_identifier provider) Fault.value_error _ scope h in
    let n = fault_unless-parts (is_identifier network) Fault.value_error _ scope p.1 in
    let y = fault_unless-parts (is_symbol symbol) Fault.value_error _ scope n.1 in
    let made : StrategyScope = record {
      provider = lower provider;
      network = lower network;
      symbol = symbol;
    } in
    let equal : made ≡ scope = cc in
    subst (λ (s : StrategyScope). strategy_scope s.provider s.network s.symbol ≡ ok s) equal
      (made_stable provider network symbol p.0 n.0 y.0)

module _ (R : Floats) (calendar : Calendar R) where
  -- The values that a new lease is made from are of the kinds that its validation asks for.
  pub record Usable (me : Process) (now : R.F) (ttl : R.F) (runtime_id lease_id : Text)
      : Type 0 where
    pub runtime : is_identifier runtime_id ≡ true
    pub identity : is_identifier lease_id ≡ true
    pub time : is_ttl R calendar ttl ≡ true
    pub pid : ltb_ℤ (pos 0) me.pid ≡ true
    pub host : text_eq me.host [] ≡ false
    pub stamp : valid_timestamp R calendar (calendar.utc_timestamp now) ≡ true
    pub finite : R.is_finite (R.add now ttl) ≡ true

  same_scope_refl : (s : StrategyScope) → same_scope s s ≡ true
  unfolding same_scope
  same_scope_refl s =
      ground (arith, text_eq_refl s.provider, text_eq_refl s.network, text_eq_refl s.symbol)

  Usable-is_lease :
      (me : Process) (now : R.F) (scope : StrategyScope) (runtime_id : Text) (ttl : R.F)
      (lease_id : Text)
      → Usable me now ttl runtime_id lease_id
      → is_lease R calendar
          (pos 1)
          scope
          (new_lease R calendar me now scope runtime_id ttl lease_id)
        ≡ true
  unfolding is_lease
  Usable-is_lease me now scope runtime_id ttl lease_id u =
      rw (u.identity, u.runtime, same_scope_refl scope, u.pid, u.host, u.stamp, u.finite) refl

  new_lease-validates :
      (me : Process) (now : R.F) (scope : StrategyScope) (runtime_id : Text) (ttl : R.F)
      (lease_id : Text)
      → Usable me now ttl runtime_id lease_id
      → strategy_scope scope.provider scope.network scope.symbol ≡ ok scope
      → validate_lease R calendar
          (as_dict R (new_lease R calendar me now scope runtime_id ttl lease_id))
          scope
        ≡ ok (new_lease R calendar me now scope runtime_id ttl lease_id)
  unfolding validate_lease from_document as_dict
  new_lease-validates me now scope runtime_id ttl lease_id u made =
      rw (made, Usable-is_lease me now scope runtime_id ttl lease_id u) refl

  acquired :
      (me : Process) (now : R.F) (alive : ℤ → Bool) (s : Store R calendar) (scope : StrategyScope)
      (runtime_id : Text) (ttl : R.F) (lease_id : Text)
      → Usable me now ttl runtime_id lease_id
      → lookup (scope_key scope) s.leases ≡ none
      → acquire_lease R calendar me now alive s scope runtime_id ttl lease_id ≡ (
        record s {
          leases =
              put
                (scope_key scope)
                (content (as_dict R (new_lease R calendar me now scope runtime_id ttl lease_id)))
                s.leases;
        },
        ok (new_lease R calendar me now scope runtime_id ttl lease_id),
      )
  unfolding acquire_lease
  acquired me now alive s scope runtime_id ttl lease_id u unheld =
      rw (u.runtime, u.time, unheld, u.finite) refl

  inspected :
      (s : Store R calendar) (scope : StrategyScope) (l : TradingLease R)
      → validate_lease R calendar (as_dict R l) scope ≡ ok l
      → inspect_lease R calendar
          (record s { leases = put (scope_key scope) (content (as_dict R l)) s.leases })
          scope
        ≡ ok (some l)
  unfolding inspect_lease
  inspected s scope l valid =
      rw
        (
          lookup-put (scope_key scope) (scope_key scope) (content (as_dict R l)) s.leases,
          text_eq_refl (scope_key scope),
          valid,
        )
        refl

  -- Where a scope has no lease file, a runtime whose identifiers, process, time to live and times are
  -- of the kinds that the validation asks for acquires it, and the lease that it gets is the one that
  -- is inspected then.
  pub acquire_lease-inspect_lease :
      (provider network symbol : Text) (scope : StrategyScope) (me : Process) (now : R.F)
      (alive : ℤ → Bool) (s : Store R calendar) (runtime_id : Text) (ttl : R.F) (lease_id : Text)
      → strategy_scope provider network symbol ≡ ok scope
      → Usable me now ttl runtime_id lease_id
      → lookup (scope_key scope) s.leases ≡ none
      → ((acquire_lease R calendar me now alive s scope runtime_id ttl lease_id).1
          ≡ ok (new_lease R calendar me now scope runtime_id ttl lease_id))
        × (inspect_lease R calendar
              (acquire_lease R calendar me now alive s scope runtime_id ttl lease_id).0
              scope
            ≡ ok (some (new_lease R calendar me now scope runtime_id ttl lease_id)))
  acquire_lease-inspect_lease provider network symbol scope me now alive s runtime_id ttl lease_id
        made u unheld =
      let e = acquired me now alive s scope runtime_id ttl lease_id u unheld in
      let valid =
        new_lease-validates me now scope runtime_id ttl lease_id u
          (strategy_scope-stable provider network symbol scope made) in
      rw e (refl, inspected s scope _ valid)

  pub written-load :
      (s : Store R calendar) (d : IntentDocument R)
      → validate_intent R calendar d ≡ ok d
      → load R calendar (written R calendar s d).0 ≡ ok (some d)
  unfolding load
  written-load s d valid = rw valid refl
