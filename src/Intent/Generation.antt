-- ===== src/Intent/Generation.antt =====
-- strategy_runtime_intent.py: the generations of the intent.
use candle_mind.Intent.Roundtrip.{strategy_scope-stable, written-load}
use candle_mind.Json.Value.{Fields}
use candle_mind.Base.Text.{Text}
use candle_mind.Intent.Inspected.{fault_unless_sound}
use candle_mind.Journal.Validate.{safe_fields}
use candle_mind.Base.Int.{negsuc, succ_ℤ, pos, leb_ℤ, ℤ}
use candle_mind.Base.Result.{◌>>=◌, err, ok, Result}
use candle_mind.Intent.Store.{
  write_after, set_desired_state, new_intent, unreadable, content, load, next_generation,
  checked_intent, File, Store,
}
use candle_mind.Intent.Document.{
  is_intent, StrategyScope, valid_timestamp, strategy_scope, is_desired_state, Fault,
  IntentDocument, validate_intent, Calendar,
}
use candle_mind.Base.Floats.{Floats}
use candle_mind.Base.{
  sym, &&_split, zero, subst, arith, refl, suc, none, some, Option, ◌&&◌, true, ◌≡◌, split_if,
}

module _ (R : Floats) (calendar : Calendar R) where
  -- The document that follows what was stored.
  abbrev pub Follows : Result Fault (Option (IntentDocument R)) → IntentDocument R → Type 0
  Follows (err f) d = ⊥
  Follows (ok none) d = d.generation ≡ pos 1
  Follows (ok (some p)) d = d.generation ≡ succ_ℤ p.generation

  -- What is stored is the document, or nothing has changed.
  unfoldable pub Stored :
      Store R calendar → Store R calendar × Result Fault (IntentDocument R) → Type 0
  Stored s (after, err f) = after ≡ s
  Stored s (after, ok d) =
      (load R calendar after ≡ ok (some d))
      × Follows (load R calendar s) d
      × (after.leases ≡ s.leases)

  succ-positive : (g : ℤ) → leb_ℤ (pos 1) g ≡ true → leb_ℤ (pos 1) (succ_ℤ g) ≡ true
  succ-positive (pos n) h = ground arith
  succ-positive (negsuc zero) h = cc
  succ-positive (negsuc (suc n)) h = ground arith

  positive :
      (p : IntentDocument R) → is_intent R calendar p ≡ true → leb_ℤ (pos 1) p.generation ≡ true
  unfolding is_intent
  positive p k = ground arith

  generation_of :
      (p : IntentDocument R) (d : IntentDocument R)
      → validate_intent R calendar p ≡ ok d
      → leb_ℤ (pos 1) d.generation ≡ true
  unfolding validate_intent is_intent
  generation_of p d h =
      let parts = fault_unless_sound _ Fault.intent_error p d h in
      subst (λ (x : IntentDocument R). leb_ℤ (pos 1) x.generation ≡ true) parts.1
        (positive p parts.0)

  validated-generation :
      (p : IntentDocument R) (r : Result Fault (IntentDocument R))
      (previous : Option (IntentDocument R))
      → validate_intent R calendar p ≡ r
      → (r >>= λ i. ok (some i)) ≡ ok previous
      → leb_ℤ (pos 1) (next_generation R calendar previous) ≡ true
  validated-generation p (err f) previous e h = cc
  validated-generation p (ok d) previous e h =
      let found : some d ≡ previous = cc in
      subst (λ o. leb_ℤ (pos 1) (next_generation R calendar o) ≡ true) found
        (succ-positive d.generation (generation_of p d e))

  checked_intent-generation :
      (o : Option (File (IntentDocument R))) (previous : Option (IntentDocument R))
      → checked_intent R calendar o ≡ ok previous
      → leb_ℤ (pos 1) (next_generation R calendar previous) ≡ true
  checked_intent-generation none previous h =
      let found : none ≡ previous = cc in
      subst (λ o. leb_ℤ (pos 1) (next_generation R calendar o) ≡ true) found refl
  checked_intent-generation (some unreadable) previous h = cc
  checked_intent-generation (some (content p)) previous h =
      validated-generation p (validate_intent R calendar p) previous refl h

  new_intent-validates :
      (now : R.F) (desired_state : Text) (scope : StrategyScope) (config : Fields)
      (previous : Option (IntentDocument R))
      → is_desired_state R calendar desired_state ≡ true
      → strategy_scope scope.provider scope.network scope.symbol ≡ ok scope
      → safe_fields config ≡ true
      → leb_ℤ (pos 1) (next_generation R calendar previous) ≡ true
      → valid_timestamp R calendar (calendar.utc_timestamp now) ≡ true
      → validate_intent R calendar (new_intent R calendar now desired_state scope config previous)
        ≡ ok (new_intent R calendar now desired_state scope config previous)
  unfolding validate_intent is_intent
  new_intent-validates now desired_state scope config previous desired made safe generation stamp =
      rw (desired, made, safe, stamp, generation) refl

  module _ (s : Store R calendar) (now : R.F) (desired_state : Text) (scope : StrategyScope)
      (config : Fields) where
    write_after-Stored :
        (previous : Result Fault (Option (IntentDocument R)))
        → load R calendar s ≡ previous
        → is_desired_state R calendar desired_state ≡ true
        → strategy_scope scope.provider scope.network scope.symbol ≡ ok scope
        → safe_fields config ≡ true
        → valid_timestamp R calendar (calendar.utc_timestamp now) ≡ true
        → Stored s (write_after R calendar s now desired_state scope config previous)
    unfolding Stored load
    write_after-Stored (err f) e desired made safe stamp = refl
    write_after-Stored (ok previous) e desired made safe stamp =
        let valid =
          new_intent-validates now desired_state scope config previous desired made safe
            (checked_intent-generation s.intent previous e) stamp in
        (
          written-load R calendar s (new_intent R calendar now desired_state scope config previous)
              valid,
          subst (λ r. Follows r (new_intent R calendar now desired_state scope config previous))
              (sym e) (follows previous),
          refl,
        )
      where
        follows :
            (o : Option (IntentDocument R))
            → Follows (ok o) (new_intent R calendar now desired_state scope config o)
        follows none = refl
        follows (some p) = refl

    refused-Stored : (f : Fault) → Stored s (s, err f)
    unfolding Stored
    refused-Stored f = refl

    -- For a scope that StrategyScope made, and a time whose stamp is valid, set_desired_state either
    -- raises and changes nothing, or stores a document that load returns then, whose generation is
    -- one where there was no intent and else that of the intent before and one more; it leaves the
    -- leases alone.
    pub set_desired_state-Stored :
        (provider network symbol : Text)
        → strategy_scope provider network symbol ≡ ok scope
        → valid_timestamp R calendar (calendar.utc_timestamp now) ≡ true
        → Stored s (set_desired_state R calendar s now desired_state scope config)
    unfolding set_desired_state
    set_desired_state-Stored provider network symbol made stamp =
        split_if (Stored s) (is_desired_state R calendar desired_state && safe_fields config)
          (λ h.
            let parts =
              &&_split (is_desired_state R calendar desired_state) (safe_fields config) h in
            write_after-Stored (load R calendar s) refl parts.0
              (strategy_scope-stable provider network symbol scope made) parts.1 stamp)
          (λ _. refused-Stored Fault.value_error)
