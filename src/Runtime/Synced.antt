-- ===== src/Runtime/Synced.antt =====
-- sar_adx_runtime.py: the runtime and its file, call by call.
use candle_mind.Runtime.File.{is_json, replaces, state_document, Write, store_save}
use candle_mind.Runtime.Tape.{Window, TapeRow}
use candle_mind.Base.Checked.{crashed, refused, accepted, Checked}
use candle_mind.Paper.Calls.{IsValid}
use candle_mind.Runtime.Valid.{settle_rows-Keeps, run_actions-Keeps, Keeps}
use candle_mind.Pyramid.Config.{TransitionResult, SarPyramidState}
use candle_mind.Paper.Document.{to_dict}
use candle_mind.Base.Result.{Result, err, ok}
use candle_mind.Runtime.Actions.{RuntimeFault}
use candle_mind.Paper.Broker.{is_price, PaperBroker, PaperFill}
use candle_mind.Runtime.Process.{
  saves, document, time_text, action_id, signalled, transitioned, acted_on, execute_at, Bars, saved,
  RecoveryStatus, raises, Step, Runtime, Setting,
}
use candle_mind.Base.Floats.{Floats}
use candle_mind.Base.{
  ◌-◌, ltb, leb, ◌+◌, ◌==◌, get_or, none, ◌≤◌, Option, ℕ, refl, ◌⊎◌, inr, inl, some, Bool, [], not,
  false, ◌&&◌, true, ◌≡◌, split_if, List,
}

module _ (R : Floats) (g : Setting R) where
  -- The file holds the state, the broker and the times of the runtime.
  abbrev pub Synced : Runtime R → Type 0
  Synced r =
      r.stored
      ≡ some (record {
        config_version = g.config_version;
        config_hash = g.config_hash;
        symbol = g.symbol;
        decision_time = time_text R g r.last_decision;
        execution_time = time_text R g r.last_execution;
        strategy = state_document r.state;
        broker = to_dict R r.broker;
      })

  -- The last decision does not go back.
  abbrev pub Advances : Option ℕ → Option ℕ → Type 0
  Advances none t = Unit
  Advances (some s) none = ⊥
  Advances (some s) (some t) = s ≤ t

  abbrev pub Sound : Runtime R → Type 0
  Sound r = IsValid R g.timedelta g.config r.broker

  -- A runtime that comes after: its file holds it, it does not go back in time, and it is valid.
  abbrev pub Later : Runtime R → Runtime R → Type 0
  Later r x = Synced x × Advances r.last_decision x.last_decision × (Sound r → Sound x)

  -- The write failed after the file was replaced: in memory nothing is changed.
  abbrev pub Ahead : Write → Runtime R → Runtime R → RuntimeFault → Type 0
  Ahead w r after f =
      (w ≡ Write.unsynced)
      × (f ≡ RuntimeFault.state_error)
      × (x : Runtime R) × (after ≡ record r { stored = x.stored })
      × Later r x

  -- A call that raises leaves the runtime and its file, or its file is ahead. Any other leaves both,
  -- and fills nothing, or it leaves a later runtime.
  unfoldable pub Commits : Write → Runtime R → Step R → Type 0
  Commits w r (after, err f) = (after ≡ r) ⊎ Ahead w r after f
  Commits w r (after, ok fills) = ((after ≡ r) × (fills ≡ [])) ⊎ Later r after

  pub raises-Commits : (w : Write) (r : Runtime R) (f : RuntimeFault) → Commits w r (raises R g r f)
  unfolding Commits
  raises-Commits w r f = inl refl

  pub idle-Commits : (w : Write) (r : Runtime R) → Commits w r (r, ok [])
  unfolding Commits
  idle-Commits w r = inl (refl, refl)

  -- The runtime that is saved.
  abbrev next : SarPyramidState → PaperBroker R → ℕ → Option ℕ → RecoveryStatus → Runtime R
  next state broker decision execution status = record {
    state = state;
    broker = broker;
    last_decision = some decision;
    last_execution = execution;
    recovery_status = status;
    stored = some (document R g state broker decision execution);
  }

  replaced-Commits :
      (w : Write) (r : Runtime R) (state : SarPyramidState) (broker : PaperBroker R) (decision : ℕ)
      (execution : Option ℕ) (status : RecoveryStatus) (fills : List (PaperFill R))
      → Later r (next state broker decision execution status)
      → Commits w r (
          saves R g r state broker decision execution status fills
            (replaces R w r.stored (document R g state broker decision execution)))
  unfolding Commits
  replaced-Commits Write.written r state broker decision execution status fills h = inr h
  replaced-Commits Write.unwritten r state broker decision execution status fills h = inl refl
  replaced-Commits Write.unsynced r state broker decision execution status fills h =
      inr (refl, refl, next state broker decision execution status, refl, h)

  pub saved-Commits :
      (r : Runtime R) (w : Write) (state : SarPyramidState) (broker : PaperBroker R) (decision : ℕ)
      (execution : Option ℕ) (status : RecoveryStatus) (fills : List (PaperFill R))
      → Advances r.last_decision (some decision)
      → Keeps R g.timedelta g.config r.broker (ok broker)
      → Commits w r (saved R g r w state broker decision execution status fills)
  unfolding store_save
  saved-Commits r w state broker decision execution status fills a v =
      split_if (λ o. Commits w r (saves R g r state broker decision execution status fills o))
        (is_json R (to_dict R broker))
        (λ _. replaced-Commits w r state broker decision execution status fills (refl, a, v))
        (λ _. raises-Commits w r RuntimeFault.value_error)

  module _ (r : Runtime R) (b : Bars R) where
    acted_on-Commits :
        (decision execution : ℕ) (state : SarPyramidState)
        (o : List (PaperFill R) × Result RuntimeFault (PaperBroker R))
        → Advances r.last_decision (some decision)
        → Keeps R g.timedelta g.config r.broker o.1
        → Commits b.write r (acted_on R g r b decision execution state o)
    acted_on-Commits decision execution state (fills, err f) a v = raises-Commits b.write r f
    acted_on-Commits decision execution state (fills, ok broker) a v =
        saved-Commits r b.write state broker decision (some execution) r.recovery_status fills a v

    then-Keeps :
        (broker : PaperBroker R) (o : Result RuntimeFault (PaperBroker R))
        → Keeps R g.timedelta g.config r.broker (ok broker)
        → Keeps R g.timedelta g.config broker o
        → Keeps R g.timedelta g.config r.broker o
    then-Keeps broker (ok x) h k = λ v. k (h v)
    then-Keeps broker (err f) h k = tt

    transitioned-Commits :
        (decision execution : ℕ) (reference : R.F) (broker : PaperBroker R)
        (t : Checked TransitionResult)
        → is_price R reference ≡ true
        → Advances r.last_decision (some decision)
        → Keeps R g.timedelta g.config r.broker (ok broker)
        → Commits b.write r (transitioned R g r b decision execution reference broker t)
    transitioned-Commits decision execution reference broker (accepted t) price a v =
        acted_on-Commits decision execution t.state _ a (
          then-Keeps broker _ v (
            run_actions-Keeps R g.timedelta g.config (action_id R g decision) reference 0 t.actions
              broker price))
    transitioned-Commits decision execution reference broker (refused m) price a v =
        raises-Commits b.write r RuntimeFault.strategy_error
    transitioned-Commits decision execution reference broker crashed price a v =
        raises-Commits b.write r RuntimeFault.strategy_error

    signalled-Commits :
        (d : TapeRow R) (execution : ℕ) (reference : R.F) (previous : Option (TapeRow R))
        (o : Result RuntimeFault (PaperBroker R))
        → is_price R reference ≡ true
        → Advances r.last_decision (some d.close_time)
        → Keeps R g.timedelta g.config r.broker o
        → Commits b.write r (signalled R g r b d execution reference previous o)
    signalled-Commits d execution reference previous (err f) price a v = raises-Commits b.write r f
    signalled-Commits d execution reference none (ok broker) price a v =
        raises-Commits b.write r RuntimeFault.key_error
    signalled-Commits d execution reference (some previous) (ok broker) price a v =
        transitioned-Commits d.close_time execution reference broker _ price a v

    pub execute_at-Commits :
        (w : Window R) (n : TapeRow R)
        → Advances r.last_decision (some w.decision.close_time)
        → Commits b.write r (execute_at R g r b w n)
    unfolding execute_at
    execute_at-Commits w n a =
        let reference : R.F = get_or b.execution_price n.open_price in
        split_if (Commits b.write r) (not (n.open_time == w.decision.close_time + 1))
          (λ _. raises-Commits b.write r RuntimeFault.runtime_error)
          (λ _.
            split_if (Commits b.write r)
              (not (leb n.open_time b.cutoff && leb b.cutoff n.close_time))
              (λ _. raises-Commits b.write r RuntimeFault.runtime_error)
              (λ _.
                split_if (Commits b.write r) (ltb 30000 (b.cutoff - n.open_time))
                  (λ _. raises-Commits b.write r RuntimeFault.runtime_error)
                  (λ _.
                    split_if (Commits b.write r) (not (is_price R reference))
                      (λ _. raises-Commits b.write r RuntimeFault.runtime_error)
                      (λ price.
                        signalled-Commits w.decision n.open_time reference w.previous _
                          (priced _ price) a
                          (settle_rows-Keeps R g.timedelta g.config g.isoformat n.open_time
                            reference b.funding r.broker)))))
      where
        priced : (p : Bool) → not p ≡ false → p ≡ true
        priced true h = refl
        priced false h = cc
