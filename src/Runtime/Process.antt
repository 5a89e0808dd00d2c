-- ===== src/Runtime/Process.antt =====
-- sar_adx_runtime.py: `process_bars`, `_process_housekeeping`, `_save` and `_restore`.
use candle_mind.Runtime.File.{state_document, state_from, store_save, Write, store_load, Saved}
use candle_mind.Pyramid.Transition.{transition_sar_pyramid}
use candle_mind.Base.Checked.{crashed, refused, accepted, Checked}
use candle_mind.Json.{int_text}
use candle_mind.Base.Int.{eq_ℤ, pos, ℤ}
use candle_mind.Runtime.Actions.{run_actions, settle_rows, action_value, RuntimeFault}
use candle_mind.Paper.Broker.{
  is_price, snapshot, close_position, returned, Call, PaperFill, PaperBroker,
}
use candle_mind.Base.Text.{codes, Text}
use candle_mind.Paper.Document.{from_dict, to_dict, PaperDocument}
use candle_mind.Base.Result.{err, ok, Result, ◌>>=◌}
use candle_mind.Runtime.Tape.{signal_of, Window, locate, FundingRow, TapeRow}
use candle_mind.Pyramid.Config.{
  TransitionResult, initial_state, SarPyramidActionType, SarPyramidState, SarPyramidConfig,
}
use candle_mind.Base.Floats.{Floats}
use candle_mind.Base.{
  ◌-◌, ltb, ◌+◌, ◌==◌, leb, none, get_or, some, Bool, Option, ℕ, [], not, ◌∷◌, ◌++◌, false, ◌&&◌,
  List, if◌then◌else◌,
}

pub data RecoveryStatus : Type 0 where
  new ready recovered rebaselined : RecoveryStatus

module _ (R : Floats) where
  pub record Runtime : Type 0 where
    pub state : SarPyramidState
    pub broker : PaperBroker R
    pub last_decision : Option ℕ
    pub last_execution : Option ℕ
    pub recovery_status : RecoveryStatus
    -- The file of the state store.
    pub stored : Option (Saved R)

  -- What is given at construction: the configuration with its version and hash, the symbol,
  -- pd.Timedelta, and datetime's isoformat with pd.Timestamp.
  pub record Setting : Type 0 where
    pub config : SarPyramidConfig R
    pub config_version : Text
    pub config_hash : Text
    pub symbol : Text
    pub timedelta : Text → Option ℤ
    pub isoformat : ℕ → Text
    pub timestamp : Text → Option ℕ
    -- `==` of two documents of the broker.
    pub same_document : PaperDocument R → PaperDocument R → Bool

  -- The arguments of a call, the cutoff, and how a write of the store ends.
  pub record Bars : Type 0 where
    pub tape : List (TapeRow R)
    pub cutoff : ℕ
    pub funding : List (FundingRow R)
    pub execution_price : Option R.F
    pub eligible : Bool
    pub allow_flat_rebaseline : Bool
    pub write : Write

  abbrev pub Step : Type 0
  Step = Runtime × Result RuntimeFault (List (PaperFill R))

  module _ (g : Setting) where
    abbrev pub prefix : Text
    prefix = g.config_version ++ codes ":" ++ g.symbol

    -- `decision_id:ordinal:action`
    abbrev pub action_id : ℕ → ℕ → SarPyramidActionType → Text
    action_id time ordinal action =
        prefix
        ++ codes ":"
        ++ g.isoformat time
        ++ codes ":"
        ++ int_text (pos ordinal)
        ++ codes ":"
        ++ action_value action

    abbrev pub eligibility_id : ℕ → Text
    eligibility_id time = prefix ++ codes ":eligibility:" ++ g.isoformat time

    abbrev pub time_text : Option ℕ → Option Text
    time_text none = none
    time_text (some t) = some (g.isoformat t)

    -- The document of `_save`.
    abbrev pub document : SarPyramidState → PaperBroker R → ℕ → Option ℕ → Saved R
    document state broker decision execution = record {
      config_version = g.config_version;
      config_hash = g.config_hash;
      symbol = g.symbol;
      decision_time = some (g.isoformat decision);
      execution_time = time_text execution;
      strategy = state_document state;
      broker = to_dict R broker;
    }

    -- The runtime after the save: it takes what was saved, if the save does not raise.
    abbrev pub saves :
        Runtime
        → SarPyramidState
        → PaperBroker R
        → ℕ
        → Option ℕ
        → RecoveryStatus
        → List (PaperFill R)
        → Option (Saved R) × Result RuntimeFault Unit
        → Step
    saves r state broker decision execution status fills (file, err f) =
        (record r { stored = file }, err f)
    saves r state broker decision execution status fills (file, ok u) = (
      record {
        state = state;
        broker = broker;
        last_decision = some decision;
        last_execution = execution;
        recovery_status = status;
        stored = file;
      },
      ok fills,
    )

    -- `_save` of a state and a broker, and the assignments that follow it.
    abbrev pub saved :
        Runtime
        → Write
        → SarPyramidState
        → PaperBroker R
        → ℕ
        → Option ℕ
        → RecoveryStatus
        → List (PaperFill R)
        → Step
    saved r write state broker decision execution status fills =
        saves r state broker decision execution status fills
          (store_save R write r.stored (document state broker decision execution))

    abbrev pub raises : Runtime → RuntimeFault → Step
    raises r f = (r, err f)

    -- The save after the actions.
    abbrev pub acted_on :
        Runtime
        → Bars
        → ℕ
        → ℕ
        → SarPyramidState
        → List (PaperFill R) × Result RuntimeFault (PaperBroker R)
        → Step
    acted_on r b decision execution state (fills, err f) = raises r f
    acted_on r b decision execution state (fills, ok broker) =
        saved r b.write state broker decision (some execution) r.recovery_status fills

    abbrev pub transitioned :
        Runtime → Bars → ℕ → ℕ → R.F → PaperBroker R → Checked TransitionResult → Step
    transitioned r b decision execution reference broker (accepted t) =
        acted_on r b decision execution t.state
          (run_actions R g.timedelta (action_id decision) reference g.config 0 t.actions broker)
    transitioned r b decision execution reference broker (refused m) =
        raises r RuntimeFault.strategy_error
    transitioned r b decision execution reference broker crashed =
        raises r RuntimeFault.strategy_error

    abbrev pub signalled :
        Runtime
        → Bars
        → TapeRow R
        → ℕ
        → R.F
        → Option (TapeRow R)
        → Result RuntimeFault (PaperBroker R)
        → Step
    signalled r b d execution reference previous (err f) = raises r f
    signalled r b d execution reference none (ok broker) = raises r RuntimeFault.key_error
    signalled r b d execution reference (some previous) (ok broker) =
        transitioned r b d.close_time execution reference broker (
          transition_sar_pyramid R g.timedelta r.state (signal_of R previous d b.eligible)
            (snapshot R broker) reference g.config)

    -- The execution of a decision at the open of the next bar.
    unfoldable pub execute_at : Runtime → Bars → Window R → TapeRow R → Step
    execute_at r b w n =
        let reference = get_or b.execution_price n.open_price in
        if not (n.open_time == w.decision.close_time + 1)
        then raises r RuntimeFault.runtime_error
        else if not (leb n.open_time b.cutoff && leb b.cutoff n.close_time)
        then raises r RuntimeFault.runtime_error
        else if ltb 30000 (b.cutoff - n.open_time)
        then raises r RuntimeFault.runtime_error
        else if not (is_price R reference)
        then raises r RuntimeFault.runtime_error
        else signalled r b w.decision n.open_time reference w.previous
            (settle_rows R g.timedelta g.isoformat n.open_time reference b.funding r.broker)

    abbrev pub executes : Runtime → Bars → Window R → Option (TapeRow R) → Step
    executes r b w none = (r, ok [])
    executes r b w (some n) = execute_at r b w n

    -- The close of a position that is not eligible any more.
    abbrev pub closed_out : Runtime → Bars → ℕ → Call R (PaperFill R) → Step
    closed_out r b last (broker, returned f) =
        if g.same_document (to_dict R broker) (to_dict R r.broker)
        then (r, ok [])
        else saved r b.write (record r.state { armed = false }) broker last r.last_execution
            r.recovery_status (f ∷ [])
    closed_out r b last (broker, _) = raises r RuntimeFault.broker_error

    abbrev pub kept_house : Runtime → Bars → ℕ → PaperBroker R → Step
    kept_house r b last broker =
        if g.same_document (to_dict R broker) (to_dict R r.broker)
        then (r, ok [])
        else saved r b.write r.state broker last r.last_execution r.recovery_status []

    abbrev pub settled_house :
        Runtime → Bars → ℕ → ℕ → R.F → Result RuntimeFault (PaperBroker R) → Step
    settled_house r b last decision price (err f) = raises r f
    settled_house r b last decision price (ok broker) =
        if not b.eligible && not (eq_ℤ broker.position.direction (pos 0))
        then closed_out r b last (
            close_position R broker (action_value SarPyramidActionType.universe_exit) price
              (eligibility_id decision) g.config)
        else kept_house r b last broker

    abbrev pub priced_house : Runtime → Bars → ℕ → ℕ → Option R.F → Step
    priced_house r b last decision none = (r, ok [])
    priced_house r b last decision (some price) =
        settled_house r b last decision price
          (settle_rows R g.timedelta g.isoformat b.cutoff price b.funding r.broker)

    -- `_process_housekeeping`
    unfoldable pub process_housekeeping : Runtime → Bars → ℕ → ℕ → Step
    unfolding settle_rows close_position to_dict
    process_housekeeping r b last decision = priced_house r b last decision b.execution_price

    -- The decision after a missed one.
    unfoldable pub missed : Runtime → Bars → ℕ → Step
    unfolding to_dict
    missed r b decision =
        if b.allow_flat_rebaseline && eq_ℤ r.broker.position.direction (pos 0)
        then saved r b.write initial_state r.broker decision none RecoveryStatus.rebaselined []
        else raises r RuntimeFault.runtime_error

    abbrev pub follows : Runtime → Bars → Window R → Option ℕ → Step
    follows r b w none =
        saved r b.write r.state r.broker w.decision.close_time r.last_execution RecoveryStatus.ready
          []
    follows r b w (some last) =
        if leb w.decision.close_time last
        then process_housekeeping r b last w.decision.close_time
        else if not (w.decision.close_time == last + 300000)
        then missed r b w.decision.close_time
        else executes r b w w.next

    abbrev pub located : Runtime → Bars → Option (Window R) → Step
    located r b none = raises r RuntimeFault.runtime_error
    located r b (some w) = follows r b w r.last_decision

    -- `process_bars`, on a validated tape.
    unfoldable pub process_bars : Runtime → Bars → Step
    unfolding locate process_housekeeping missed to_dict
    process_bars r b = located r b (locate R b.cutoff none b.tape)

    abbrev pub broker_from : Checked (PaperBroker R) → Result RuntimeFault (PaperBroker R)
    broker_from (accepted broker) = ok broker
    broker_from (refused m) = err RuntimeFault.runtime_error
    broker_from crashed = err RuntimeFault.runtime_error

    abbrev pub parsed_time : Option ℕ → Result RuntimeFault (Option ℕ)
    parsed_time none = err RuntimeFault.runtime_error
    parsed_time (some t) = ok (some t)

    -- `pd.Timestamp(value) if value else None`
    abbrev pub time_from : Option Text → Result RuntimeFault (Option ℕ)
    time_from none = ok none
    time_from (some []) = ok none
    time_from (some (c ∷ cs)) = parsed_time (g.timestamp (c ∷ cs))

    abbrev pub restores : Runtime → Option (Saved R) → Result RuntimeFault Runtime
    restores r none = ok r
    restores r (some d) = state_from d.strategy >>= λ state.
        broker_from (from_dict R d.broker) >>= λ broker. time_from d.decision_time >>= λ decision.
        time_from d.execution_time >>= λ execution. ok (record r {
          state = state;
          broker = broker;
          last_decision = decision;
          last_execution = execution;
          recovery_status = RecoveryStatus.recovered;
        })

    -- `_restore`
    unfoldable pub restore : Runtime → Result RuntimeFault Runtime
    unfolding from_dict store_load
    restore r = store_load R g.config_version g.symbol g.config_hash r.stored >>= λ payload.
        restores r payload

    -- `SarAdxPaperRuntime(…)` before `_restore`, on the file that is there.
    abbrev pub fresh : PaperBroker R → Option (Saved R) → Runtime
    fresh broker stored = record {
      state = initial_state;
      broker = broker;
      last_decision = none;
      last_execution = none;
      recovery_status = RecoveryStatus.new;
      stored = stored;
    }
