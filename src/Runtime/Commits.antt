-- ===== src/Runtime/Commits.antt =====
-- sar_adx_runtime.py: `process_bars` and `_process_housekeeping`, on every path.
use candle_mind.Paper.Effects.{close_position-Effect}
use candle_mind.Paper.Document.{to_dict}
use candle_mind.Base.Text.{Text}
use candle_mind.Pyramid.Config.{SarPyramidActionType, initial_state}
use candle_mind.Base.Int.{pos, eq_ℤ}
use candle_mind.Runtime.Valid.{settle_rows-Keeps, Keeps}
use candle_mind.Runtime.Actions.{action_value, RuntimeFault}
use candle_mind.Runtime.Tape.{locate, TapeRow, Window}
use candle_mind.Runtime.Synced.{
  execute_at-Commits, raises-Commits, idle-Commits, saved-Commits, Commits, Advances,
}
use candle_mind.Paper.Broker.{
  zero_division, close_position, value_error, runtime_error, returned, PaperFill, Call, PaperBroker,
}
use candle_mind.Base.Result.{err, ok, Result}
use candle_mind.Runtime.Process.{
  eligibility_id, RecoveryStatus, kept_house, closed_out, priced_house, executes, settled_house,
  follows, located, process_bars, missed, process_housekeeping, Bars, Runtime, Setting,
}
use candle_mind.Base.Floats.{Floats}
use candle_mind.Base.{
  sym, subst, leb, ◌+◌, ◌==◌, none, ◌≤◌, Option, ℕ, refl, some, [], not, ◌∷◌, false, ◌&&◌, ◌≡◌,
  split_if, arith,
}
use candle_mind.Paper.Calls.{Effect-Moves}

module _ (R : Floats) (g : Setting R) (r : Runtime R) (b : Bars R) where
  executes-Commits :
      (w : Window R) (next : Option (TapeRow R))
      → Advances R g r.last_decision (some w.decision.close_time)
      → Commits R g b.write r (executes R g r b w next)
  executes-Commits w none a = idle-Commits R g b.write r
  executes-Commits w (some n) a = execute_at-Commits R g r b w n a

  closed_out-Commits :
      (last : ℕ) (k : Call R (PaperFill R))
      → Advances R g r.last_decision (some last)
      → Keeps R g.timedelta g.config r.broker (ok k.0)
      → Commits R g b.write r (closed_out R g r b last k)
  closed_out-Commits last (broker, returned f) a v =
      split_if (Commits R g b.write r) (g.same_document (to_dict R broker) (to_dict R r.broker))
        (λ _. idle-Commits R g b.write r)
        (λ _.
          saved-Commits R g r b.write (record r.state { armed = false }) broker last
            r.last_execution r.recovery_status (f ∷ []) a v)
  closed_out-Commits last (broker, runtime_error m) a v = raises-Commits R g b.write r _
  closed_out-Commits last (broker, value_error m) a v = raises-Commits R g b.write r _
  closed_out-Commits last (broker, zero_division) a v = raises-Commits R g b.write r _

  kept_house-Commits :
      (last : ℕ) (broker : PaperBroker R)
      → Advances R g r.last_decision (some last)
      → Keeps R g.timedelta g.config r.broker (ok broker)
      → Commits R g b.write r (kept_house R g r b last broker)
  kept_house-Commits last broker a v =
      split_if (Commits R g b.write r) (g.same_document (to_dict R broker) (to_dict R r.broker))
        (λ _. idle-Commits R g b.write r)
        (λ _.
          saved-Commits R g r b.write r.state broker last r.last_execution r.recovery_status [] a v)

  settled_house-Commits :
      (last decision : ℕ) (price : R.F) (o : Result RuntimeFault (PaperBroker R))
      → Advances R g r.last_decision (some last)
      → Keeps R g.timedelta g.config r.broker o
      → Commits R g b.write r (settled_house R g r b last decision price o)
  settled_house-Commits last decision price (err f) a v = raises-Commits R g b.write r f
  settled_house-Commits last decision price (ok broker) a v =
      let id : Text = eligibility_id R g decision in
      split_if (Commits R g b.write r)
        (not b.eligible && not (eq_ℤ broker.position.direction (pos 0)))
        (λ _.
          closed_out-Commits last
            (close_position R broker (action_value SarPyramidActionType.universe_exit) price id
              g.config)
            a
            (λ h.
              (Effect-Moves R g.timedelta g.config broker id _ _ _ (
                  close_position-Effect R broker id g.config
                    (action_value SarPyramidActionType.universe_exit) price)).valid
                (v h)))
        (λ _. kept_house-Commits last broker a v)

  priced_house-Commits :
      (last decision : ℕ) (price : Option R.F)
      → Advances R g r.last_decision (some last)
      → Commits R g b.write r (priced_house R g r b last decision price)
  priced_house-Commits last decision none a = idle-Commits R g b.write r
  priced_house-Commits last decision (some price) a =
      settled_house-Commits last decision price _ a
        (settle_rows-Keeps R g.timedelta g.config g.isoformat b.cutoff price b.funding r.broker)

  process_housekeeping-Commits :
      (last decision : ℕ)
      → Advances R g r.last_decision (some last)
      → Commits R g b.write r (process_housekeeping R g r b last decision)
  unfolding process_housekeeping
  process_housekeeping-Commits last decision a =
      priced_house-Commits last decision b.execution_price a

  missed-Commits :
      (decision : ℕ)
      → Advances R g r.last_decision (some decision)
      → Commits R g b.write r (missed R g r b decision)
  unfolding missed
  missed-Commits decision a =
      split_if (Commits R g b.write r)
        (b.allow_flat_rebaseline && eq_ℤ r.broker.position.direction (pos 0))
        (λ _.
          saved-Commits R g r b.write initial_state r.broker decision none
            RecoveryStatus.rebaselined [] a (λ v. v))
        (λ _. raises-Commits R g b.write r RuntimeFault.runtime_error)

  after_last : (o : Option ℕ) (last t : ℕ) → o ≡ some last → last ≤ t → Advances R g o (some t)
  after_last none last t e h = cc
  after_last (some s) last t e h = let same : s ≡ last = cc in subst (λ x. x ≤ t) (sym same) h

  follows-Commits :
      (w : Window R) (o : Option ℕ)
      → r.last_decision ≡ o
      → Commits R g b.write r (follows R g r b w o)
  follows-Commits w none e =
      saved-Commits R g r b.write r.state r.broker w.decision.close_time r.last_execution
        RecoveryStatus.ready [] (rw e tt) (λ v. v)
  follows-Commits w (some last) e =
      split_if (Commits R g b.write r) (leb w.decision.close_time last)
        (λ _.
          process_housekeeping-Commits last w.decision.close_time
            (after_last r.last_decision last last e (omega arith)))
        (λ h.
          let later : last ≤ w.decision.close_time = ground arith in
          split_if (Commits R g b.write r) (not (w.decision.close_time == last + 300000))
            (λ _. missed-Commits w.decision.close_time (after_last r.last_decision last _ e later))
            (λ _. executes-Commits w w.next (after_last r.last_decision last _ e later)))

  located-Commits : (w : Option (Window R)) → Commits R g b.write r (located R g r b w)
  located-Commits none = raises-Commits R g b.write r RuntimeFault.runtime_error
  located-Commits (some w) = follows-Commits w r.last_decision refl

  -- A call of `process_bars`, on every path. When it raises, the state, the broker and the times of
  -- the runtime are as before; and so is its file, unless the store failed after it had replaced the
  -- file, which then holds a later runtime. When it returns, nothing is changed and no fill is
  -- returned, or the runtime is a later one and its file holds it. The last decision of a later runtime
  -- is not earlier than before, and its broker is valid if the broker was.
  pub process_bars-Commits : Commits R g b.write r (process_bars R g r b)
  unfolding process_bars
  process_bars-Commits = located-Commits (locate R b.cutoff none b.tape)
