-- ===== src/Binance/Limits.antt =====
-- binance_retry.py: the bounds on the requests and on the sleep of one call, and the cooldown.
use candle_mind.Binance.Submission.{after_failure-again}
use candle_mind.Binance.Attempts.{attempts_rule}
use candle_mind.Binance.Failure.{BinanceFailure}
use candle_mind.Base.{
  refl, none, ap, ◌-◌, subst, arith, All, [], Option, some, suc, ◌≡◌, length, false, ◌+◌, true, ℕ,
  Bool, ◌≤◌,
}
use candle_mind.Binance.Executor.{
  remaining, BinanceOperation, is_policy, Answer, after_failure, send, cool_down, run_call,
  sleep_within_budget, back_off, World, Outside, BinanceRetryPolicy, Request, Outcome,
}

-- The request was sent when the deadline that all calls of the process share had passed.
abbrev pub AfterDeadline : Request → Type 0
AfterDeadline r = r.deadline_then ≤ r.sent_at

abbrev pub is_exhausted : {T : Type 0} → Outcome T → Bool
is_exhausted Outcome.exhausted = true
is_exhausted _ = false

-- What holds of the world where `n` requests were sent.
abbrev Within : BinanceRetryPolicy → ℕ → ℕ → World → Type 0
Within policy started n w =
    (length w.requests ≡ n)
    × (w.slept ≤ policy.budget)
    × (w.slept + started ≤ w.clock)
    × All AfterDeadline w.requests

module _ {T : Type 0} (policy : BinanceRetryPolicy) (out : Outside T)
    (answers : (n t : ℕ) → t ≤ out.answered_at n t)
    (wakes : (t d : ℕ) → t + d ≤ out.wakes_at t d) where
  sleep-Within :
      (started delay n : ℕ) (w w' : World)
      → Within policy started n w
      → sleep_within_budget policy out started delay w ≡ some w'
      → Within policy started n w' × (w.clock + delay ≤ w'.clock) × (w'.deadline ≡ w.deadline)
  unfolding sleep_within_budget
  sleep-Within started delay n w w' h eq = ground (arith, wakes w.clock delay)

  cool_down-Within :
      (started n : ℕ) (w w' : World)
      → Within policy started n w
      → cool_down policy out started w ≡ some w'
      → Within policy started n w' × (w'.deadline ≤ w'.clock)
  unfolding cool_down
  cool_down-Within started n w w' h eq = ground (arith, sleep-Within started (remaining w) n w w' h)

  back_off-Within :
      (started n k : ℕ) (f : BinanceFailure) (w : World)
      → Within policy started k w
      → Within policy started k (back_off policy out n f w).1
  unfolding back_off
  back_off-Within started n k f w h = ground arith

  after_failure-Within :
      (operation : BinanceOperation) (started n k : ℕ) (f : BinanceFailure) (w : World)
      (o : Option World) (w' : World)
      → Within policy started k w
      → after_failure policy out operation started n f w ≡ (o, w')
      → Within policy started k w'
  unfolding after_failure
  after_failure-Within operation started n k f w o w' h eq =
      ground (arith, back_off-Within started n k f w h)

  after_failure-again-Within :
      (operation : BinanceOperation) (started n k : ℕ) (f : BinanceFailure) (w w' w'' : World)
      → Within policy started k w
      → after_failure policy out operation started n f w ≡ (some w', w'')
      → Within policy started k w'
  unfolding after_failure
  after_failure-again-Within operation started n k f w w' w'' h eq = ground (
    arith,
    back_off-Within started n k f w h,
    sleep-Within started (back_off policy out n f w).0 k (back_off policy out n f w).1 w',
  )

  send-Within :
      (started n : ℕ) (w w' : World) (a : Answer T)
      → Within policy started n w
      → w.deadline ≤ w.clock
      → send out w ≡ (a, w')
      → Within policy started (suc n) w'
  unfolding send
  send-Within started n w w' a h d eq =
      subst (Within policy started (suc n)) (ap (λ p. p.1) eq)
        (ground (arith, answers (length w.requests) w.clock))

  next_once :
      (w : World) (started n : ℕ) → Within policy started n w → Within policy started (suc n - 1) w
  next_once w started n h = ground arith

  sent_once :
      (w : World) (started n : ℕ)
      → 1 ≤ n
      → Within policy started (suc (n - 1)) w
      → Within policy started n w
  sent_once w started n one h = ground arith

  ended :
      (o : Outcome T) (started n : ℕ) (w : World)
      → is_exhausted o ≡ false
      → n ≤ policy.max_attempts
      → Within policy started n w
      → (length w.requests ≤ policy.max_attempts)
        × (w.slept ≤ policy.budget)
        × All AfterDeadline w.requests
        × (is_exhausted o ≡ false)
  ended o started n w alive bound h = ground arith

  -- If the clock does not run backwards and a sleep lasts as long as was asked, a call sends at most
  -- `max_attempts` requests, sleeps for at most the budget in all, sends no request before the
  -- deadline of the process's cooldown, and does not end by the loop running out of attempts.
  pub run_call-Within :
      (operation : BinanceOperation) (w : World)
      → is_policy policy ≡ true
      → w.requests ≡ []
      → w.slept ≡ 0
      → let (outcome, w') = run_call policy out operation w in
        (length w'.requests ≤ policy.max_attempts)
        × (w'.slept ≤ policy.budget)
        × All AfterDeadline w'.requests
        × (is_exhausted outcome ≡ false)
  unfolding run_call is_policy
  run_call-Within operation w0 valid fresh rested =
      attempts_rule policy out operation w0.clock
        (λ n w. (n ≤ policy.max_attempts) × (1 ≤ n) × Within policy w0.clock (n - 1) w)
        (λ n w.
          (n ≤ policy.max_attempts)
          × (1 ≤ n)
          × Within policy w0.clock (n - 1) w
          × (w.deadline ≤ w.clock))
        (λ n e w. (n ≤ policy.max_attempts) × (1 ≤ n) × Within policy w0.clock n w)
        (λ o.
          (length o.1.requests ≤ policy.max_attempts)
          × (o.1.slept ≤ policy.budget)
          × All AfterDeadline o.1.requests
          × (is_exhausted o.0 ≡ false))
        (λ n w w' h eq.
          let (bound, one, within) = h in
          let (within', passed) = cool_down-Within w0.clock (n - 1) w w' within eq in
          (bound, one, within', passed))
        (λ n w h. ground arith)
        (λ n w w' e h eq.
          let (bound, one, within, passed) = h in
          (
            bound,
            one,
            sent_once w' w0.clock n one (send-Within w0.clock (n - 1) w w' _ within passed eq),
          ))
        (λ n w w' v h eq.
          let (bound, one, within, passed) = h in
          ended (Outcome.returned v) w0.clock n w' refl bound
            (sent_once w' w0.clock n one (send-Within w0.clock (n - 1) w w' _ within passed eq)))
        (λ n w w' e h eq.
          let (bound, one, within) = h in
          ended (Outcome.raised e) w0.clock n w' refl bound
            (after_failure-Within operation w0.clock n n _ w none w' within eq))
        (λ n w w' w'' e h eq.
          let (bound, one, within) = h in
          let (may, more, _) = after_failure-again policy out operation w0.clock n _ w w' w'' eq in
          (
            more,
            (
              omega (arith, more, bound),
              omega arith,
              next_once w' w0.clock n
                  (after_failure-again-Within operation w0.clock n n _ w w' w'' within eq),
            ),
          ))
        1 policy.max_attempts w0 (omega arith) (ground arith) (ground arith)
