-- ===== src/Binance/Submission.antt =====
-- binance_retry.py: the requests of a call with WRITE_SUBMIT.
use candle_mind.Binance.Classify.{classify_binance_failure}
use candle_mind.Binance.Attempts.{attempts_rule}
use candle_mind.Base.{
  none, subst, sym, ap, ◌≢◌, Option, arith, ℕ, [], some, true, ◌≡◌, ◌∷◌, All, List,
}
use candle_mind.Binance.Failure.{BinanceSubmissionOutcome, BinanceFailure}
use candle_mind.Binance.Executor.{
  Outcome, failure_of, Answer, is_policy, run_call, send, World, after_failure, cool_down,
  sleep_within_budget, back_off, Outside, BinanceOperation, Request, may_repeat, BinanceRetryPolicy,
}

-- The request failed, and the answer said that the order was not accepted.
abbrev pub NotAccepted : Request → Type 0
NotAccepted r =
    (f : BinanceFailure) × (r.failure ≡ some f)
    × (f.submission_outcome ≡ BinanceSubmissionOutcome.not_accepted)

-- All but the last request failed so; the last one stands first.
abbrev pub OnlyLastCounts : List Request → Type 0
OnlyLastCounts [] = Unit
OnlyLastCounts (r ∷ rs) = All NotAccepted rs

-- The last request failed with the failure, and those before it failed so.
abbrev pub FailedWith : BinanceFailure → List Request → Type 0
FailedWith f [] = f ≡ f
FailedWith f (r ∷ rs) = (r.failure ≡ some f) × All NotAccepted rs

-- What the outcome of a submission says of the requests that were sent.
abbrev pub Tells : {T : Type 0} → Outcome T → List Request → Type 0
Tells (Outcome.returned v) rs = OnlyLastCounts rs
Tells (Outcome.raised e) rs = FailedWith (classify_binance_failure e) rs
Tells Outcome.cooldown_active rs = All NotAccepted rs
Tells Outcome.exhausted rs = ⊥

settled-counts : (rs : List Request) → All NotAccepted rs → OnlyLastCounts rs
settled-counts [] h = tt
settled-counts (r ∷ rs) h = h.1

failed-counts : (f : BinanceFailure) (rs : List Request) → FailedWith f rs → OnlyLastCounts rs
failed-counts f [] h = tt
failed-counts f (r ∷ rs) h = h.1

failed-settled :
    (f : BinanceFailure) (rs : List Request)
    → FailedWith f rs
    → may_repeat BinanceOperation.write_submit f ≡ true
    → All NotAccepted rs
unfolding may_repeat
failed-settled f [] h m = tt
failed-settled f (r ∷ rs) h m = ((f, h.0, ground arith), h.1)

module _ {T : Type 0} (policy : BinanceRetryPolicy) (out : Outside T) where
  sleep-requests :
      (started delay : ℕ) (w w' : World)
      → sleep_within_budget policy out started delay w ≡ some w'
      → w'.requests ≡ w.requests
  unfolding sleep_within_budget
  sleep-requests started delay w w' h = ground arith

  cool_down-requests :
      (started : ℕ) (w w' : World)
      → cool_down policy out started w ≡ some w'
      → w'.requests ≡ w.requests
  unfolding cool_down
  cool_down-requests started w w' h = ground arith

  back_off-requests :
      (n : ℕ) (f : BinanceFailure) (w : World) → (back_off policy out n f w).1.requests ≡ w.requests
  unfolding back_off
  back_off-requests n f w = ground arith

  after_failure-requests :
      (operation : BinanceOperation) (started n : ℕ) (f : BinanceFailure) (w : World)
      → (o : Option World) (w' : World) → after_failure policy out operation started n f w ≡ (o, w')
      → w'.requests ≡ w.requests
  unfolding after_failure
  after_failure-requests operation started n f w o w' h = ground arith

  pub after_failure-again :
      (operation : BinanceOperation) (started n : ℕ) (f : BinanceFailure) (w w' w'' : World)
      → after_failure policy out operation started n f w ≡ (some w', w'')
      → (may_repeat operation f ≡ true) × (n ≢ policy.max_attempts) × (w'.requests ≡ w.requests)
  unfolding after_failure
  after_failure-again operation started n f w w' w'' h = ground arith

  send-requests :
      (w w' : World) (a : Answer T)
      → send out w ≡ (a, w')
      → (r : Request) × (r.failure ≡ failure_of a) × (w'.requests ≡ r ∷ w.requests)
  unfolding send
  send-requests w w' a h = (_, ap (λ p. failure_of p.0) h, sym (ap (λ p. p.1.requests) h))

  pub submit-Tells :
      (w : World)
      → is_policy policy ≡ true
      → w.requests ≡ []
      → Tells
          (run_call policy out BinanceOperation.write_submit w).0
          (run_call policy out BinanceOperation.write_submit w).1.requests
  unfolding run_call is_policy
  submit-Tells w0 valid fresh =
      attempts_rule policy out BinanceOperation.write_submit w0.clock
        (λ _ w. All NotAccepted w.requests) (λ _ w. All NotAccepted w.requests)
        (λ _ e w. FailedWith (classify_binance_failure e) w.requests) (λ o. Tells o.0 o.1.requests)
        (λ n w w' h eq. subst (All NotAccepted) (sym (cool_down-requests w0.clock w w' eq)) h)
        (λ n w h. h)
        (λ n w w' e h eq.
          let (r, failed, rs) = send-requests w w' _ eq in
          subst (FailedWith (classify_binance_failure e)) (sym rs) (failed, h))
        (λ n w w' v h eq.
          let (r, _, rs) = send-requests w w' _ eq in subst OnlyLastCounts (sym rs) h)
        (λ n w w' e h eq.
          subst (FailedWith (classify_binance_failure e))
            (sym (after_failure-requests _ _ n _ w none w' eq)) h)
        (λ n w w' w'' e h eq.
          let (may, more, rs) = after_failure-again _ _ n _ w w' w'' eq in
          (more, subst (All NotAccepted) (sym rs) (failed-settled _ w.requests h may)))
        1 policy.max_attempts w0 (omega arith) (ground arith)
        (subst (All NotAccepted) (sym fresh) tt)

  pub Tells-counts : (o : Outcome T) (rs : List Request) → Tells o rs → OnlyLastCounts rs
  Tells-counts (Outcome.returned v) rs h = h
  Tells-counts (Outcome.raised e) rs h = failed-counts _ rs h
  Tells-counts Outcome.cooldown_active rs h = settled-counts rs h
  Tells-counts Outcome.exhausted rs h = elim h [ ]

  -- Of the requests that a submission sends, every one but the last failed with an answer which says
  -- that the order was not accepted; whatever Binance answers, however the clocks run, and whatever
  -- the policy, an order that may have been accepted is not sent again.
  pub submit_once :
      (w : World)
      → is_policy policy ≡ true
      → w.requests ≡ []
      → OnlyLastCounts (run_call policy out BinanceOperation.write_submit w).1.requests
  submit_once w valid fresh = Tells-counts _ _ (submit-Tells w valid fresh)
