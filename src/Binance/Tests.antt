-- ===== src/Binance/Tests.antt =====
-- Calls of Binance, classified and run, and the theorems at them.
use candle_mind.Base.Text.{lower, text_eq, codes}
use candle_mind.Base.Int.{pos, negsuc}
use candle_mind.Binance.Limits.{run_call-Within, is_exhausted, AfterDeadline}
use candle_mind.Binance.Evidence.{classify-evidence, SaysNotAccepted, Answered}
use candle_mind.Binance.Submission.{submit_once, OnlyLastCounts}
use candle_mind.Base.{
  ◌∷◌, arith, ◌+◌, All, ◌≤◌, inr, ◌==◌, length, refl, if◌then◌else◌, some, inl, none, true, ◌≡◌, ℕ,
  [], false,
}
use candle_mind.Binance.Classify.{classify_binance_failure}
use candle_mind.Binance.Failure.{HeaderFloat, BinanceSubmissionOutcome, Attribute, Exception}
use candle_mind.Binance.Executor.{
  Outcome, back_off, may_repeat, sleep_within_budget, after_failure, send, cool_down,
  BinanceOperation, attempts, default_policy, run_call, Outside, is_policy, World,
}

abbrev bare : Exception
bare = record {
  is_ssl_error = false;
  is_timeout = false;
  is_connection_error = false;
  is_request_exception = false;
  is_api_exception = true;
  status_code = Attribute.missing;
  code = Attribute.missing;
  message = none;
  response = none;
}

-- HTTP 429 with `Retry-After: 2`.
abbrev throttled : Exception
throttled = record bare {
  status_code = Attribute.integer (pos 429);
  response = some (record {
    status_code = Attribute.missing;
    headers = (codes "Retry-After", HeaderFloat.seconds (pos 2000000)) ∷ [];
  });
}

abbrev banned : Exception
banned = record bare {
  status_code = Attribute.integer (pos 418);
  code = Attribute.integer (negsuc 1002);
  message = some (codes "IP banned until 1700000000000.");
}

abbrev late : Exception
late = record bare { is_timeout = true; is_connection_error = true }

banned_test :
    ((classify_binance_failure banned).ban_until_ms ≡ some 1700000000000)
    × ((classify_binance_failure banned).submission_outcome ≡ BinanceSubmissionOutcome.not_accepted)
    × ((classify_binance_failure throttled).retry_after ≡ some 2000000)
    × ((classify_binance_failure late).submission_outcome ≡ BinanceSubmissionOutcome.unknown)
unfolding classify_binance_failure text_eq lower
banned_test = (refl, refl, refl, refl)

-- Throttled once, then accepted.
abbrev outside : Outside ℕ
outside = record {
  answer = λ n. if n == 0 then inl throttled else inr 7;
  answered_at = λ n t. t + 100;
  wakes_at = λ t d. t + d + 1;
  random = λ n. pos 500000;
  wall_clock = λ t. t;
}

-- Every answer is late.
abbrev silent : Outside ℕ
silent = record outside { answer = λ n. inl late }

abbrev world : World
world = record { clock = 1000; deadline = 0; slept = 0; requests = [] }

throttled_test :
    (run_call default_policy outside BinanceOperation.write_submit world).0 ≡ Outcome.returned 7
unfolding run_call attempts cool_down send after_failure classify_binance_failure
    sleep_within_budget may_repeat back_off text_eq lower
throttled_test = refl

-- A submission that times out is not repeated, a read is.
silent_test :
    (length (run_call default_policy silent BinanceOperation.write_submit world).1.requests ≡ 1)
    × (length (run_call default_policy silent BinanceOperation.read world).1.requests ≡ 3)
unfolding run_call attempts cool_down send after_failure classify_binance_failure
    sleep_within_budget may_repeat back_off
silent_test = (refl, refl)

submit_once_example :
    OnlyLastCounts (run_call default_policy outside BinanceOperation.write_submit world).1.requests
unfolding is_policy
submit_once_example = submit_once default_policy outside world refl refl

run_call-Within_example :
    let (outcome, w') = run_call default_policy outside BinanceOperation.write_submit world in
    (length w'.requests ≤ 3)
    × (w'.slept ≤ 5000000)
    × All AfterDeadline w'.requests
    × (is_exhausted outcome ≡ false)
unfolding is_policy
run_call-Within_example =
    run_call-Within default_policy outside (λ n t. omega arith) (λ t d. omega arith)
      BinanceOperation.write_submit world refl refl refl

classify-evidence_example :
    ((classify_binance_failure throttled).submission_outcome ≡ BinanceSubmissionOutcome.not_accepted
      → ((classify_binance_failure throttled).retryable ≡ true)
        × Answered throttled
        × SaysNotAccepted throttled)
    × ((classify_binance_failure throttled).submission_outcome ≡ BinanceSubmissionOutcome.rejected
        → (classify_binance_failure throttled).retryable ≡ false)
classify-evidence_example = classify-evidence throttled
