-- ===== src/Binance/Evidence.antt =====
-- binance_errors.py: what the classification of a failure says of the order that was sent.
use candle_mind.Base.Int.{ℤ}
use candle_mind.Base.{
  split_if, refl, Option, if◌then◌else◌, inr, Bool, inl, ◌&&◌, ◌⊎◌, ◌||◌, arith, [], ◌∷◌, true,
  false, ◌≡◌,
}
use candle_mind.Binance.Classify.{
  exchange_message, exchange_code, http_status, overloaded, code_in, classify_binance_failure,
  status_in,
}
use candle_mind.Binance.Failure.{
  BinanceFailure, BinanceFailureCategory, BinanceSubmissionOutcome, make_failure, Exception,
}

-- Binance answered, and it answered that the request was throttled or never processed.
abbrev pub SaysNotAccepted : Exception → Type 0
unfolding status_in code_in overloaded
SaysNotAccepted e =
    ((status_in (418 ∷ 429 ∷ []) (http_status e) || code_in (1003 ∷ 1015 ∷ []) (exchange_code e))
      ≡ true)
    ⊎ ((code_in (1008 ∷ []) (exchange_code e)
          || (status_in (503 ∷ []) (http_status e) && overloaded (exchange_message e)))
        ≡ true)

-- The exception is not that of a connection that failed or ran out of time.
abbrev pub Answered : Exception → Type 0
Answered e = (e.is_ssl_error ≡ false) × (e.is_timeout ≡ false) × (e.is_connection_error ≡ false)

unfoldable Sound : Exception → BinanceFailure → Type 0
Sound e f =
    (f.submission_outcome ≡ BinanceSubmissionOutcome.not_accepted
      → (f.retryable ≡ true) × Answered e × SaysNotAccepted e)
    × (f.submission_outcome ≡ BinanceSubmissionOutcome.rejected → f.retryable ≡ false)

pick :
    {A : Type 0} (P : A → Type 0) (b : Bool) {x y : A}
    → (b ≡ true → P x)
    → P y
    → P (if b then x else y)
pick P true hx hy = hx refl
pick P false hx hy = hy

unknown-Sound :
    (e : Exception) (c : BinanceFailureCategory) (retry : Bool) (s k : Option ℤ)
    → Sound e (make_failure c retry BinanceSubmissionOutcome.unknown s k)
unfolding make_failure Sound
unknown-Sound e c retry s k = (λ h. ground arith, λ h. ground arith)

rejected-Sound :
    (e : Exception) (c : BinanceFailureCategory) (s k : Option ℤ)
    → Sound e (make_failure c false BinanceSubmissionOutcome.rejected s k)
unfolding make_failure Sound
rejected-Sound e c s k = (λ h. ground arith, λ h. refl)

unknown_leaf :
    (e : Exception) (c : BinanceFailureCategory) (retry : Bool) {b b' : Bool}
    → b ≡ b'
    → Sound e
        (make_failure c retry BinanceSubmissionOutcome.unknown (http_status e) (exchange_code e))
unknown_leaf e c retry _ = unknown-Sound e c retry (http_status e) (exchange_code e)

rejected_leaf :
    (e : Exception) (c : BinanceFailureCategory) {b b' : Bool}
    → b ≡ b'
    → Sound e
        (make_failure c false BinanceSubmissionOutcome.rejected (http_status e) (exchange_code e))
rejected_leaf e c _ = rejected-Sound e c (http_status e) (exchange_code e)

accepted_leaf :
    (e : Exception) (f : BinanceFailure)
    → f.submission_outcome ≡ BinanceSubmissionOutcome.not_accepted
    → f.retryable ≡ true
    → Answered e
    → SaysNotAccepted e
    → Sound e f
unfolding Sound
accepted_leaf e f out retry answered says = (λ _. (retry, answered, says), λ h. ground arith)

classify-Sound : (e : Exception) → Sound e (classify_binance_failure e)
unfolding classify_binance_failure
classify-Sound e = split_if (Sound e) _ (unknown_leaf e BinanceFailureCategory.tls false) λ ssl.
    split_if (Sound e) _ (unknown_leaf e BinanceFailureCategory.timeout true) λ late.
      split_if (Sound e) _ (unknown_leaf e BinanceFailureCategory.transport true) λ lost.
        pick (Sound e) _ (rejected_leaf e BinanceFailureCategory.geo_restricted) (
          pick (Sound e) _ (rejected_leaf e BinanceFailureCategory.authentication) (
            pick (Sound e) _ (rejected_leaf e BinanceFailureCategory.waf) (
              pick (Sound e) _ (rejected_leaf e BinanceFailureCategory.authentication) (
                pick (Sound e) _ (λ says. accepted_leaf e _ refl refl (ssl, late, lost) (inl says))
                  (pick (Sound e) _
                    (λ says. accepted_leaf e _ refl refl (ssl, late, lost) (inr says))
                    (pick (Sound e) _ (unknown_leaf e BinanceFailureCategory.timeout true) (
                      pick (Sound e) _ (unknown_leaf e BinanceFailureCategory.upstream true) (
                        pick (Sound e) _ (rejected_leaf e BinanceFailureCategory.invalid_input) (
                          pick (Sound e) _
                            (unknown_leaf e BinanceFailureCategory.invalid_response false)
                            (pick (Sound e) _
                              (unknown_leaf e BinanceFailureCategory.rejected_request false)
                              (pick (Sound e) _
                                (unknown_leaf e BinanceFailureCategory.upstream true)
                                (unknown-Sound e BinanceFailureCategory.rejected_request false
                                  (http_status e) (exchange_code e)))))))))))))

-- A failure says that the order was not accepted only where it may be retried, where the connection
-- did not fail, and where a status or a code of the answer says that the request was throttled or
-- never processed.  A failure that says that the order was rejected is never retried.
pub classify-evidence :
    (e : Exception)
    → ((classify_binance_failure e).submission_outcome ≡ BinanceSubmissionOutcome.not_accepted
        → ((classify_binance_failure e).retryable ≡ true) × Answered e × SaysNotAccepted e)
      × ((classify_binance_failure e).submission_outcome ≡ BinanceSubmissionOutcome.rejected
          → (classify_binance_failure e).retryable ≡ false)
unfolding Sound
classify-evidence e = classify-Sound e
