-- ===== src/Binance/Executor.antt =====
-- binance_retry.py: `BinanceRetryExecutor` and `ProcessCooldown`.  Times are whole microseconds of
-- the monotonic clock, a random value counts millionths, and a product is rounded down.
use candle_mind.Base.Int.{negsuc, pos, ℤ}
use candle_mind.Binance.Failure.{BinanceFailure, BinanceSubmissionOutcome, Exception}
use candle_mind.Base.{
  get_or, is_some, zero, ◌/◌, none, inr, [], ◌||◌, ◌^◌, some, ◌+◌, ◌∷◌, ◌==◌, false, ltb, ◌*◌, inl,
  not, ◌⊎◌, ◌-◌, max, if◌then◌else◌, List, true, min, length, ◌&&◌, leb, suc, Option, Bool, ℕ,
}
use candle_mind.Binance.Classify.{status_in, classify_binance_failure}

pub data BinanceOperation : Type 0 where
  read write_reconcile write_submit : BinanceOperation

pub record BinanceRetryPolicy : Type 0 where
  pub max_attempts : ℕ
  pub budget : ℕ
  pub base_delay : ℕ
  pub max_delay : ℕ
  pub default_ban_cooldown : ℕ

abbrev pub default_policy : BinanceRetryPolicy
default_policy = record {
  max_attempts = 3;
  budget = 5000000;
  base_delay = 250000;
  max_delay = 2000000;
  default_ban_cooldown = 120000000;
}

-- A request that was sent: when, what the cooldown's deadline was, and how it failed.
pub record Request : Type 0 where
  pub sent_at : ℕ
  pub deadline_then : ℕ
  pub failure : Option BinanceFailure

-- The clock, `ProcessCooldown._deadline`, and what the executor did: the time it asked to sleep, and
-- the requests it sent, the last one first.
pub record World : Type 0 where
  pub clock : ℕ
  pub deadline : ℕ
  pub slept : ℕ
  pub requests : List Request

abbrev pub Answer : Type 0 → Type 0
Answer T = Exception ⊎ T

-- What is outside: the n-th answer of `call()`, when it comes, when a sleep ends, the n-th random
-- value, and the wall clock (in microseconds) at a reading of the monotonic clock.
pub record Outside (T : Type 0) : Type 0 where
  pub answer : ℕ → Answer T
  pub answered_at : ℕ → ℕ → ℕ
  pub wakes_at : ℕ → ℕ → ℕ
  pub random : ℕ → ℤ
  pub wall_clock : ℕ → ℕ

pub data Outcome (T : Type 0) : Type 0 where
  returned : T → Outcome T
  raised : Exception → Outcome T
  cooldown_active : Outcome T
  exhausted : Outcome T

-- `ProcessCooldown.remaining`
unfoldable pub remaining : World → ℕ
remaining w = w.deadline - w.clock

-- `ProcessCooldown.extend`
unfoldable pub extend : ℕ → World → World
extend deadline w = record w { deadline = max w.deadline deadline }

abbrev pub clamped : ℤ → ℕ
clamped (pos n) = min 1000000 n
clamped (negsuc n) = 0

-- `_delay`
unfoldable pub delay_after :
    {T : Type 0} → BinanceRetryPolicy → Outside T → ℕ → BinanceFailure → World → ℕ
unfolding status_in
delay_after policy out attempt failure w =
    let ceiling = min policy.max_delay (policy.base_delay * 2 ^ (attempt - 1)) in
    let jitter = clamped (out.random attempt) * ceiling / 1000000 in
    if status_in (418 ∷ []) failure.status_code && not (is_some failure.retry_after)
    then elim failure.ban_until_ms [
      | some ban ↦ ban * 1000 - out.wall_clock w.clock
      | none ↦ policy.default_ban_cooldown
    ]
    else max jitter (get_or failure.retry_after 0)

-- `_sleep_within_budget`; `none` where it is False.
unfoldable pub sleep_within_budget :
    {T : Type 0} → BinanceRetryPolicy → Outside T → ℕ → ℕ → World → Option World
sleep_within_budget policy out started delay w =
    if ltb policy.budget (delay + (w.clock - started))
    then none
    else some (
        if ltb 0 delay
        then record w { clock = out.wakes_at w.clock delay; slept = w.slept + delay }
        else w)

abbrev pub failure_of : {T : Type 0} → Answer T → Option BinanceFailure
failure_of (inl e) = some (classify_binance_failure e)
failure_of (inr _) = none

-- `call()`
unfoldable pub send : {T : Type 0} → Outside T → World → Answer T × World
send out w =
    let n = length w.requests in
    (
      out.answer n,
      record w {
        clock = out.answered_at n w.clock;
        requests =
            record {
              sent_at = w.clock;
              deadline_then = w.deadline;
              failure = failure_of (out.answer n);
            }
            ∷ w.requests;
      },
    )

abbrev pub is_submit : BinanceOperation → Bool
is_submit BinanceOperation.write_submit = true
is_submit _ = false

abbrev pub is_not_accepted : BinanceSubmissionOutcome → Bool
is_not_accepted BinanceSubmissionOutcome.not_accepted = true
is_not_accepted _ = false

-- `retryable` of `run`
unfoldable pub may_repeat : BinanceOperation → BinanceFailure → Bool
may_repeat operation f =
    f.retryable && (not (is_submit operation) || is_not_accepted f.submission_outcome)

-- The delay before the next attempt; a 418 or a 429 moves the process's deadline first.
unfoldable pub back_off :
    {T : Type 0} → BinanceRetryPolicy → Outside T → ℕ → BinanceFailure → World → ℕ × World
unfolding delay_after extend remaining status_in
back_off policy out attempt failure w =
    let delay = delay_after policy out attempt failure w in
    if status_in (418 ∷ 429 ∷ []) failure.status_code
    then (let w' = extend (w.clock + delay) w in (remaining w', w'))
    else (delay, w)

-- The `except` block: `none` where it raises, else the world of the next attempt.
unfoldable pub after_failure :
    {T : Type 0}
    → BinanceRetryPolicy
    → Outside T
    → BinanceOperation
    → ℕ
    → ℕ
    → BinanceFailure
    → World
    → Option World × World
unfolding may_repeat back_off sleep_within_budget
after_failure policy out operation started attempt failure w =
    if not (may_repeat operation failure) || attempt == policy.max_attempts
    then (none, w)
    else (let (delay, w') = back_off policy out attempt failure w in
        (sleep_within_budget policy out started delay w', w'))

-- The wait for the cooldown that opens an attempt.
unfoldable pub cool_down : {T : Type 0} → BinanceRetryPolicy → Outside T → ℕ → World → Option World
unfolding remaining sleep_within_budget
cool_down policy out started w =
    if remaining w == 0 then some w else sleep_within_budget policy out started (remaining w) w

module _ {T : Type 0} (policy : BinanceRetryPolicy) (out : Outside T) (operation : BinanceOperation)
    (started : ℕ) where
  abbrev pub failed_on :
      (World → Outcome T × World) → Exception → Option World × World → Outcome T × World
  failed_on again e (none, w) = (Outcome.raised e, w)
  failed_on again e (some w', _) = again w'

  abbrev pub answered_on : ℕ → (World → Outcome T × World) → Answer T × World → Outcome T × World
  answered_on attempt again (inr value, w) = (Outcome.returned value, w)
  answered_on attempt again (inl e, w) =
      failed_on again e
        (after_failure policy out operation started attempt (classify_binance_failure e) w)

  abbrev pub cooled_on : ℕ → (World → Outcome T × World) → World → Option World → Outcome T × World
  cooled_on attempt again w none = (Outcome.cooldown_active, w)
  cooled_on attempt again w (some w') = answered_on attempt again (send out w')

  -- The attempts from `attempt` on; `left` of them are left.
  unfoldable pub attempts : ℕ → ℕ → World → Outcome T × World
  attempts attempt zero w = (Outcome.exhausted, w)
  attempts attempt (suc left) w =
      cooled_on attempt (attempts (suc attempt) left) w (cool_down policy out started w)

-- `__init__` refuses a policy of no attempt.
unfoldable pub is_policy : BinanceRetryPolicy → Bool
is_policy policy = leb 1 policy.max_attempts

-- `run`
unfoldable pub run_call :
    {T : Type 0} → BinanceRetryPolicy → Outside T → BinanceOperation → World → Outcome T × World
run_call policy out operation w = attempts policy out operation w.clock 1 policy.max_attempts w
