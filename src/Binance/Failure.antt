-- ===== src/Binance/Failure.antt =====
-- binance_errors.py: what the classifier reads of an exception, and the failure that it makes of it.
-- Times are whole microseconds, except where a name says that they are milliseconds.
use candle_mind.Base.Int.{ℤ}
use candle_mind.Base.{none, ℕ, Option, Bool, List}
use candle_mind.Base.Text.{codes, Text}

pub data BinanceFailureCategory : Type 0 where
  transport timeout rate_limited upstream tls authentication : BinanceFailureCategory
  permission invalid_input geo_restricted rejected_request : BinanceFailureCategory
  invalid_response waf : BinanceFailureCategory

pub data BinanceSubmissionOutcome : Type 0 where
  unknown not_accepted rejected : BinanceSubmissionOutcome

-- An attribute that may be missing, an int, or anything else, a bool included.
pub data Attribute : Type 0 where
  missing : Attribute
  integer : ℤ → Attribute
  other : Attribute

-- What `float(value)` makes of a header: it raises, it is nan or infinite, or it is a number.
pub data HeaderFloat : Type 0 where
  unreadable : HeaderFloat
  not_finite : HeaderFloat
  seconds : ℤ → HeaderFloat

pub record Response : Type 0 where
  pub status_code : Attribute
  pub headers : List (Text × HeaderFloat)

-- The classes of the exception (a class may have several of them as bases), its attributes
-- `status_code`, `code` and `message` (`none` where that is not a str), and its response.
pub record Exception : Type 0 where
  pub is_ssl_error : Bool
  pub is_timeout : Bool
  pub is_connection_error : Bool
  pub is_request_exception : Bool
  pub is_api_exception : Bool
  pub status_code : Attribute
  pub code : Attribute
  pub message : Option Text
  pub response : Option Response

pub record BinanceFailure : Type 0 where
  pub category : BinanceFailureCategory
  pub retryable : Bool
  pub safe_message : Text
  pub status_code : Option ℤ
  pub exchange_code : Option ℤ
  pub retry_after : Option ℕ
  pub ban_until_ms : Option ℕ
  pub submission_outcome : BinanceSubmissionOutcome

-- `messages[category]`
unfoldable pub message_of : BinanceFailureCategory → Text
message_of BinanceFailureCategory.transport = codes "Binance is temporarily unavailable"
message_of BinanceFailureCategory.timeout = codes "Binance request timed out"
message_of BinanceFailureCategory.rate_limited = codes "Binance request rate was limited"
message_of BinanceFailureCategory.upstream = codes "Binance is temporarily unavailable"
message_of BinanceFailureCategory.tls = codes "Binance TLS verification failed"
message_of BinanceFailureCategory.authentication =
    codes "Binance rejected the account credentials or access policy"
message_of BinanceFailureCategory.permission = codes "Binance denied the requested operation"
message_of BinanceFailureCategory.invalid_input = codes "Binance rejected the request parameters"
message_of BinanceFailureCategory.geo_restricted =
    codes "Binance is unavailable from the current region"
message_of BinanceFailureCategory.rejected_request = codes "Binance rejected the request"
message_of BinanceFailureCategory.invalid_response = codes "Binance returned an invalid response"
message_of BinanceFailureCategory.waf = codes "Binance infrastructure policy rejected the request"

-- `_failure` where it is called without `retry_after` and `ban_until_ms`.
unfoldable pub make_failure :
    BinanceFailureCategory → Bool → BinanceSubmissionOutcome → Option ℤ → Option ℤ → BinanceFailure
make_failure category retryable outcome status code = record {
  category = category;
  retryable = retryable;
  safe_message = message_of category;
  status_code = status;
  exchange_code = code;
  retry_after = none;
  ban_until_ms = none;
  submission_outcome = outcome;
}
