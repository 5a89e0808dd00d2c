-- ===== src/Binance/Classify.antt =====
-- binance_errors.py: `classify_binance_failure`.
use candle_mind.Base.Search.{strip_prefix, contains}
use candle_mind.Base.Int.{pos, negsuc, ℤ}
use candle_mind.Base.Table.{find}
use candle_mind.Base.{
  not, ◌-◌, suc, ◌+◌, ◌==◌, ◌*◌, any, ltb, ◌&&◌, or_else, ◌∷◌, if◌then◌else◌, some, true, false,
  ◌||◌, [], leb, none, ℕ, Option, Bool, List,
}
use candle_mind.Base.Text.{lower, text_eq, codes, is_space, Text, lstrip}
use candle_mind.Binance.Failure.{
  BinanceSubmissionOutcome, BinanceFailureCategory, BinanceFailure, Response, HeaderFloat,
  make_failure, Attribute, Exception,
}

-- `_integer`
abbrev pub integer_of : Attribute → Option ℤ
integer_of Attribute.missing = none
integer_of (Attribute.integer n) = some n
integer_of Attribute.other = none

abbrev pub response_status : Option Response → Option ℤ
response_status none = none
response_status (some r) = integer_of r.status_code

unfoldable pub http_status : Exception → Option ℤ
http_status e = or_else (integer_of e.status_code) (response_status e.response)

unfoldable pub exchange_code : Exception → Option ℤ
exchange_code e = integer_of e.code

abbrev pub lower_message : Option Text → Text
lower_message none = []
lower_message (some t) = lower t

unfoldable pub exchange_message : Exception → Text
exchange_message e = lower_message e.message

abbrev pub headers_of : Option Response → List (Text × HeaderFloat)
headers_of none = []
headers_of (some r) = r.headers

abbrev pub is_retry_after : Text × HeaderFloat → Bool
is_retry_after h = text_eq (lower h.0) (codes "retry-after")

abbrev pub delay_of : Option (Text × HeaderFloat) → Option ℕ
delay_of (some (k, HeaderFloat.seconds (pos n))) = some n
delay_of _ = none

unfoldable pub retry_after_seconds : Exception → Option ℕ
unfolding find
retry_after_seconds e = delay_of (find is_retry_after (headers_of e.response))

abbrev pub is_digit : ℕ → Bool
is_digit c = leb b'0' c && leb c b'9'

-- `\w` in ASCII.
abbrev pub is_word : ℕ → Bool
is_word c = is_digit c || (leb b'a' c && leb c b'z') || (leb b'A' c && leb c b'Z') || c == b'_'

-- The run of digits at the front: its value on top of `v`, its length on top of `n`, and whether a
-- word ends there.
unfoldable pub digit_run : Text → ℕ → ℕ → (ℕ × ℕ) × Bool
digit_run [] v n = ((v, n), true)
digit_run (c ∷ t) v n =
    let rest = digit_run t (v * 10 + (c - b'0')) (suc n) in
    if is_digit c then rest else ((v, n), not (is_word c))

-- `(\d{10,16})\b`
unfoldable pub ban_digits : Text → Option ℕ
unfolding digit_run
ban_digits t =
    let ((v, n), ends) = digit_run t 0 0 in if ends && leb 10 n && leb n 16 then some v else none

-- `\s+(\d{10,16})\b`
unfoldable pub spaces_then : Text → Option ℕ
unfolding ban_digits lstrip is_space
spaces_then [] = none
spaces_then (c ∷ t) = if is_space c then ban_digits (lstrip t) else none

abbrev pub ban_here : Option Text → Option ℕ
unfolding spaces_then
ban_here none = none
ban_here (some t) = spaces_then t

-- `re.search(r"\bbanned until\s+(\d{10,16})\b", message)`; the flag says that a word goes on.
unfoldable pub search_ban : Bool → Text → Option ℕ
unfolding strip_prefix spaces_then
search_ban in_word [] = none
search_ban in_word (c ∷ t) =
    let later = search_ban (is_word c) t in
    let here = ban_here (strip_prefix (codes "banned until") (c ∷ t)) in
    if in_word then later else or_else here later

abbrev pub as_ms : Option ℕ → Option ℕ
as_ms none = none
as_ms (some v) = some (if ltb v 10000000000 then v * 1000 else v)

unfoldable pub ban_until_ms : Text → Option ℕ
unfolding search_ban
ban_until_ms message = as_ms (search_ban false message)

unfoldable pub geo_blocked : Text → Bool
unfolding contains
geo_blocked m =
    contains (codes "restricted location") m
    || contains (codes "restricted jurisdiction") m
    || contains (codes "not available in your country") m
    || contains (codes "not available in your region") m
    || contains (codes "country of residence") m

unfoldable pub overloaded : Text → Bool
unfolding contains
overloaded m =
    contains (codes "service unavailable") m
    || contains (codes "internal error; unable to process your request") m
    || contains (codes "request throttled by system-level protection") m

-- `status in {…}`
unfoldable pub status_in : List ℕ → Option ℤ → Bool
status_in l (some (pos n)) = any (λ m. n == m) l
status_in l _ = false

-- `code in {…}`, the codes without their sign.
unfoldable pub code_in : List ℕ → Option ℤ → Bool
code_in l (some (negsuc n)) = any (λ m. suc n == m) l
code_in l _ = false

unfoldable pub classify_binance_failure : Exception → BinanceFailure
unfolding http_status exchange_code exchange_message retry_after_seconds ban_until_ms geo_blocked
    overloaded status_in code_in make_failure
classify_binance_failure e =
    let status = http_status e in
    let code = exchange_code e in
    let message = exchange_message e in
    if e.is_ssl_error
    then make_failure BinanceFailureCategory.tls false BinanceSubmissionOutcome.unknown status code
    else if e.is_timeout
    then make_failure BinanceFailureCategory.timeout true BinanceSubmissionOutcome.unknown status
        code
    else if e.is_connection_error
    then make_failure BinanceFailureCategory.transport true BinanceSubmissionOutcome.unknown status
        code
    else if status_in (451 ∷ []) status || geo_blocked message
    then make_failure BinanceFailureCategory.geo_restricted false BinanceSubmissionOutcome.rejected
        status code
    else if status_in (401 ∷ []) status
    then make_failure BinanceFailureCategory.authentication false BinanceSubmissionOutcome.rejected
        status code
    else if status_in (403 ∷ []) status
    then make_failure BinanceFailureCategory.waf false BinanceSubmissionOutcome.rejected status code
    else if code_in (2015 ∷ []) code
    then make_failure BinanceFailureCategory.authentication false BinanceSubmissionOutcome.rejected
        status code
    else if status_in (418 ∷ 429 ∷ []) status || code_in (1003 ∷ 1015 ∷ []) code
    then record (make_failure BinanceFailureCategory.rate_limited true
        BinanceSubmissionOutcome.not_accepted status code) {
          retry_after = retry_after_seconds e;
          ban_until_ms = ban_until_ms message;
        }
    else if code_in (1008 ∷ []) code || (status_in (503 ∷ []) status && overloaded message)
    then make_failure BinanceFailureCategory.upstream true BinanceSubmissionOutcome.not_accepted
        status code
    else if status_in (408 ∷ []) status || code_in (1007 ∷ []) code
    then make_failure BinanceFailureCategory.timeout true BinanceSubmissionOutcome.unknown status
        code
    else if status_in (500 ∷ 502 ∷ 503 ∷ 504 ∷ []) status
        || code_in (1000 ∷ 1001 ∷ 1003 ∷ 1006 ∷ 1007 ∷ 1008 ∷ 1015 ∷ []) code
    then make_failure BinanceFailureCategory.upstream true BinanceSubmissionOutcome.unknown status
        code
    else if status_in (400 ∷ 404 ∷ 405 ∷ 409 ∷ 422 ∷ []) status
    then make_failure BinanceFailureCategory.invalid_input false BinanceSubmissionOutcome.rejected
        status code
    else if e.is_request_exception
    then make_failure BinanceFailureCategory.invalid_response false BinanceSubmissionOutcome.unknown
        status code
    else if e.is_api_exception
    then make_failure BinanceFailureCategory.rejected_request false BinanceSubmissionOutcome.unknown
        status code
    else if status_in (408 ∷ 418 ∷ 429 ∷ 500 ∷ 502 ∷ 503 ∷ 504 ∷ []) status
    then make_failure BinanceFailureCategory.upstream true BinanceSubmissionOutcome.unknown status
        code
    else make_failure BinanceFailureCategory.rejected_request false BinanceSubmissionOutcome.unknown
        status code
