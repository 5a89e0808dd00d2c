-- ===== src/Ledger/Contracts.antt =====
-- backend/app/services/market_agent_contracts.py: lanes, states, rows and the checks of arguments.
use mathlib.Core.List.{reverse}
use candle_mind.Base.{
  ℕ, Bool, true, false, ◌&&◌, ◌||◌, not, Option, List, [], ◌∷◌, leb, ltb, length, all,
  if◌then◌else◌,
}
use candle_mind.Base.Text.{Text, codes, text_eq, strip, upper, lower}
use candle_mind.Base.Int.{ℤ}

pub data JobLane : Type 0 where
  market inbox : JobLane

pub data JobState : Type 0 where
  pending running retry_wait completed published failed superseded : JobState

-- `MarketAgentJob`, as its row in the table `jobs`. The JSON columns keep their text, but the
-- reasons, a list of strings on both sides, are a list.
pub record Job : Type 0 where
  pub id : Text
  pub network : Text
  pub symbol : Text
  pub lane : JobLane
  pub dedupe_key : Text
  pub state : JobState
  pub priority : ℤ
  pub payload_json : Text
  pub reasons : List Text
  pub result_json : Option Text
  pub attempts : ℕ
  pub available_at_ms : ℕ
  pub lease_owner : Option Text
  pub lease_expires_at_ms : Option ℕ
  pub error_code : Option Text
  pub created_at_ms : ℕ
  pub updated_at_ms : ℕ
  pub completed_at_ms : Option ℕ

-- `MarketAgentEvent`, as its row in the table `outbox_events`.
pub record Event : Type 0 where
  pub sequence : ℕ
  pub job_id : Text
  pub network : Text
  pub symbol : Text
  pub event_type : Text
  pub role : Text
  pub content : Text
  pub structured_json : Text
  pub reasons : List Text
  pub created_at_ms : ℕ
  pub published_at_ms : Option ℕ

-- `TERMINAL_JOB_STATES` and `CLAIMABLE_JOB_STATES`.
abbrev pub is_terminal : JobState → Bool
is_terminal JobState.published = true
is_terminal JobState.failed = true
is_terminal JobState.superseded = true
is_terminal _ = false

abbrev pub is_claimable : JobState → Bool
is_claimable JobState.pending = true
is_claimable JobState.retry_wait = true
is_claimable _ = false

abbrev pub is_running : JobState → Bool
is_running JobState.running = true
is_running _ = false

abbrev pub same_lane : JobLane → JobLane → Bool
same_lane JobLane.market JobLane.market = true
same_lane JobLane.inbox JobLane.inbox = true
same_lane _ _ = false

-- The exceptions that the ledger raises: ValueError, KeyError, the three classes of this file,
-- `sqlite3.IntegrityError`, and the TypeError of `_job(None)`.
pub data Error : Type 0 where
  value_error key_error ledger_error conflict lease_error integrity_error type_error : Error

pub data Result {ℓ} (A : Type ℓ) : Type ℓ where
  ok : A → Result A
  err : Error → Result A

is_symbol_char : ℕ → Bool
is_symbol_char c = (leb b'A' c && leb c b'Z') || (leb b'0' c && leb c b'9')

-- `[A-Z0-9]{2,16}USDT`, read from the end.
is_symbol_reversed : Text → Bool
unfolding is_symbol_char text_eq
is_symbol_reversed (t ∷ d ∷ s ∷ u ∷ rest) =
    text_eq (u ∷ s ∷ d ∷ t ∷ []) (codes "USDT")
    && all is_symbol_char rest
    && leb 2 (length rest)
    && leb (length rest) 16
is_symbol_reversed _ = false

unfoldable pub is_symbol : Text → Bool
unfolding is_symbol_reversed
is_symbol s = is_symbol_reversed (reverse s)

unfoldable pub is_network : Text → Bool
unfolding text_eq
is_network n = text_eq n (codes "testnet") || text_eq n (codes "mainnet")

unfoldable pub normalize_scope : Text → Text → Result (Text × Text)
normalize_scope network symbol =
    let n = lower (strip network) in
    let s = upper (strip symbol) in
    if not (is_network n)
    then err Error.value_error
    else if not (is_symbol s)
    then err Error.value_error
    else ok (n, s)

-- `bounded_text(value, name, maximum)` of a `str`.
unfoldable pub bounded_text : Text → ℕ → Result Text
bounded_text value maximum =
    let t = strip value in
    if text_eq t []
    then err Error.value_error
    else if ltb maximum (length t)
    then err Error.value_error
    else ok t
