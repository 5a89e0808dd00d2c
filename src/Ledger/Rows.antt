-- ===== src/Ledger/Rows.antt =====
-- The tables of market_agent_queue_store.py, and its transactions.
use candle_mind.Base.{ℕ, Bool, Option, none, some, List, [], ◌==◌, if◌then◌else◌}
use candle_mind.Base.Text.{Text, text_eq}
use candle_mind.Base.Table.{find, update_where}
use candle_mind.Ledger.Contracts.{Job, Event, Error, Result, ok, err}

-- A row of `inbox_messages`.
pub record Message : Type 0 where
  pub network : Text
  pub symbol : Text
  pub client_message_id : Text
  pub content : Text
  pub job_id : Text
  pub created_at_ms : ℕ

-- The database. `next_sequence` is what AUTOINCREMENT gives to the next outbox row.
pub record Ledger : Type 0 where
  pub jobs : List Job
  pub inbox : List Message
  pub outbox : List Event
  pub next_sequence : ℕ

abbrev pub empty : Ledger
empty = record { jobs = []; inbox = []; outbox = []; next_sequence = 1 }

-- What the process reads from outside during one call: the clock, and `str(uuid4())`.
pub record Env : Type 0 where
  pub clock : ℕ
  pub uuid : Text

abbrev pub M : Type 0 → Type 0
M A = Ledger → Result A × Ledger

module _ {A : Type 0} where
  unfoldable pub pure : A → M A
  pure a s = (ok a, s)

  unfoldable pub raise : Error → M A
  raise e s = (err e, s)

  unfoldable pub lift : Result A → M A
  lift r s = (r, s)

  unfoldable pub gets : (Ledger → A) → M A
  gets f s = (ok (f s), s)

  unfoldable pub or_raise : Option A → Error → M A
  or_raise none e s = (err e, s)
  or_raise (some a) e s = (ok a, s)

unfoldable pub raise_if : Bool → Error → M (Unit {0})
raise_if b e s = (if b then err e else ok tt, s)

-- A write: the statement never fails.
unfoldable pub write : (Ledger → Ledger) → M (Unit {0})
write f s = (ok tt, f s)

-- To open this opens the steps too.
infixl 5 ◌>>=◌ ◌>>◌
unfoldable pub ◌>>=◌ : {A B : Type 0} → M A → (A → M B) → M B
unfolding pure raise lift gets or_raise raise_if write
◌>>=◌ m f s = let (r, s') = m s in elim r [ ok a ↦ f a s' | err e ↦ (err e, s') ]

abbrev pub ◌>>◌ : {A B : Type 0} → M A → M B → M B
m >> k = m >>= λ _. k

-- `with self.transaction()`: the exception of the body rolls its writes back.
unfoldable pub transaction : {A : Type 0} → M A → M A
transaction m s = let (r, s') = m s in (r, elim r [ ok _ ↦ s' | err _ ↦ s ])

abbrev pub has_id : Text → Job → Bool
has_id i j = text_eq j.id i

abbrev pub for_job : Text → Event → Bool
for_job i e = text_eq e.job_id i

abbrev pub has_sequence : ℕ → Event → Bool
has_sequence n e = e.sequence == n

-- SELECT * FROM jobs WHERE id=?
unfoldable pub job_at : Text → Ledger → Option Job
job_at i s = find (has_id i) s.jobs

-- SELECT * FROM outbox_events WHERE job_id=?
unfoldable pub event_of : Text → Ledger → Option Event
event_of i s = find (for_job i) s.outbox

-- SELECT * FROM outbox_events WHERE sequence=?
unfoldable pub event_at : ℕ → Ledger → Option Event
event_at n s = find (has_sequence n) s.outbox

-- UPDATE jobs SET … WHERE …
abbrev pub set_jobs : (Job → Bool) → (Job → Job) → Ledger → Ledger
set_jobs p f s = record s { jobs = update_where p f s.jobs }

-- UPDATE outbox_events SET … WHERE …
abbrev pub set_events : (Event → Bool) → (Event → Event) → Ledger → Ledger
set_events p f s = record s { outbox = update_where p f s.outbox }

-- `self._job(connection.execute("SELECT * FROM jobs WHERE id=?", …).fetchone())`
unfoldable pub fetch_job : Text → M Job
unfolding job_at or_raise
fetch_job i s = or_raise (job_at i s) Error.type_error s

unfoldable pub fetch_event_of : Text → M Event
unfolding event_of or_raise
fetch_event_of i s = or_raise (event_of i s) Error.type_error s

unfoldable pub fetch_event_at : ℕ → M Event
unfolding event_at or_raise
fetch_event_at n s = or_raise (event_at n s) Error.type_error s
