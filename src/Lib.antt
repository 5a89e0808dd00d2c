-- ===== src/Lib.antt =====
-- CandleMind trades perpetual futures on Binance with Parabolic-SAR strategies. A FastAPI process
-- (backend/app) keeps its state in JSON documents and in an SQLite database, asks Binance through
-- one gateway, and hands questions to a market agent that works off a durable queue. This library
-- models the parts that keep durable state and that decide what may be sent to the exchange. The
-- queue carries the agent's work and the journal records what a strategy decided and what the
-- exchange answered; they stand by themselves. The retry executor stands between a caller and the
-- exchange, and the exchange executor makes each of its calls through it. A strategy is a pure
-- function that a runtime calls once for each closed bar; the SAR-ADX runtime calls the pyramid
-- strategy and carries its actions out on the paper broker. The intent store keeps the lease that
-- lets one process trade a symbol.
--
-- - Base: booleans, options, lists, texts as lists of code points, integers over the native
--   numbers, tables as lists of rows, and substring search. Json: the JSON values that the stores
--   keep, json.dumps as they call it, Decimal(str(x)), and Python's equality of JSON values.
--
-- - Ledger: backend/app/services/market_agent_queue_store.py with market_agent_contracts.py.
--   Ledger.Rows has the tables and the transaction, Ledger.Enqueue enqueue_market_job and
--   enqueue_inbox_message, Ledger.Lease claim_next, renew_lease, retry_job, fail_job and
--   recover_expired_leases, Ledger.Publish supersede_job, complete_job and mark_event_published,
--   Ledger.Calls the calls as data and histories of them. Ledger.Invariant, Ledger.Exclusive,
--   Ledger.Rollback, Ledger.Order, Ledger.Outbox and Ledger.Once hold the proofs.
--
-- - Journal: backend/app/services/execution_store.py. Journal.Document has the document with its
--   statuses and counters, Journal.Validate the validation (_validate_document and what it
--   calls), Journal.Store load, _save and _commit, Journal.Operations record_decision,
--   transition_decision and record_order_attempt, Journal.Results record_order_result,
--   initialize, archive and the readers, Journal.Calls histories. Journal.Saved,
--   Journal.Histories, Journal.Filled, Journal.Moves and Journal.Archive hold the proofs.
--
-- - Binance: backend/app/services/binance_errors.py (Binance.Failure, Binance.Classify) and
--   binance_retry.py (Binance.Executor, whose run_call is BinanceRetryExecutor.run).
--   Binance.Attempts is the rule of the loop; Binance.Evidence, Binance.Submission and
--   Binance.Limits hold the proofs.
--
-- - Layered: backend/app/strategies/sar_layered.py (Layered.Config, Layered.Checks,
--   Layered.Transition), with the proofs in Layered.Cap and Layered.Decisions.
--
-- - Pyramid: backend/app/strategies/sar_pyramid.py: Pyramid.Config has the configuration and its
--   validation, Pyramid.Transition transition_sar_pyramid, Pyramid.Sar parabolic_sar;
--   Pyramid.Fits, Pyramid.Decisions, Pyramid.Accepted and Pyramid.Causal hold the proofs.
--
-- - Paper: backend/app/services/paper_broker.py: Paper.Broker has the broker and its operations
--   (open is open_position, add is add_layer, close is close_position), Paper.Document to_dict,
--   from_dict and _validate, Paper.Calls histories; Paper.Effects, Paper.Errors and
--   Paper.Histories hold the proofs.
--
-- - Intent: backend/app/services/strategy_runtime_intent.py: Intent.Document has the scope, the
--   lease, the documents and their validation, Intent.Store the methods of
--   StrategyRuntimeIntentStore, Intent.Calls histories of them; Intent.Inspected, Intent.Changes,
--   Intent.Held, Intent.Lock, Intent.Roundtrip and Intent.Generation hold the proofs.
--
-- - Orders: backend/app/services/exchange_executor.py: Orders.Rules has the rules of a symbol and
--   the quantity of a layer, Orders.Intents intents, parameters and results, Orders.Execute
--   execute (with prepare for its checks, submit, submission_failed and poll) and lookup
--   (lookup_order), Orders.Account the checks of an account, with what bool() and int() make of
--   the gateway's values; a submission or a lookup is one run of Binance.Executor.run_call.
--   Orders.Ends, Orders.Submits, Orders.Lookup, Orders.Risk and Orders.Safe hold the proofs.
--
-- - Live: backend/app/services/live_strategy_runtime.py and live_layered_runtime.py: Live.Plan
--   has prepare_decision and commit, which are the same in both over a Strategy, and discard,
--   which only the first has; Live.Strategies is what each of them asks its strategy, Live.Calls
--   histories of calls; Live.Contiguous and Live.Again hold the proofs.
--
-- - Runtime: backend/app/services/sar_adx_runtime.py with sar_adx_state_store.py: Runtime.Tape
--   has the rows that a call looks at, Runtime.Actions the actions and the funding on a broker,
--   Runtime.File the document with the store's save and load, Runtime.Process process_bars,
--   _process_housekeeping, _save (saved) and _restore (restore); Runtime.Valid, Runtime.Synced,
--   Runtime.Commits and Runtime.Restart hold the proofs.
--
-- How state and failure are modelled. A method of the ledger is a function from the tables to a
-- result and tables, `transaction` rolls back, and one call of a method is one step: SQLite's
-- BEGIN IMMEDIATE serialises the processes. An operation of the journal is a function from the
-- files to a reply and files; the lock and the atomic rename make it one step. The methods of the
-- intent store are single steps too: its lock is one of the process, so that calls of different
-- processes do not interleave is assumed. A save of the SAR-ADX runtime may fail before its
-- rename, or after it. The clock and uuid4 are arguments, and an operation reads the clock once.
-- The loop of run is recursion on the attempts that are left, as its range is.
--
-- What stands for what. Times of the ledger and of the runtimes are natural numbers of
-- milliseconds, those of the retry executor whole microseconds; there the random value counts
-- millionths and the product with the ceiling is rounded down. upper and lower are those of
-- ASCII, and so is the word character of the regular expression that finds the end of a ban. A
-- float of a JSON value is the text of its repr, and a float equals an int if the decimal it
-- prints as does; the floats of the strategies and of the paper broker, and the decimals of the
-- exchange executor, are records of operations of which no law is assumed. Python's dynamic
-- checks of a value's class are the types of the model, so a document of the journal with a wrong
-- shape, which load refuses, is not represented.
--
-- What the models take from outside: the answers of the exchange, when they come, how long a
-- sleep lasts, random values and the wall clock are the fields of Outside. That the monotonic
-- clock does not run backwards and that a sleep lasts as long as was asked are hypotheses of the
-- theorems that need them.
--
-- Not modelled: the DDL text and the decoding of rows, status_summary, the migration of journals
-- of schema 1, redact_error (an operation takes its result), temporary files and file modes, the
-- extension of the cooldown by other threads during a call, adx_regime, the replay of the pyramid
-- strategy and _validated_tape of the runtimes, which run on pandas frames, the parsing of the
-- payload that a live runtime restores, SymbolRules.from_exchange_info, and the other modules of
-- the program (the bot engine, the market agent's worker, strategy configurations, market data
-- and its releases, analytics, routes, the frontend).
pub mod Base
pub mod Binance
pub mod Json
pub mod Journal
pub mod Layered
pub mod Live
pub mod Ledger
pub mod Pyramid
pub mod Paper
pub mod Intent
pub mod Orders
pub mod Runtime
