-- ===== src/Binance.antt =====
-- Calls of Binance: how a failure is classified (services/binance_errors.py), and when a failed call
-- is made again (services/binance_retry.py).
pub mod Failure
pub mod Classify
pub mod Evidence
pub mod Executor
pub mod Attempts
pub mod Submission
pub mod Limits
mod Tests
