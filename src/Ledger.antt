-- ===== src/Ledger.antt =====
-- The durable work queue of the market agent: backend/app/services/market_agent_contracts.py and
-- backend/app/services/market_agent_queue_store.py.
pub mod Contracts
pub mod Rows
pub mod Enqueue
pub mod Lease
pub mod Publish
pub mod Keeps
pub mod Steps
pub mod Calls
pub mod Invariant
pub mod Exclusive
pub mod Rollback
pub mod Outbox
pub mod Once
pub mod Order
mod Tests
