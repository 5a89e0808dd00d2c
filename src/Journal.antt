-- ===== src/Journal.antt =====
-- The journal of executions (services/execution_store.py): one document for each network and symbol.
pub mod Document
pub mod Validate
pub mod Store
pub mod Operations
pub mod Results
pub mod Calls
pub mod Saved
pub mod Histories
pub mod Filled
pub mod Moves
pub mod Archive
mod Tests
