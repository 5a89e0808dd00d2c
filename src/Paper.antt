-- ===== src/Paper.antt =====
-- The paper broker (services/paper_broker.py), which accounts for fills that no exchange made.
pub mod Broker
pub mod Effects
pub mod Calls
pub mod Histories
pub mod Errors
pub mod Document
mod Tests
