-- ===== src/Intent.antt =====
-- Operator intent and the exclusive trading lease (services/strategy_runtime_intent.py).
pub mod Document
pub mod Store
pub mod Calls
pub mod Inspected
pub mod Changes
pub mod Held
pub mod Lock
pub mod Roundtrip
pub mod Generation
mod Tests
