-- ===== src/Orders.antt =====
-- Orders on the exchange (services/exchange_executor.py).
pub mod Rules
pub mod Intents
pub mod Execute
pub mod Ends
pub mod Submits
pub mod Lookup
pub mod Account
pub mod Risk
pub mod Safe
mod Tests
