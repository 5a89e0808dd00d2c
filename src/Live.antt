-- ===== src/Live.antt =====
-- The live runtimes of the strategies (services/live_strategy_runtime.py and
-- services/live_layered_runtime.py).
pub mod Plan
pub mod Strategies
pub mod Calls
pub mod Contiguous
pub mod Again
mod Tests
