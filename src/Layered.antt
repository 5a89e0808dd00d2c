-- ===== src/Layered.antt =====
-- The layered Parabolic-SAR strategy (strategies/sar_layered.py): one decision per closed bar.
pub mod Config
pub mod Checks
pub mod Transition
pub mod Cap
pub mod Decisions
mod Tests
