-- ===== src/Pyramid.antt =====
-- The pyramiding Parabolic-SAR strategy (strategies/sar_pyramid.py): its decision at each bar, its
-- indicator, and the account of its replay.
pub mod Config
pub mod Transition
pub mod Fits
pub mod Decisions
pub mod Accepted
pub mod Sar
pub mod Causal
pub mod Sample
mod Tests
