-- ===== src/Runtime.antt =====
-- The SAR-ADX paper runtime (services/sar_adx_runtime.py).
pub mod Tape
pub mod Actions
pub mod File
pub mod Process
pub mod Valid
pub mod Synced
pub mod Commits
pub mod Restart
mod Tests
