-- ===== src/Ledger/Outbox.antt =====
-- What the methods do to the outbox of the ledger.
pub mod Enqueue
pub mod Leases
pub mod Recorded
