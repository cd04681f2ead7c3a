-- ===== src/Outbox.antt =====
-- The outbox worker: crates/hexeract-outbox.
pub mod Worker
pub mod Outcome
pub mod Tests
