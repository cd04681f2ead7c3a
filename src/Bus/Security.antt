-- ===== src/Bus/Security.antt =====
-- The security of an envelope: crates/hexeract-bus/src/envelope_security.
pub mod Types
pub mod Canonical
pub mod Verifier
pub mod Soundness
pub mod Acceptance
pub mod Throttle
pub mod Completeness
pub mod Samples
mod Tests
