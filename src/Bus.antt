-- ===== src/Bus.antt =====
-- The message bus: crates/hexeract-bus.
pub mod Envelope
pub mod Reply
pub mod Retired
pub mod Registry
pub mod Deadline
pub mod Security
pub mod Error
pub mod Responder
pub mod Client
pub mod Tests
pub mod DeadlineTests
