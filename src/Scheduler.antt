-- ===== src/Scheduler.antt =====
-- The durable scheduler: crates/hexeract-scheduler.
pub mod Types
pub mod Store
pub mod Lifecycle
pub mod Claims
pub mod Invariant
pub mod Contract
pub mod Fencing
pub mod Acks
pub mod Machine
pub mod Life
pub mod Cron
pub mod Worker
pub mod Building
pub mod Settling
pub mod Polling
pub mod Pacing
pub mod Control
pub mod Operator
pub mod Tests
pub mod WorkerTests
