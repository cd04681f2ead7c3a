-- ===== src/Rabbit.antt =====
-- The RabbitMQ transport of the bus: crates/hexeract-bus-rabbitmq/src.
pub mod Metadata
pub mod Delivery
pub mod Worker
pub mod Settlement
pub mod Samples
mod Tests
mod SettlementTests
