-- ===== src/Queue.antt =====
-- internal/queue/durable.go: the queue between the gateway and Core, and the results that the gateway
-- hands out.
pub mod Types
pub mod Messages
pub mod Results
pub mod Delivery
pub mod ReadOnce
mod Tests
