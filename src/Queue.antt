-- ===== src/Queue.antt =====
-- internal/infrastructure/queue/sqs/source.go.
pub mod Config
pub mod Process
pub mod Renewal
pub mod Delivery
