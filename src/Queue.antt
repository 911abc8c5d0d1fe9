-- ===== src/Queue.antt =====
-- The durable work queue of internal/queue/queue.go: a task is one object, which workers on every
-- replica claim with conditional writes.
pub mod Options
pub mod Task
pub mod Delivery
pub mod Attempts
pub mod Interleaving
