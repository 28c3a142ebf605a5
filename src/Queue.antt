-- ===== src/Queue.antt =====
-- src/arvel/queue: job batches and the scheduler.
pub mod Batch
pub mod Schedule
pub mod Worker
pub mod Middleware
