-- ===== src/Queue/Schedule.antt =====
-- src/arvel/queue/scheduler.py: scheduled events.
pub mod Cron
pub mod Event
pub mod Due
pub mod Run
pub mod Claims
pub mod Overlap
pub mod Clock
pub mod Cadence
mod Tests
