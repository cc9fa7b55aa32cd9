-- ===== src/Heartbeat.antt =====
-- runcycles/lifecycle.py: the heartbeat that extends a reservation while its guarded action runs.
pub mod Span
pub mod Deadline
pub mod Scheduler
pub mod Lease
pub mod Streaks
pub mod Heart
pub mod Loop
pub mod Keys
pub mod Cadence
pub mod Sends
pub mod Async
