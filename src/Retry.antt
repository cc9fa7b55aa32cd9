-- ===== src/Retry.antt =====
-- runcycles/retry.py: the retry engine.
pub mod Configured
pub mod Outcome
pub mod Engine
pub mod Classify
pub mod Loop
pub mod Durable
pub mod Attempted
pub mod Bounded
pub mod Guarantees
pub mod Delays
pub mod Replay
pub mod Replays
pub mod Codes
pub mod Rounds
pub mod Delivery
pub mod Flush
pub mod Awaiting
pub mod Async
