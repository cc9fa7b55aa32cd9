-- ===== src/Streaming.antt =====
-- runcycles/streaming.py: the context manager of a streaming call.
pub mod Usage
pub mod Enter
pub mod Exit
pub mod Settles
pub mod Whole
pub mod Opens
pub mod Async
pub mod Declared
pub mod Heartbeat
