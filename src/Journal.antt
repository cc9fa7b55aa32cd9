-- ===== src/Journal.antt =====
-- runcycles/journal.py: the durable journal of pending commits.
pub mod Record
pub mod RoundTrip
pub mod Interface
pub mod Files
pub mod Store
pub mod Names
pub mod Atomic
pub mod Contents
pub mod Refines
pub mod Reload
pub mod Listing
pub mod Loading
pub mod Migration
pub mod Identity
