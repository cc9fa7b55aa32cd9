-- ===== src/Lifecycle.antt =====
-- runcycles/lifecycle.py: reserve, execute, then commit or release.
pub mod Schema
pub mod Bodies
pub mod Fallback
pub mod Commit
pub mod Restart
pub mod Spend
pub mod Create
pub mod Creation
pub mod Reserve
pub mod Context
pub mod Execute
pub mod Settles
pub mod Checked
pub mod Async
pub mod Declared
