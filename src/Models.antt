-- ===== src/Models.antt =====
-- runcycles/models.py: the protocol's enumerations and records.
mod Codes
mod Records
pub mod Requests
pub mod Responses
unfoldable pub use Codes.*
unfoldable pub use Records.*
