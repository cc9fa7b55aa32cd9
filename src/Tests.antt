-- ===== src/Tests.antt =====
-- The theorems at concrete inputs, and runs of the definitions on small inputs.
mod Fixtures
mod Retrying
mod Settling
mod Beating
mod Journaling
mod Calling
mod Filing
mod Answering
mod Delivering
mod Cancelling
mod Requesting
mod Decorating
