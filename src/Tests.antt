-- ===== src/Tests.antt =====
-- Runs of the model at concrete tables, each an instance of a theorem.
mod Fixtures
pub mod Matching
pub mod Accounts
pub mod Billing
pub mod Discovery
pub mod Config
pub mod Moderation
