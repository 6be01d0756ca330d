-- ===== src/Models.antt =====
-- The rows of app/db/models, a record for each table. A UUID is its number, a time is in seconds,
-- an amount of `Numeric(10, 2)` is in hundredths. The columns `updated_at`, and each `created_at`
-- by which no query orders and that no response shows, are left out.
mod Accounts
mod Social
mod Trade
mod Discovery
pub use Accounts.*
pub use Social.*
pub use Trade.*
pub use Discovery.*
