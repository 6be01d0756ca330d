-- ===== src/Accounts.antt =====
-- Accounts: registration, login, tokens, two-factor codes, and the administration of users.
pub mod Host
pub mod Cache
pub mod Users
pub mod Tokens
pub mod Totp
pub mod Login
pub mod Secrets
pub mod Admin
pub mod Admins
