-- ===== src/Authentication.antt =====
-- Accounts, sessions, e-mail verifications and password resets: src/core/authentication.
pub mod Domain
pub mod World
pub mod Repository
pub mod UseCases
pub mod Sessions
pub mod Resets
pub mod Samples
