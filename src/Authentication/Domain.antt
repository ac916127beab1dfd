-- ===== src/Authentication/Domain.antt =====
-- The entities and value objects: src/core/authentication/domain.
pub mod Values
pub mod Session
pub mod Account
pub mod Tokens
