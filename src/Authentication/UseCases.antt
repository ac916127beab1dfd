-- ===== src/Authentication/UseCases.antt =====
-- The use cases: src/core/authentication/application/use-cases.
pub mod Sessions
pub mod Login
pub mod Recovery
