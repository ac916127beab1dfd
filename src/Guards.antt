-- ===== src/Guards.antt =====
-- The guards that every request passes, and the CSRF token: src/shared/auth, src/shared/authorization,
-- in the order of src/app.module.ts.
pub mod Csrf
pub mod Request
pub mod Chain
pub mod Denied
pub mod Passed
pub mod Allowed
mod Samples
