-- ===== src/Shared.antt =====
-- Code that the parts of the backend share: src/shared.
pub mod Saga
mod Samples
