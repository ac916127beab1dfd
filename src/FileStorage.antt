-- ===== src/FileStorage.antt =====
-- The file-storage module of the backend: src/core/file-storage.
pub mod Domain
pub mod ObjectStore
pub mod World
pub mod Mapper
pub mod Repository
pub mod Validation
pub mod Compensation
pub mod UseCases
pub mod Jobs
pub mod Accounting
mod Samples
