-- ===== src/FileStorage/UseCases.antt =====
-- The use cases of file storage: src/core/file-storage/application/use-cases and
-- use-cases-internal.
pub mod Quota
pub mod Keys
pub mod Upload
pub mod Rollback
pub mod Replace
pub mod Files
pub mod Download
