-- ===== src/FileStorage/Domain.antt =====
-- The domain layer of file storage: src/core/file-storage/domain.
pub mod Types
pub mod Scan
pub mod Version
pub mod File
pub mod Quota
