-- ===== src/FileStorage/Domain/Types.antt =====
-- The enumerations and errors of file storage: src/core/file-storage/domain/types and errors, with
-- the two errors of the layers below it (the optimistic lock, a failed call of a service).
use neltrik_backend.Prelude.{ℕ, Bool, true, false}
use neltrik_backend.Prelude.Text.{Text}

-- `ANTIVIRUS_SCAN_STATUS`
pub data ScanStatus : Type 0 where
  clean infected error : ScanStatus

-- `FILE_PURPOSE`; `other_purpose` is a string outside it that a cast has let through.
pub data FilePurpose : Type 0 where
  cv avatar document : FilePurpose
  other_purpose : Text → FilePurpose

-- `FILE_STATUS`
pub data FileStatus : Type 0 where
  pending ready infected deleted : FileStatus

-- `Object.values(FILE_PURPOSE).includes(purpose)`
abbrev pub is_purpose : FilePurpose → Bool
is_purpose (FilePurpose.other_purpose _) = false
is_purpose _ = true

abbrev pub is_pending : FileStatus → Bool
is_pending FileStatus.pending = true
is_pending _ = false

abbrev pub is_ready : FileStatus → Bool
is_ready FileStatus.ready = true
is_ready _ = false

abbrev pub is_infected : FileStatus → Bool
is_infected FileStatus.infected = true
is_infected _ = false

abbrev pub is_deleted : FileStatus → Bool
is_deleted FileStatus.deleted = true
is_deleted _ = false

-- A `Date`: its time in milliseconds, or the invalid date, whose time is not a number.
pub data Date : Type 0 where
  at : ℕ → Date
  invalid_date : Date

pub data Error : Type 0 where
  invalid_antivirus_scan invalid_file_version file_already_deleted : Error
  empty_file_name invalid_file_extension invalid_mime_type : Error
  invalid_file_purpose invalid_file_size invalid_file_status : Error
  file_not_ready invalid_file_versions file_not_found : Error
  invalid_quota_limit invalid_quota_usage file_quota_exceeded : Error
  file_quota_not_found quota_limit_below_minimum file_mime_type_mismatch : Error
  file_already_exists file_version_not_found invalid_file_resource : Error
  -- thrown by the repositories, by the database under them, and by a service that fails
  optimistic_lock record_not_found unique_violation check_violation service_failure : Error
