-- ===== src/FileStorage/Samples.antt =====
-- A concrete world of file storage and runs in it.
mod Runs
mod Jobs
mod Rollback
use neltrik_backend.FileStorage.Compensation
use neltrik_backend.FileStorage.Domain.Quota
use neltrik_backend.FileStorage.World.{upload_object, transaction, enqueue}
use neltrik_backend.FileStorage.Repository.{
  create_file, update_file, increment_used_bytes, find_by_tenant_id,
}
use neltrik_backend.FileStorage.UseCases.Quota.{increment_quota}
use neltrik_backend.FileStorage.Mapper.{quota_to_domain}
use neltrik_backend.Prelude.{◌+◌}
use neltrik_backend.FileStorage.UseCases.Upload
use neltrik_backend.FileStorage.UseCases.Upload.{PreparedUpload}
use neltrik_backend.FileStorage.UseCases.Replace
use neltrik_backend.FileStorage.UseCases.Replace.{PreparedReplace}
use neltrik_backend.FileStorage.UseCases.Rollback.{
  upload_and_persist-stores, upload_and_persist-rolls_back, replace-rolls_back,
}
use neltrik_backend.FileStorage.Accounting.{share}
use neltrik_backend.FileStorage.Accounting.Orphans.{orphan_file-live_bytes}
use neltrik_backend.FileStorage.Jobs.{orphan_file}
use neltrik_backend.FileStorage.Domain.Types.{file_not_ready, invalid_file_status}
use neltrik_backend.FileStorage.Domain.Scan
use neltrik_backend.FileStorage.Domain.Version
use neltrik_backend.FileStorage.Domain.Quota.{FileQuota}
use neltrik_backend.FileStorage.Domain.File.{get_total_size}
use neltrik_backend.FileStorage.Domain.File.Size.{add_version-get_total_size}
use neltrik_backend.FileStorage.ObjectStore.Memory.{put}
use neltrik_backend.FileStorage.Repository.{
  find_quota, find_row, find_by_id, find_all_by_tenant, find_deleted_before,
}
use neltrik_backend.FileStorage.UseCases.Files.{delete_file, rename_file, get_download_url}
use neltrik_backend.FileStorage.UseCases.Replace.{replace_file}
use neltrik_backend.FileStorage.Jobs.{scan_file, reconcile_storage, purge_deleted_files, known_key}
use neltrik_backend.FileStorage.Jobs.Scanning.{scan_file-settles, IsStuck-refused}
use neltrik_backend.FileStorage.Jobs.Objects.{reconcile_storage-keeps_known, dry_run-get}
use neltrik_backend.FileStorage.Accounting.History.{run}
use neltrik_backend.Prelude.{
  ◌≡◌, refl, true, false, none, some, List, [], ◌∷◌, arith, ◌==◌, if◌then◌else◌,
}
use neltrik_backend.Prelude.Text.{Text, text, is_blank, text_eq}
use neltrik_backend.Prelude.Result.{ok, err}
use neltrik_backend.FileStorage.ObjectStore.{Buffer}
use neltrik_backend.FileStorage.ObjectStore.Memory.{memory_store}
use neltrik_backend.FileStorage.Domain.Types.{clean, infected, error, cv, FileStatus}
use neltrik_backend.FileStorage.Domain.Scan.{AntivirusScan}
use neltrik_backend.FileStorage.Domain.Version.{FileVersion}
use neltrik_backend.FileStorage.Domain.File
use neltrik_backend.FileStorage.Domain.File.{File}
use neltrik_backend.FileStorage.Domain.File.Invariant
use neltrik_backend.FileStorage.Domain.File.Lifecycle
use neltrik_backend.FileStorage.Domain.File.Lifecycle.{Call}
use neltrik_backend.FileStorage.World.{Env, Db, WorldOf}
use neltrik_backend.FileStorage.UseCases.Upload.{UploadFileInput}
use neltrik_backend.FileStorage.UseCases.Replace.{ReplaceFileInput}
use neltrik_backend.FileStorage.Accounting.{IsBalanced, used, live_bytes}
use neltrik_backend.FileStorage.Accounting.History.{Request, run-IsBalanced}

-- The antivirus finds something in the objects that begin with 9, and fails on those that begin with 8.
abbrev pub verdict_on : Buffer → AntivirusScan
verdict_on [] = record { status = clean; engine = text "clamav"; result = none; scanned_at = 5 }
verdict_on (b ∷ _) =
    if b == 9
    then record {
      status = infected;
      engine = text "clamav";
      result = some (text "x");
      scanned_at = 5;
    }
    else (if b == 8
        then record {
          status = error;
          engine = text "clamav";
          result = some (text "timeout");
          scanned_at = 5;
        }
        else record { status = clean; engine = text "clamav"; result = none; scanned_at = 5 })

-- No call throws; the n-th identifier is n times `i`.
abbrev pub env : Env
env = record {
  objects = memory_store;
  fault = λ n. false;
  clock = λ n. n;
  ids = λ n. text "id";
  checksum = λ b. text "sum";
  detect = λ b. some (text "application/pdf");
  verdict = λ n b. verdict_on b;
  signed_url = λ k n. text "url";
  signed_url_ttl_seconds = 60;
  scope = none;
}

abbrev pub nothing : Db
nothing = record { files = []; quotas = [] }

abbrev pub empty_world : WorldOf env
empty_world = record { committed = nothing; pending = nothing; storage = []; queue = []; calls = 0 }

abbrev pub acme : Text
acme = text "acme"

abbrev pub input : UploadFileInput
input = record {
  tenant_id = acme;
  owner_id = text "ann";
  buffer = 1 ∷ 2 ∷ 3 ∷ [];
  name = text "cv.pdf";
  extension = text ".PDF";
  mime_type = text "application/pdf";
  size = 3;
  purpose = cv;
  resource_type = text "candidate";
  resource_id = text "c1";
}

-- The same upload, of an object on which the antivirus fails.
abbrev pub failing_input : UploadFileInput
failing_input = record input { buffer = 8 ∷ 2 ∷ 3 ∷ [] }

abbrev pub replacement : ReplaceFileInput
replacement = record {
  file_id = text "id";
  buffer = 1 ∷ 1 ∷ 1 ∷ 1 ∷ [];
  name = text "new.pdf";
  extension = text "pdf";
  mime_type = text "application/pdf";
  size = 4;
}

abbrev pub key : Text
key = text "tenants/acme/files/id/v1/cv.pdf"

-- A key that no file has.
abbrev pub stray : Text
stray = text "tenants/acme/files/zz/v1/x.pdf"

abbrev pub cv_version : FileVersion
cv_version = record {
  version = 1;
  name = text "cv.pdf";
  extension = text ".PDF";
  mime_type = text "application/pdf";
  storage_key = key;
  size = 3;
  checksum = text "sum";
  scans = [];
  created_at = 3;
}

abbrev pub file : File
file = record {
  id = text "id";
  tenant_id = acme;
  owner_id = text "ann";
  name = text "cv.pdf";
  extension = text ".PDF";
  mime_type = text "application/pdf";
  size = 3;
  purpose = cv;
  status = FileStatus.pending;
  resource_type = text "candidate";
  resource_id = text "c1";
  versions = cv_version ∷ [];
  version = 0;
  created_at = 4;
  updated_at = 4;
  deleted_at = none;
}

abbrev pub quota : FileQuota
quota = record {
  id = text "q";
  tenant_id = acme;
  limit_bytes = 1000;
  used_bytes = 3;
  created_at = 1;
  updated_at = 1;
}

-- A file of three bytes, with the object of its version and its quota.
abbrev pub stored : File → WorldOf env
stored f = record {
  committed = record { files = f ∷ []; quotas = quota ∷ [] };
  pending = nothing;
  storage = put stray (7 ∷ []) (put key (1 ∷ 2 ∷ 3 ∷ []) []);
  queue = [];
  calls = 9;
}

abbrev pub clean_scan : AntivirusScan
clean_scan = record { status = clean; engine = text "clamav"; result = none; scanned_at = 5 }

abbrev pub failed_scan : AntivirusScan
failed_scan = record {
  status = error;
  engine = text "clamav";
  result = some (text "timeout");
  scanned_at = 5;
}

abbrev pub stuck_version : FileVersion
stuck_version = record cv_version { scans = failed_scan ∷ [] }

abbrev pub stuck : File
stuck = record file { versions = stuck_version ∷ [] }

abbrev pub second_version : FileVersion
second_version = record cv_version { version = 2; size = 4 }

abbrev pub ready : File
ready = record file { status = FileStatus.ready }

abbrev pub deleted : File
deleted = record file { status = FileStatus.deleted; deleted_at = some 5 }

abbrev pub history : List Request
history =
    Request.upload input
    ∷ Request.upload failing_input
    ∷ Request.scan acme (text "id") 1
    ∷ Request.replace replacement
    ∷ Request.adjust_limit acme 2000000000
    ∷ Request.delete (text "id")
    ∷ Request.purge acme 0 false
    ∷ []

abbrev pub prepared : PreparedUpload
prepared = record {
  checksum = text "sum";
  file_id = text "n";
  storage_key = text "tenants/acme/files/n/v1/cv.pdf";
}

abbrev pub elsewhere : UploadFileInput
elsewhere = record input { resource_id = text "c2" }

-- The identifier of a row that is there.
abbrev pub clashing : PreparedUpload
clashing = record prepared { file_id = text "id" }

abbrev pub prepared_replace : PreparedReplace
prepared_replace = record {
  checksum = text "sum";
  storage_key = text "tenants/acme/files/id/v2/new.pdf";
  next_version = 2;
}

abbrev pub calls : List Call
calls =
    Call.add_scan 5 clean_scan
    ∷ Call.mark_ready 6
    ∷ Call.add_version 7 second_version
    ∷ Call.mark_infected 8
    ∷ Call.delete 9 10
    ∷ Call.rename 11 (text "x")
    ∷ []
