-- ===== src/FileStorage/Jobs.antt =====
-- The background jobs of file storage: src/core/file-storage/application/jobs. The counters of the
-- loops only feed the log and are left out. A time before 1970 is 0 here, and no row is older.
pub mod Objects
pub mod Purge
pub mod Purged
pub mod Scanning
use neltrik_backend.Prelude.{
  ℕ, ◌-◌, ◌*◌, Bool, true, false, not, ◌&&◌, Option, none, some, List, ◌==◌, any, all, filter,
  is_empty, if◌then◌else◌,
}
use neltrik_backend.Prelude.Text.{Text, text_eq, includes}
use neltrik_backend.Prelude.Exec.{◌>>=◌, ◌>>◌, pure, throw_if, lift, or_throw, for_each}
use neltrik_backend.FileStorage.Domain.Types.{
  file_not_found, file_version_not_found, is_pending, is_deleted,
}
use neltrik_backend.FileStorage.Domain.Scan
use neltrik_backend.FileStorage.Domain.Scan.{AntivirusScan}
use neltrik_backend.FileStorage.Domain.Version.{FileVersion}
use neltrik_backend.FileStorage.Domain.File
use neltrik_backend.FileStorage.Domain.File.{File}
use neltrik_backend.FileStorage.World.{
  Env, Client, M, new_date, download_object, delete_object, list_objects, scan_buffer,
}
use neltrik_backend.FileStorage.Repository.{
  update_file, find_by_id, find_all_by_tenant, find_deleted_before, find_ready_for_rescan,
}
use neltrik_backend.FileStorage.UseCases.Keys.{tenant_prefix}

-- `days * 24 * 60 * 60 * 1000`
abbrev pub days_ms : ℕ → ℕ
days_ms days = days * 24 * 60 * 60 * 1000

-- `!version || version.getVersion() !== input.version`
abbrev pub expected_version : ℕ → Option FileVersion → Option FileVersion
expected_version n none = none
expected_version n (some v) = if v.version == n then some v else none

-- `storageKeysInDB`
unfoldable pub known_key : List File → Text → Bool
known_key files key = any (λ f. any (λ v. text_eq v.storage_key key) f.versions) files

-- `orphanFiles`: not deleted, and with no binary left
unfoldable pub is_orphan : List Text → File → Bool
is_orphan present f =
    not (is_deleted f.status) && all (λ v. not (includes present v.storage_key)) f.versions

module _ (env : Env) where
  -- What a scan does to the status of a pending file.
  unfoldable pub settle_scan : ℕ → AntivirusScan → File → M env File
  settle_scan t scan file =
      if Scan.is_clean scan
      then lift (File.mark_ready t file)
      else (if Scan.is_infected scan then lift (File.mark_infected t file) else pure file)

  -- The rest of `ScanFileJobsUseCase.execute`, once the version is known to lack a scan.
  unfoldable pub scan_version : File → FileVersion → M env (Unit {0})
  unfolding settle_scan
  scan_version file version = do
    buffer ← download_object env version.storage_key
    scan ← scan_buffer env buffer
    now ← new_date env
    scanned ← lift (File.add_scan_to_latest_version now scan file)
    later ← new_date env
    settled ← settle_scan later scan scanned
    update_file env Client.auto settled

  unfoldable pub scan_pending : ℕ → File → M env (Unit {0})
  scan_pending n file = do
    version ← or_throw (expected_version n (File.get_latest_version file)) file_version_not_found
    if is_empty version.scans then scan_version file version else pure tt

  -- `ScanFileJobsUseCase.execute`
  unfoldable pub scan_file : Text → Text → ℕ → M env (Unit {0})
  scan_file tenant file_id n = do
    found ← find_by_id env file_id
    file ← or_throw found file_not_found
    throw_if (not (text_eq file.tenant_id tenant)) file_not_found
    if is_pending file.status then scan_pending n file else pure tt

  abbrev rescan_latest : Bool → File → Option FileVersion → M env (Unit {0})
  rescan_latest dry_run file none = pure tt
  rescan_latest true file (some version) = pure tt
  rescan_latest false file (some version) = do
    buffer ← download_object env version.storage_key
    scan ← scan_buffer env buffer
    now ← new_date env
    scanned ← lift (File.add_scan_to_latest_version now scan file)
    later ← new_date env
    settled ←
        if Scan.is_infected scan
        then lift (File.mark_as_infected_by_rescan later scanned)
        else pure scanned
    update_file env Client.auto settled

  -- One round of the loop of `RescanFilesJobsUseCase.execute`.
  unfoldable pub rescan_file : Bool → File → M env (Unit {0})
  rescan_file dry_run file = rescan_latest dry_run file (File.get_latest_version file)

  -- `RescanFilesJobsUseCase.execute`
  unfoldable pub rescan_files : Text → ℕ → Bool → M env (Unit {0})
  rescan_files tenant age_days dry_run = do
    now ← new_date env
    files ← find_ready_for_rescan env tenant (now - days_ms age_days)
    for_each files (rescan_file dry_run)

  -- One round of the loops of `PurgeDeletedFilesJobsUseCase.execute`: `present` are the keys that the
  -- store listed at the start.
  unfoldable pub purge_file : List Text → Bool → File → M env (Unit {0})
  purge_file present dry_run file =
      if any (λ v. includes present v.storage_key) file.versions
      then for_each file.versions
          (λ v. if dry_run then pure tt else delete_object env v.storage_key)
      else pure tt

  -- `PurgeDeletedFilesJobsUseCase.execute`, once it has read the rows of the deleted files
  unfoldable pub purge_files : Text → Bool → List File → M env (Unit {0})
  purge_files tenant dry_run files = do
    present ← list_objects env (tenant_prefix tenant)
    for_each files (purge_file present dry_run)

  -- `PurgeDeletedFilesJobsUseCase.execute`
  unfoldable pub purge_deleted_files : Text → ℕ → Bool → M env (Unit {0})
  purge_deleted_files tenant grace_days dry_run = do
    now ← new_date env
    files ← find_deleted_before env tenant (now - days_ms grace_days)
    purge_files tenant dry_run files

  unfoldable pub orphan_file : File → M env (Unit {0})
  orphan_file file = do
    deleted_at ← new_date env
    updated_at ← new_date env
    update_file env Client.auto (File.mark_as_orphan deleted_at updated_at file)

  -- `ReconcileStorageJobsUseCase.execute`, once it has read the rows of the tenant
  unfoldable pub reconcile_files : Text → Bool → List File → M env (Unit {0})
  reconcile_files tenant dry_run files = do
    present ← list_objects env (tenant_prefix tenant)
    if dry_run
        then pure tt
        else (for_each (filter (λ k. not (known_key files k)) present) (λ k. delete_object env k)
            >> for_each (filter (is_orphan present) files) orphan_file)

  -- `ReconcileStorageJobsUseCase.execute`
  unfoldable pub reconcile_storage : Text → Bool → M env (Unit {0})
  unfolding known_key is_orphan
  reconcile_storage tenant dry_run = do
    files ← find_all_by_tenant env tenant
    reconcile_files tenant dry_run files
