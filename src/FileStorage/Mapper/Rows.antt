-- ===== src/FileStorage/Mapper/Rows.antt =====
-- FileMapper whole (src/core/file-storage/infrastructure/mappers/file): the row that toPersistence
-- writes, with the dates of the JSON column as texts, and toDomain that reads one. The dates and the
-- BigInt of JavaScript are a parameter.
use neltrik_backend.Prelude.{ℕ, ◌≡◌, ◌≤◌, ◌∙◌, refl, Option, List, [], ◌∷◌, map, All}
use neltrik_backend.Prelude.Text.{Text}
use neltrik_backend.Prelude.Result.{Result, ok, ◌>>=◌}
use neltrik_backend.FileStorage.Domain.Types.{Error, ScanStatus, FileStatus, FilePurpose, Date, at}
use neltrik_backend.FileStorage.Domain.Scan
use neltrik_backend.FileStorage.Domain.Scan.{AntivirusScan}
use neltrik_backend.FileStorage.Domain.Version
use neltrik_backend.FileStorage.Domain.Version.{FileVersion}
use neltrik_backend.FileStorage.Domain.File
use neltrik_backend.FileStorage.Domain.File.{File}
use neltrik_backend.FileStorage.Domain.File.Invariant
use neltrik_backend.FileStorage.Mapper.{
  map_result, scan_to_domain, version_to_domain, file_to_domain, file_to_domain-IsValid,
}

-- `PersistedAntivirusScan`
pub record ScanRow : Type 0 where
  pub status : ScanStatus
  pub engine : Text
  pub result : Option Text
  pub scanned_at : Text

-- `PersistedFileVersion`
pub record VersionRow : Type 0 where
  pub version : ℕ
  pub name : Text
  pub extension : Text
  pub mime_type : Text
  pub storage_key : Text
  pub size : ℕ
  pub checksum : Text
  pub scans : List ScanRow
  pub created_at : Text

-- The row of the table `files`; its size is a BigInt, and its own dates are dates.
pub record FileRow : Type 0 where
  pub id : Text
  pub tenant_id : Text
  pub owner_id : Text
  pub name : Text
  pub extension : Text
  pub mime_type : Text
  pub size : ℕ
  pub purpose : FilePurpose
  pub status : FileStatus
  pub resource_type : Text
  pub resource_id : Text
  pub versions : List VersionRow
  pub version : ℕ
  pub created_at : ℕ
  pub updated_at : ℕ
  pub deleted_at : Option ℕ

-- `Date.prototype.toISOString` of a time, `new Date` of a text, and `Number` of a BigInt, with what
-- the language promises: a time of at most 8.64e15 is read back from its text, and an integer of at
-- most 2^53 - 1 is kept.
pub record Javascript : Type 0 where
  pub to_iso_string : ℕ → Text
  pub parse_date : Text → Date
  pub number : ℕ → ℕ
  pub parse-to_iso_string : (t : ℕ) → t ≤ 8640000000000000 → parse_date (to_iso_string t) ≡ at t
  pub number-safe : (n : ℕ) → n ≤ 9007199254740991 → number n ≡ n

module _ (js : Javascript) where
  abbrev pub scan_to_persistence : AntivirusScan → ScanRow
  scan_to_persistence s = record {
    status = s.status;
    engine = s.engine;
    result = s.result;
    scanned_at = js.to_iso_string s.scanned_at;
  }

  abbrev pub version_to_persistence : FileVersion → VersionRow
  version_to_persistence v = record {
    version = v.version;
    name = v.name;
    extension = v.extension;
    mime_type = v.mime_type;
    storage_key = v.storage_key;
    size = v.size;
    checksum = v.checksum;
    scans = map scan_to_persistence v.scans;
    created_at = js.to_iso_string v.created_at;
  }

  -- `FileMapper.toPersistence`
  unfoldable pub to_persistence : File → FileRow
  to_persistence f = record {
    id = f.id;
    tenant_id = f.tenant_id;
    owner_id = f.owner_id;
    name = f.name;
    extension = f.extension;
    mime_type = f.mime_type;
    size = f.size;
    purpose = f.purpose;
    status = f.status;
    resource_type = f.resource_type;
    resource_id = f.resource_id;
    versions = map version_to_persistence f.versions;
    version = f.version;
    created_at = f.created_at;
    updated_at = f.updated_at;
    deleted_at = f.deleted_at;
  }

  unfoldable pub scan_of_row : ScanRow → Result Error AntivirusScan
  scan_of_row s = Scan.create s.status s.engine s.result (js.parse_date s.scanned_at)

  unfoldable pub version_of_row : VersionRow → Result Error FileVersion
  unfolding map_result scan_of_row
  version_of_row v = do
    scans ← map_result scan_of_row v.scans
    Version.create (record {
      version = v.version;
      name = v.name;
      extension = v.extension;
      mime_type = v.mime_type;
      storage_key = v.storage_key;
      size = v.size;
      checksum = v.checksum;
      scans = scans;
      created_at = js.parse_date v.created_at;
    })

  -- `FileMapper.toDomain`
  unfoldable pub file_of_row : FileRow → Result Error File
  unfolding map_result version_of_row
  file_of_row f = do
    versions ← map_result version_of_row f.versions
    File.restore (record {
      id = f.id;
      tenant_id = f.tenant_id;
      owner_id = f.owner_id;
      name = f.name;
      extension = f.extension;
      mime_type = f.mime_type;
      size = js.number f.size;
      purpose = f.purpose;
      status = f.status;
      resource_type = f.resource_type;
      resource_id = f.resource_id;
      versions = versions;
      version = f.version;
      created_at = f.created_at;
      updated_at = f.updated_at;
      deleted_at = f.deleted_at;
    })

  -- The times of a version and its scans are those that a date can have.
  abbrev pub IsDated : FileVersion → Type 0
  IsDated v = (v.created_at ≤ 8640000000000000) × All (λ s. s.scanned_at ≤ 8640000000000000) v.scans

  scan_of_row-to_persistence :
      (s : AntivirusScan)
      → s.scanned_at ≤ 8640000000000000
      → scan_of_row (scan_to_persistence s) ≡ scan_to_domain s
  unfolding scan_of_row scan_to_domain
  scan_of_row-to_persistence s h = rw (js.parse-to_iso_string s.scanned_at h) refl

  map_result-map :
      {A B C : Type 0} (P : A → Type 0) (write : A → B) (read : B → Result Error C)
      (read' : A → Result Error C) (xs : List A)
      → ((x : A) → P x → read (write x) ≡ read' x)
      → All P xs
      → map_result read (map write xs) ≡ map_result read' xs
  unfolding map_result
  map_result-map P write read read' [] same h = refl
  map_result-map P write read read' (x ∷ xs) same h =
      rw (same x h.0) (rw (map_result-map P write read read' xs same h.1) refl)

  version_of_row-to_persistence :
      (v : FileVersion)
      → IsDated v
      → version_of_row (version_to_persistence v) ≡ version_to_domain v
  unfolding version_of_row version_to_domain
  version_of_row-to_persistence v h = rw (js.parse-to_iso_string v.created_at h.0) (
      rw
        (map_result-map (λ s. s.scanned_at ≤ 8640000000000000) scan_to_persistence scan_of_row
          scan_to_domain v.scans scan_of_row-to_persistence h.1)
        refl)

  -- What is read back is what the constructors make of the file itself.
  pub file_of_row-to_persistence :
      (f : File)
      → f.size ≤ 9007199254740991
      → All IsDated f.versions
      → file_of_row (to_persistence f) ≡ file_to_domain f
  unfolding file_of_row to_persistence file_to_domain
  file_of_row-to_persistence f safe dated = rw (js.number-safe f.size safe) (
      rw
        (map_result-map IsDated version_to_persistence version_of_row version_to_domain f.versions
          version_of_row-to_persistence dated)
        refl)

  -- A valid file whose size is a safe integer and whose times are those of dates: the row that
  -- `toPersistence` writes is read by `toDomain` as the file that it was written for.
  pub file_of_row-IsValid :
      (f : File)
      → Invariant.IsValid f
      → f.size ≤ 9007199254740991
      → All IsDated f.versions
      → file_of_row (to_persistence f) ≡ ok f
  file_of_row-IsValid f h safe dated =
      file_of_row-to_persistence f safe dated ∙ file_to_domain-IsValid f h
