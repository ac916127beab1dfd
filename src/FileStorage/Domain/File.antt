-- ===== src/FileStorage/Domain/File.antt =====
-- The entity File: src/core/file-storage/domain/entities/file/index.ts.
-- A method that mutates the entity returns the new one. It throws before its first write, so a
-- call that throws has changed nothing. Each `new Date()` of a method is an argument, in order.
pub mod Diagram
pub mod Invariant
pub mod Lifecycle
pub mod Size
use neltrik_backend.Prelude.{
  ℕ, ◌+◌, Bool, true, false, not, ◌&&◌, ◌||◌, Option, none, some, List, [], ◌∷◌, ◌++◌, ◌==◌, length,
  is_empty, get_last?, drop_last, is_some,
}
use neltrik_backend.Prelude.Text.{Text, is_blank}
use neltrik_backend.Prelude.Result.{Result, ok, err, ◌>>=◌, ◌>>◌, throw_if}
use neltrik_backend.FileStorage.Domain.Scan.{AntivirusScan}
use neltrik_backend.FileStorage.Domain.Version
use neltrik_backend.FileStorage.Domain.Version.{FileVersion}
use neltrik_backend.FileStorage.Domain.Types.{
  FilePurpose, is_purpose, FileStatus, is_pending, is_ready, is_infected, is_deleted, Error,
  empty_file_name, invalid_file_extension, invalid_mime_type, invalid_file_size,
  invalid_file_purpose, invalid_file_versions, invalid_file_status, file_already_deleted,
  file_not_ready, invalid_file_resource,
}

-- `FileProps`; `version` is the counter of the optimistic lock.
pub record File : Type 0 where
  pub id : Text
  pub tenant_id : Text
  pub owner_id : Text
  pub name : Text
  pub extension : Text
  pub mime_type : Text
  pub size : ℕ
  pub purpose : FilePurpose
  pub status : FileStatus
  pub resource_type : Text
  pub resource_id : Text
  pub versions : List FileVersion
  pub version : ℕ
  pub created_at : ℕ
  pub updated_at : ℕ
  pub deleted_at : Option ℕ

-- The parameter of `create`: the properties without those that it sets.
pub record NewFile : Type 0 where
  pub id : Text
  pub tenant_id : Text
  pub owner_id : Text
  pub name : Text
  pub extension : Text
  pub mime_type : Text
  pub size : ℕ
  pub purpose : FilePurpose
  pub resource_type : Text
  pub resource_id : Text
  pub versions : List FileVersion
  pub created_at : ℕ

-- The private constructor.
unfoldable pub construct : File → Result Error File
construct p = do
  throw_if (is_blank p.name) empty_file_name
  throw_if (is_blank p.extension) invalid_file_extension
  throw_if (is_blank p.mime_type) invalid_mime_type
  throw_if (p.size == 0) invalid_file_size
  throw_if (not (is_purpose p.purpose)) invalid_file_purpose
  throw_if (is_empty p.versions) invalid_file_versions
  ok p

unfoldable pub create : NewFile → Result Error File
unfolding construct
create p = do
  throw_if (not (length p.versions == 1)) invalid_file_versions
  construct (record {
    id = p.id;
    tenant_id = p.tenant_id;
    owner_id = p.owner_id;
    name = p.name;
    extension = p.extension;
    mime_type = p.mime_type;
    size = p.size;
    purpose = p.purpose;
    status = FileStatus.pending;
    resource_type = p.resource_type;
    resource_id = p.resource_id;
    versions = p.versions;
    version = 0;
    created_at = p.created_at;
    updated_at = p.created_at;
    deleted_at = none;
  })

unfoldable pub restore : File → Result Error File
unfolding construct
restore p = construct p

-- `status !== READY && status !== INFECTED`
abbrev pub is_unsettled : FileStatus → Bool
is_unsettled s = not (is_ready s) && not (is_infected s)

unfoldable pub mark_ready : ℕ → File → Result Error File
mark_ready t f = do
  throw_if (not (is_pending f.status)) invalid_file_status
  ok (record f { status = FileStatus.ready; updated_at = t })

unfoldable pub mark_infected : ℕ → File → Result Error File
mark_infected t f = do
  throw_if (not (is_pending f.status)) invalid_file_status
  ok (record f { status = FileStatus.infected; updated_at = t })

unfoldable pub delete : ℕ → ℕ → File → Result Error File
delete t u f = do
  throw_if (is_some f.deleted_at) file_already_deleted
  throw_if (is_unsettled f.status) file_not_ready
  ok (record f { status = FileStatus.deleted; deleted_at = some t; updated_at = u })

unfoldable pub mark_as_orphan : ℕ → ℕ → File → File
mark_as_orphan t u f = elim (is_deleted f.status) [
  | true ↦ f
  | false ↦ record f { status = FileStatus.deleted; deleted_at = some t; updated_at = u }
]

unfoldable pub mark_as_infected_by_rescan : ℕ → File → Result Error File
mark_as_infected_by_rescan t f = do
  throw_if (not (is_ready f.status)) invalid_file_status
  ok (record f { status = FileStatus.infected; updated_at = t })

unfoldable pub get_latest_version : File → Option FileVersion
get_latest_version f = get_last? f.versions

-- `latest === null || version.getVersion() !== latest.getVersion() + 1`
abbrev pub is_out_of_order : Option FileVersion → FileVersion → Bool
is_out_of_order none v = true
is_out_of_order (some latest) v = not (v.version == latest.version + 1)

unfoldable pub add_version : ℕ → FileVersion → File → Result Error File
unfolding get_latest_version
add_version t v f = do
  throw_if (is_unsettled f.status) file_not_ready
  throw_if (is_out_of_order (get_latest_version f) v) invalid_file_versions
  ok (record f {
    versions = f.versions ++ v ∷ [];
    name = v.name;
    extension = v.extension;
    mime_type = v.mime_type;
    size = v.size;
    status = FileStatus.pending;
    updated_at = t;
  })

abbrev pub add_scan_to : ℕ → AntivirusScan → File → Option FileVersion → Result Error File
add_scan_to t s f none = err invalid_file_versions
add_scan_to t s f (some latest) = ok (record f {
  versions = drop_last f.versions ++ Version.with_scan s latest ∷ [];
  updated_at = t;
})

unfoldable pub add_scan_to_latest_version : ℕ → AntivirusScan → File → Result Error File
unfolding get_latest_version
add_scan_to_latest_version t s f = add_scan_to t s f (get_latest_version f)

unfoldable pub rename : ℕ → Text → File → Result Error File
rename t new_name f = do
  throw_if (is_unsettled f.status) file_not_ready
  throw_if (is_blank new_name) empty_file_name
  ok (record f { name = new_name; updated_at = t })

unfoldable pub change_resource : ℕ → Text → Text → File → Result Error File
change_resource t resource_type resource_id f = do
  throw_if (is_unsettled f.status) file_not_ready
  throw_if (is_blank resource_type) invalid_file_resource
  throw_if (is_blank resource_id) invalid_file_resource
  ok (record f { resource_type = resource_type; resource_id = resource_id; updated_at = t })

-- `versions.reduce((sum, version) => sum + version.getSize(), 0)`
unfoldable pub sum_sizes : ℕ → List FileVersion → ℕ
sum_sizes sum [] = sum
sum_sizes sum (v ∷ vs) = sum_sizes (sum + v.size) vs

unfoldable pub get_total_size : File → ℕ
unfolding sum_sizes
get_total_size f = sum_sizes 0 f.versions

unfoldable pub is_clean : File → Bool
unfolding get_latest_version
is_clean f = elim (get_latest_version f) [ none ↦ false | some v ↦ Version.is_clean v ]
