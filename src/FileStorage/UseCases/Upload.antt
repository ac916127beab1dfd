-- ===== src/FileStorage/UseCases/Upload.antt =====
-- UploadFileUseCase: src/core/file-storage/application/use-cases/file/upload/index.ts.
use neltrik_backend.Prelude.{ℕ, not, Option, [], ◌∷◌, is_some}
use neltrik_backend.Prelude.Text.{Text}
use neltrik_backend.Prelude.Exec.{◌>>=◌, ◌>>◌, pure, throw_if, lift}
use neltrik_backend.FileStorage.Domain.Types.{
  FilePurpose, FileStatus, at, file_already_exists, file_quota_exceeded,
}
use neltrik_backend.FileStorage.Domain.Version
use neltrik_backend.FileStorage.Domain.Version.{FileVersion}
use neltrik_backend.FileStorage.Domain.File
use neltrik_backend.FileStorage.Domain.File.{File}
use neltrik_backend.FileStorage.ObjectStore.{Buffer}
use neltrik_backend.FileStorage.World.{
  Env, Client, M, new_date, generate_id, transaction, upload_object, delete_object, enqueue,
}
use neltrik_backend.FileStorage.Repository.{create_file, find_by_resource_and_purpose}
use neltrik_backend.FileStorage.Compensation
use neltrik_backend.FileStorage.Validation
use neltrik_backend.FileStorage.UseCases.Keys.{storage_key, build_file_scan_job_id}
use neltrik_backend.FileStorage.UseCases.Quota.{
  create_or_get_quota, verify_quota_limit, increment_quota,
}

-- `UploadFileInput`
pub record UploadFileInput : Type 0 where
  pub tenant_id : Text
  pub owner_id : Text
  pub buffer : Buffer
  pub name : Text
  pub extension : Text
  pub mime_type : Text
  pub size : ℕ
  pub purpose : FilePurpose
  pub resource_type : Text
  pub resource_id : Text

-- `PreparedUpload`
pub record PreparedUpload : Type 0 where
  pub checksum : Text
  pub file_id : Text
  pub storage_key : Text

-- `UploadFileOutput`, which GetFileUseCase and ReplaceFileUseCase return too.
pub record FileOutput : Type 0 where
  pub id : Text
  pub tenant_id : Text
  pub owner_id : Text
  pub name : Text
  pub extension : Text
  pub mime_type : Text
  pub size : ℕ
  pub purpose : FilePurpose
  pub status : FileStatus
  pub resource_type : Text
  pub resource_id : Text
  pub created_at : ℕ
  pub updated_at : ℕ
  pub deleted_at : Option ℕ

unfoldable pub to_output : File → FileOutput
to_output f = record {
  id = f.id;
  tenant_id = f.tenant_id;
  owner_id = f.owner_id;
  name = f.name;
  extension = f.extension;
  mime_type = f.mime_type;
  size = f.size;
  purpose = f.purpose;
  status = f.status;
  resource_type = f.resource_type;
  resource_id = f.resource_id;
  created_at = f.created_at;
  updated_at = f.updated_at;
  deleted_at = f.deleted_at;
}

module _ (env : Env) (input : UploadFileInput) where
  unfoldable pub validate : M env (Unit {0})
  validate = do
    lift (
        Validation.validate env.detect input.purpose input.mime_type input.extension input.size
          input.buffer)
    existing ←
        find_by_resource_and_purpose env input.tenant_id input.resource_type input.resource_id
          input.purpose
    throw_if (is_some existing) file_already_exists
    _ ← create_or_get_quota env input.tenant_id
    can_accommodate ← verify_quota_limit env input.tenant_id input.size
    throw_if (not can_accommodate) file_quota_exceeded

  unfoldable pub prepare : M env PreparedUpload
  prepare = do
    file_id ← generate_id env
    pure (record {
      checksum = env.checksum input.buffer;
      file_id = file_id;
      storage_key = storage_key input.tenant_id file_id 1 input.name;
    })

  module _ (prepared : PreparedUpload) where
    unfoldable pub first_version : ℕ → Version.Params
    first_version now = record {
      version = 1;
      name = input.name;
      extension = input.extension;
      mime_type = input.mime_type;
      storage_key = prepared.storage_key;
      size = input.size;
      checksum = prepared.checksum;
      scans = [];
      created_at = at now;
    }

    unfoldable pub new_file : ℕ → FileVersion → File.NewFile
    new_file now version = record {
      id = prepared.file_id;
      tenant_id = input.tenant_id;
      owner_id = input.owner_id;
      name = input.name;
      extension = input.extension;
      mime_type = input.mime_type;
      size = input.size;
      purpose = input.purpose;
      resource_type = input.resource_type;
      resource_id = input.resource_id;
      versions = version ∷ [];
      created_at = now;
    }

    -- The body of the transaction of `persistAndEnqueue`.
    unfoldable pub persist : M env File
    unfolding first_version new_file
    persist = do
      now ← new_date env
      version ← lift (Version.create_initial (first_version now))
      file ← lift (File.create (new_file now version))
      create_file env Client.tx file
      _ ← increment_quota env Client.tx input.tenant_id input.size
      enqueue env (record {
        tenant_id = input.tenant_id;
        file_id = file.id;
        version = 1;
        job_id = build_file_scan_job_id file.id 1;
      })
      pure file

    unfoldable pub upload_and_persist : M env File
    upload_and_persist =
        Compensation.execute (upload_object env prepared.storage_key input.buffer)
          (delete_object env prepared.storage_key) (transaction env persist)

  -- `UploadFileUseCase.execute`
  unfoldable pub upload_file : M env FileOutput
  upload_file = do
    validate
    prepared ← prepare
    file ← upload_and_persist prepared
    pure (to_output file)
