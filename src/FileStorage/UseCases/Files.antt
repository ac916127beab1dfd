-- ===== src/FileStorage/UseCases/Files.antt =====
-- The other use cases of a file: src/core/file-storage/application/use-cases/file, delete, rename,
-- change-resource, get and get-download-url.
use neltrik_backend.Prelude.{ℕ, Bool, false, not, ◌||◌, Option, none, some}
use neltrik_backend.Prelude.Text.{Text, text_eq}
use neltrik_backend.Prelude.Exec.{◌>>=◌, ◌>>◌, pure, throw_if, lift, or_throw}
use neltrik_backend.FileStorage.Domain.Types.{
  file_not_found, invalid_file_status, file_already_exists, is_ready, is_infected, is_deleted,
}
use neltrik_backend.FileStorage.Domain.File
use neltrik_backend.FileStorage.Domain.File.{File}
use neltrik_backend.FileStorage.World.{Env, Client, M, new_date, transaction, get_signed_url}
use neltrik_backend.FileStorage.Repository.{update_file, find_by_id, find_by_resource_and_purpose}
use neltrik_backend.FileStorage.UseCases.Quota.{decrement_quota}
use neltrik_backend.FileStorage.UseCases.Upload.{FileOutput, to_output}

-- `GetDownloadUrlOutput`
pub record GetDownloadUrlOutput : Type 0 where
  pub url : Text
  pub expires_in : ℕ
  pub name : Text
  pub mime_type : Text
  pub size : ℕ

-- `existing && existing.id !== file.id`
abbrev pub is_another : Option File → Text → Bool
is_another none id = false
is_another (some f) id = not (text_eq f.id id)

module _ (env : Env) where
  -- The body of the transaction of `DeleteFileUseCase.execute`.
  unfoldable pub delete_in_transaction : Text → M env Text
  delete_in_transaction file_id = do
    found ← find_by_id env file_id
    file ← or_throw found file_not_found
    deleted_at ← new_date env
    updated_at ← new_date env
    deleted ← lift (File.delete deleted_at updated_at file)
    update_file env Client.tx deleted
    _ ← decrement_quota env Client.tx deleted.tenant_id (File.get_total_size deleted)
    pure deleted.id

  -- `DeleteFileUseCase.execute`
  unfoldable pub delete_file : Text → M env Text
  unfolding delete_in_transaction
  delete_file file_id = transaction env (delete_in_transaction file_id)

  -- `RenameFileUseCase.execute`
  unfoldable pub rename_file : Text → Text → M env File
  rename_file file_id name = do
    found ← find_by_id env file_id
    file ← or_throw found file_not_found
    now ← new_date env
    renamed ← lift (File.rename now name file)
    update_file env Client.auto renamed
    pure renamed

  -- `ChangeFileResourceUseCase.execute`
  unfoldable pub change_file_resource : Text → Text → Text → M env File
  change_file_resource file_id resource_type resource_id = do
    found ← find_by_id env file_id
    file ← or_throw found file_not_found
    existing ←
        find_by_resource_and_purpose env file.tenant_id resource_type resource_id file.purpose
    throw_if (is_another existing file.id) file_already_exists
    now ← new_date env
    moved ← lift (File.change_resource now resource_type resource_id file)
    update_file env Client.auto moved
    pure moved

  -- `GetFileUseCase.execute`
  unfoldable pub get_file : Text → M env FileOutput
  get_file file_id = do
    found ← find_by_id env file_id
    file ← or_throw found file_not_found
    throw_if (is_deleted file.status || is_infected file.status) file_not_found
    pure (to_output file)

  -- `GetDownloadUrlUseCase.execute`
  unfoldable pub get_download_url : Text → M env GetDownloadUrlOutput
  get_download_url file_id = do
    found ← find_by_id env file_id
    file ← or_throw found file_not_found
    throw_if (is_deleted file.status || is_infected file.status) file_not_found
    throw_if (not (is_ready file.status)) invalid_file_status
    latest ← or_throw (File.get_latest_version file) invalid_file_status
    url ← get_signed_url env latest.storage_key
    pure (record {
      url = url;
      expires_in = env.signed_url_ttl_seconds;
      name = file.name;
      mime_type = file.mime_type;
      size = file.size;
    })
