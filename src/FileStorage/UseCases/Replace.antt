-- ===== src/FileStorage/UseCases/Replace.antt =====
-- ReplaceFileUseCase: src/core/file-storage/application/use-cases/file/replace/index.ts.
use neltrik_backend.Prelude.{ℕ, ◌+◌, not, ◌&&◌, []}
use neltrik_backend.Prelude.Text.{Text}
use neltrik_backend.Prelude.Exec.{◌>>=◌, ◌>>◌, pure, throw_if, lift, or_throw}
use neltrik_backend.FileStorage.Domain.Types.{
  at, file_not_found, invalid_file_status, file_quota_exceeded, is_ready, is_infected,
}
use neltrik_backend.FileStorage.Domain.Version
use neltrik_backend.FileStorage.Domain.Version.{FileVersion}
use neltrik_backend.FileStorage.Domain.File
use neltrik_backend.FileStorage.Domain.File.{File}
use neltrik_backend.FileStorage.ObjectStore.{Buffer}
use neltrik_backend.FileStorage.World.{
  Env, Client, M, new_date, transaction, upload_object, delete_object, enqueue,
}
use neltrik_backend.FileStorage.Repository.{update_file, find_by_id}
use neltrik_backend.FileStorage.Compensation
use neltrik_backend.FileStorage.Validation
use neltrik_backend.FileStorage.UseCases.Keys.{storage_key, build_file_scan_job_id}
use neltrik_backend.FileStorage.UseCases.Quota.{verify_quota_limit, increment_quota}
use neltrik_backend.FileStorage.UseCases.Upload.{FileOutput, to_output}

-- `ReplaceFileInput`
pub record ReplaceFileInput : Type 0 where
  pub file_id : Text
  pub buffer : Buffer
  pub name : Text
  pub extension : Text
  pub mime_type : Text
  pub size : ℕ

-- `PreparedReplace`
pub record PreparedReplace : Type 0 where
  pub checksum : Text
  pub storage_key : Text
  pub next_version : ℕ

module _ (env : Env) (input : ReplaceFileInput) where
  unfoldable pub find_and_validate : M env File
  find_and_validate = do
    found ← find_by_id env input.file_id
    file ← or_throw found file_not_found
    throw_if (not (is_ready file.status) && not (is_infected file.status)) invalid_file_status
    lift (
        Validation.validate env.detect file.purpose input.mime_type input.extension input.size
          input.buffer)
    can_accommodate ← verify_quota_limit env file.tenant_id input.size
    throw_if (not can_accommodate) file_quota_exceeded
    pure file

  module _ (file : File) where
    unfoldable pub prepare : M env PreparedReplace
    prepare = do
      latest ← or_throw (File.get_latest_version file) invalid_file_status
      pure (record {
        checksum = env.checksum input.buffer;
        storage_key = storage_key file.tenant_id file.id (latest.version + 1) input.name;
        next_version = latest.version + 1;
      })

    module _ (prepared : PreparedReplace) where
      unfoldable pub next_params : ℕ → Version.Params
      next_params now = record {
        version = prepared.next_version;
        name = input.name;
        extension = input.extension;
        mime_type = input.mime_type;
        storage_key = prepared.storage_key;
        size = input.size;
        checksum = prepared.checksum;
        scans = [];
        created_at = at now;
      }

      -- The body of the transaction of `persistAndEnqueue`.
      unfoldable pub persist : M env File
      unfolding next_params
      persist = do
        now ← new_date env
        version ← lift (Version.create (next_params now))
        later ← new_date env
        updated ← lift (File.add_version later version file)
        update_file env Client.tx updated
        _ ← increment_quota env Client.tx file.tenant_id input.size
        enqueue env (record {
          tenant_id = file.tenant_id;
          file_id = file.id;
          version = prepared.next_version;
          job_id = build_file_scan_job_id file.id prepared.next_version;
        })
        pure updated

      unfoldable pub upload_and_persist : M env File
      upload_and_persist =
          Compensation.execute (upload_object env prepared.storage_key input.buffer)
            (delete_object env prepared.storage_key) (transaction env persist)

  -- `ReplaceFileUseCase.execute`
  unfoldable pub replace_file : M env FileOutput
  replace_file = do
    file ← find_and_validate
    prepared ← prepare file
    updated ← upload_and_persist file prepared
    pure (to_output updated)
