-- ===== src/FileStorage/Samples/Rollback.antt =====
-- The theorems about uploads that fail, and about orphans, at inputs that meet their hypotheses.
use neltrik_backend.FileStorage.Samples.{
  env, acme, replacement, file, quota, stored, prepared, elsewhere, clashing, prepared_replace,
}
use neltrik_backend.FileStorage.Compensation
use neltrik_backend.FileStorage.Domain.Quota
use neltrik_backend.FileStorage.World.{upload_object, transaction, enqueue}
use neltrik_backend.FileStorage.Repository.{
  create_file, update_file, increment_used_bytes, find_by_tenant_id,
}
use neltrik_backend.FileStorage.UseCases.Quota.{increment_quota}
use neltrik_backend.FileStorage.Mapper.{quota_to_domain}
use neltrik_backend.Prelude.{◌+◌}
use neltrik_backend.FileStorage.UseCases.Upload
use neltrik_backend.FileStorage.UseCases.Upload.{PreparedUpload}
use neltrik_backend.FileStorage.UseCases.Replace
use neltrik_backend.FileStorage.UseCases.Replace.{PreparedReplace}
use neltrik_backend.FileStorage.UseCases.Rollback.{
  upload_and_persist-stores, upload_and_persist-rolls_back, replace-rolls_back,
}
use neltrik_backend.FileStorage.Accounting.{share}
use neltrik_backend.FileStorage.Accounting.Orphans.{orphan_file-live_bytes}
use neltrik_backend.FileStorage.Jobs.{orphan_file}
use neltrik_backend.FileStorage.Domain.Version
use neltrik_backend.FileStorage.Domain.Quota.{FileQuota}
use neltrik_backend.FileStorage.Domain.File.{get_total_size}
use neltrik_backend.FileStorage.Repository.{find_row}
use neltrik_backend.FileStorage.UseCases.Replace.{replace_file}
use neltrik_backend.Prelude.{◌≡◌, refl, none, some, [], ◌∷◌}
use neltrik_backend.Prelude.Text.{is_blank, text_eq}
use neltrik_backend.FileStorage.ObjectStore.Memory.{memory_store}
use neltrik_backend.FileStorage.Domain.Version.{FileVersion}
use neltrik_backend.FileStorage.Domain.File
use neltrik_backend.FileStorage.Domain.File.{File}
use neltrik_backend.FileStorage.UseCases.Upload.{UploadFileInput}
use neltrik_backend.FileStorage.UseCases.Replace.{ReplaceFileInput}
use neltrik_backend.FileStorage.Accounting.{live_bytes}

upload_and_persist-stores_example :
    memory_store.get prepared.storage_key
      (Upload.upload_and_persist env elsewhere prepared (stored file)).1.storage
    ≡ some (1 ∷ 2 ∷ 3 ∷ [])
unfolding text_eq Upload.upload_and_persist Compensation.execute upload_object transaction
    Upload.persist Version.create_initial is_blank File.create create_file increment_quota
    increment_used_bytes find_by_tenant_id quota_to_domain Quota.restore enqueue
upload_and_persist-stores_example =
    upload_and_persist-stores env elsewhere prepared (stored file) refl

upload_and_persist-rolls_back_example :
    (memory_store.get prepared.storage_key
        (Upload.upload_and_persist env elsewhere clashing (stored file)).1.storage
      ≡ none)
    × ((Upload.upload_and_persist env elsewhere clashing (stored file)).1.committed
        ≡ (stored file).committed)
unfolding text_eq Upload.upload_and_persist Compensation.execute upload_object transaction
    Upload.persist Version.create_initial is_blank File.create create_file
upload_and_persist-rolls_back_example =
    upload_and_persist-rolls_back env elsewhere clashing (stored file) refl refl refl

replace-rolls_back_example :
    (memory_store.get prepared_replace.storage_key
        (Replace.upload_and_persist env replacement file prepared_replace (stored file)).1.storage
      ≡ none)
    × ((Replace.upload_and_persist env replacement file prepared_replace (stored file)).1.committed
        ≡ (stored file).committed)
unfolding text_eq Replace.upload_and_persist Compensation.execute upload_object transaction
    Replace.persist Version.create is_blank File.add_version
replace-rolls_back_example =
    replace-rolls_back env replacement file prepared_replace (stored file) refl refl refl

orphan_file-live_bytes_example :
    (live_bytes acme (orphan_file env file (stored file)).1.committed.files + 3 ≡ 3)
    × ((orphan_file env file (stored file)).1.committed.quotas ≡ quota ∷ [])
unfolding share live_bytes get_total_size find_row text_eq orphan_file update_file
    File.mark_as_orphan
orphan_file-live_bytes_example = orphan_file-live_bytes env acme file (stored file) refl refl refl
