-- ===== src/FileStorage/UseCases/Rollback.antt =====
-- What an upload or a replacement leaves in the object store and the tables: the new object and its
-- row together, or neither.
use neltrik_backend.Prelude.{◌≡◌, refl, false, Option, none, some}
use neltrik_backend.Prelude.Result.{ok, err}
use neltrik_backend.Prelude.Keeps.{Keeps, keeps_rules}
use neltrik_backend.FileStorage.Domain.Types.{Error}
use neltrik_backend.FileStorage.Domain.File.{File}
use neltrik_backend.FileStorage.ObjectStore.{Buffer}
use neltrik_backend.FileStorage.World.{Env, Db, WorldOf, transaction}
use neltrik_backend.FileStorage.World.Effects.{OfCommitted, Keeps-new_date, Keeps-enqueue}
use neltrik_backend.FileStorage.World.Objects.{
  Holds, Holds-new_date, Holds-create_file, Holds-increment_quota, Holds-enqueue,
}
use neltrik_backend.FileStorage.Repository.Effects.{
  Keeps-create_file, Keeps-update_file, Keeps-increment_quota,
}
use neltrik_backend.FileStorage.UseCases.Upload
use neltrik_backend.FileStorage.UseCases.Upload.{UploadFileInput, PreparedUpload}
use neltrik_backend.FileStorage.UseCases.Replace
use neltrik_backend.FileStorage.UseCases.Replace.{ReplaceFileInput, PreparedReplace}
use neltrik_backend.FileStorage.Compensation.Object.{with_object, compensated-ok, compensated-err}

module _ (env : Env) (input : UploadFileInput) (prepared : PreparedUpload) where
  Holds-persist_upload :
      (b : Option Buffer)
      → Keeps (Holds env prepared.storage_key b) (Upload.persist env input prepared)
  unfolding Upload.persist
  Holds-persist_upload b =
      search (keeps_rules, Holds-new_date, Holds-create_file, Holds-increment_quota, Holds-enqueue)
        depth 12

  Keeps-persist_upload :
      (P : Db → Type 0) → Keeps (OfCommitted env P) (Upload.persist env input prepared)
  unfolding Upload.persist
  Keeps-persist_upload P =
      search (keeps_rules, Keeps-new_date, Keeps-create_file, Keeps-increment_quota, Keeps-enqueue)
        depth 12

  -- If `uploadAndPersist` of an upload returns, the store holds the uploaded bytes under the key.
  pub upload_and_persist-stores :
      (w : WorldOf env) {f : File}
      → (Upload.upload_and_persist env input prepared w).0 ≡ ok f
      → env.objects.get prepared.storage_key
          (Upload.upload_and_persist env input prepared w).1.storage
        ≡ some input.buffer
  unfolding Upload.upload_and_persist
  upload_and_persist-stores w returned =
      compensated-ok env prepared.storage_key input.buffer (Upload.persist env input prepared) w
        Holds-persist_upload returned

  -- If `uploadAndPersist` of an upload throws, at a key without an object, and the call that would
  -- delete the uploaded object does not fail, then there is no object under the key and the tables
  -- are as they were.
  pub upload_and_persist-rolls_back :
      (w : WorldOf env) {e : Error}
      → env.objects.get prepared.storage_key w.storage ≡ none
      → env.fault
          (transaction env
            (Upload.persist env input prepared)
            (with_object env prepared.storage_key input.buffer w)).1.calls
        ≡ false
      → (Upload.upload_and_persist env input prepared w).0 ≡ err e
      → (env.objects.get prepared.storage_key
            (Upload.upload_and_persist env input prepared w).1.storage
          ≡ none)
        × ((Upload.upload_and_persist env input prepared w).1.committed ≡ w.committed)
  unfolding Upload.upload_and_persist
  upload_and_persist-rolls_back w absent deletes thrown =
      compensated-err env prepared.storage_key input.buffer (Upload.persist env input prepared) w
        (λ v. (Keeps-persist_upload (λ d. d ≡ v.committed)).run v refl) absent deletes thrown

module _ (env : Env) (input : ReplaceFileInput) (file : File) (prepared : PreparedReplace) where
  Keeps-persist_replace :
      (P : Db → Type 0) → Keeps (OfCommitted env P) (Replace.persist env input file prepared)
  unfolding Replace.persist
  Keeps-persist_replace P =
      search (keeps_rules, Keeps-new_date, Keeps-update_file, Keeps-increment_quota, Keeps-enqueue)
        depth 12

  -- If `uploadAndPersist` of a replacement throws, at a key without an object, and the call that would
  -- delete the uploaded object does not fail, then there is no object under the key and the tables
  -- are as they were.
  pub replace-rolls_back :
      (w : WorldOf env) {e : Error}
      → env.objects.get prepared.storage_key w.storage ≡ none
      → env.fault
          (transaction env
            (Replace.persist env input file prepared)
            (with_object env prepared.storage_key input.buffer w)).1.calls
        ≡ false
      → (Replace.upload_and_persist env input file prepared w).0 ≡ err e
      → (env.objects.get prepared.storage_key
            (Replace.upload_and_persist env input file prepared w).1.storage
          ≡ none)
        × ((Replace.upload_and_persist env input file prepared w).1.committed ≡ w.committed)
  unfolding Replace.upload_and_persist
  replace-rolls_back w absent deletes thrown =
      compensated-err env prepared.storage_key input.buffer
        (Replace.persist env input file prepared) w
        (λ v. (Keeps-persist_replace (λ d. d ≡ v.committed)).run v refl) absent deletes thrown
