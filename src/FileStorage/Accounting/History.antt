-- ===== src/FileStorage/Accounting/History.antt =====
-- The books after any history of requests and jobs, run one after the other.
use neltrik_backend.Prelude.{ℕ, Bool, List, [], ◌∷◌}
use neltrik_backend.Prelude.Text.{Text}
use neltrik_backend.FileStorage.World.{Env, WorldOf}
use neltrik_backend.FileStorage.UseCases.Quota.{adjust_quota_limit}
use neltrik_backend.FileStorage.UseCases.Upload.{UploadFileInput, upload_file}
use neltrik_backend.FileStorage.UseCases.Replace.{ReplaceFileInput, replace_file}
use neltrik_backend.FileStorage.UseCases.Files.{delete_file, rename_file, change_file_resource}
use neltrik_backend.FileStorage.Jobs.{scan_file, purge_deleted_files}
use neltrik_backend.FileStorage.Accounting.{IsBalanced}
use neltrik_backend.FileStorage.Accounting.Upload.{upload_file-IsBalanced}
use neltrik_backend.FileStorage.Accounting.Replace.{replace_file-IsBalanced}
use neltrik_backend.FileStorage.Accounting.Delete.{delete_file-IsBalanced}
use neltrik_backend.FileStorage.Accounting.Unchanged.{
  rename_file-IsBalanced, change_file_resource-IsBalanced, adjust_quota_limit-IsBalanced,
  scan_file-IsBalanced, purge_deleted_files-Keeps,
}

-- A request or a job that writes to the tables or the object store.
pub data Request : Type 0 where
  upload : UploadFileInput → Request
  replace : ReplaceFileInput → Request
  delete : Text → Request
  rename : Text → Text → Request
  change_resource : Text → Text → Text → Request
  adjust_limit : Text → ℕ → Request
  scan : Text → Text → ℕ → Request
  purge : Text → ℕ → Bool → Request

module _ (env : Env) where
  -- What a request leaves behind, whether it returns or throws.
  unfoldable pub handle : Request → WorldOf env → WorldOf env
  handle (Request.upload input) w = (upload_file env input w).1
  handle (Request.replace input) w = (replace_file env input w).1
  handle (Request.delete id) w = (delete_file env id w).1
  handle (Request.rename id name) w = (rename_file env id name w).1
  handle (Request.change_resource id kind place) w = (change_file_resource env id kind place w).1
  handle (Request.adjust_limit tenant limit) w = (adjust_quota_limit env tenant limit w).1
  handle (Request.scan tenant id n) w = (scan_file env tenant id n w).1
  handle (Request.purge tenant days dry_run) w = (purge_deleted_files env tenant days dry_run w).1

  unfoldable pub run : List Request → WorldOf env → WorldOf env
  run [] w = w
  run (r ∷ rs) w = run rs (handle r w)

  handle-IsBalanced :
      (t : Text) (r : Request) (w : WorldOf env)
      → IsBalanced t w.committed
      → IsBalanced t (handle r w).committed
  unfolding handle
  handle-IsBalanced t (Request.upload input) w h = upload_file-IsBalanced env t input w h
  handle-IsBalanced t (Request.replace input) w h = replace_file-IsBalanced env t input w h
  handle-IsBalanced t (Request.delete id) w h = delete_file-IsBalanced env t id w h
  handle-IsBalanced t (Request.rename id name) w h = rename_file-IsBalanced env t id name w h
  handle-IsBalanced t (Request.change_resource id kind place) w h =
      change_file_resource-IsBalanced env t id kind place w h
  handle-IsBalanced t (Request.adjust_limit tenant limit) w h =
      adjust_quota_limit-IsBalanced env t tenant limit w h
  handle-IsBalanced t (Request.scan tenant id n) w h = scan_file-IsBalanced env t tenant id n w h
  handle-IsBalanced t (Request.purge tenant days dry_run) w h =
      (purge_deleted_files-Keeps env t (IsBalanced t) tenant days dry_run).run w h

  -- If the quota of a tenant records the bytes of its files that are not deleted, it does so after any
  -- history of uploads, replacements, deletions, renames, changes of resource, changes of the limit,
  -- scans and purges, whichever of them throw and whatever the services answer.
  pub run-IsBalanced :
      (t : Text) (rs : List Request) (w : WorldOf env)
      → IsBalanced t w.committed
      → IsBalanced t (run rs w).committed
  unfolding run
  run-IsBalanced t [] w h = h
  run-IsBalanced t (r ∷ rs) w h = run-IsBalanced t rs (handle r w) (handle-IsBalanced t r w h)
