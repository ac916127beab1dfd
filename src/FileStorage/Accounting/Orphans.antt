-- ===== src/FileStorage/Accounting/Orphans.antt =====
-- ReconcileStorageJobsUseCase and the quota.
use neltrik_backend.Prelude.{◌≡◌, ◌+◌, false, some, arith}
use neltrik_backend.Prelude.Text.{Text}
use neltrik_backend.Prelude.Result.{ok}
use neltrik_backend.FileStorage.Domain.Types.{is_deleted}
use neltrik_backend.FileStorage.Domain.File
use neltrik_backend.FileStorage.Domain.File.{File, get_total_size}
use neltrik_backend.FileStorage.World.{Env, WorldOf}
use neltrik_backend.FileStorage.Repository.{find_row, set_row, update_file}
use neltrik_backend.FileStorage.Jobs.{orphan_file}
use neltrik_backend.FileStorage.Accounting.{share, live_bytes, live_bytes-set_row}

module _ (env : Env) where
  -- A file that is not deleted and that the reconciliation takes for an orphan: when its round
  -- returns, the bytes of the file are no longer counted, and the quotas are as they were.
  pub orphan_file-live_bytes :
      (t : Text) (f : File) (w : WorldOf env)
      → find_row f.id w.committed.files ≡ some f
      → is_deleted f.status ≡ false
      → (orphan_file env f w).0 ≡ ok tt
      → (live_bytes t (orphan_file env f w).1.committed.files + share t f
          ≡ live_bytes t w.committed.files)
        × ((orphan_file env f w).1.committed.quotas ≡ w.committed.quotas)
  unfolding orphan_file update_file find_row set_row File.mark_as_orphan share
  orphan_file-live_bytes t f w row alive returned =
      let g = File.mark_as_orphan (env.clock w.calls) (env.clock (w.calls + 1)) f in
      ground (
        arith,
        live_bytes-set_row t f.id w.committed.files f (record g { version = f.version + 1 }) row,
      )
