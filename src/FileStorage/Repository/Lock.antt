-- ===== src/FileStorage/Repository/Lock.antt =====
-- The lock counter of the table of files.
use neltrik_backend.Prelude.{◌≡◌, ◌+◌, arith, inl, inr, Option-cases}
use neltrik_backend.Prelude.Result.{ok, err}
use neltrik_backend.FileStorage.Domain.Types.{optimistic_lock}
use neltrik_backend.FileStorage.Domain.File.{File}
use neltrik_backend.FileStorage.World.{Env, Client, WorldOf}
use neltrik_backend.FileStorage.Repository.{update_file, find_row}
use neltrik_backend.FileStorage.Repository.Outcomes.{find_row-set_row}

-- Of two updates that start from the same version of a file, only the first succeeds: after it, the
-- second throws that the lock is lost and changes nothing.
pub update_file-locks :
    (env : Env) (f g : File) (w : WorldOf env)
    → g.id ≡ f.id
    → g.version ≡ f.version
    → (update_file env Client.auto f w).0 ≡ ok tt
    → let w' = (update_file env Client.auto f w).1 in
      update_file env Client.auto g w' ≡ (err optimistic_lock, w')
unfolding update_file
update_file-locks env f g w same_id same_version first =
    let next : File = record f { version = f.version + 1 } in
    elim (Option-cases (find_row f.id w.committed.files)) [
      | inl absent ↦ ground arith
      | inr (row, there) ↦ ground (arith, find_row-set_row f.id next w.committed.files there)
    ]
