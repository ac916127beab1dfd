-- ===== src/FileStorage/UseCases/Download.antt =====
-- What GetDownloadUrlUseCase gives out.
use neltrik_backend.Prelude.{◌≡◌, some, arith, inl, inr, Option-cases, true}
use neltrik_backend.Prelude.Text.{Text}
use neltrik_backend.Prelude.Result.{ok}
use neltrik_backend.FileStorage.Domain.Types.{FileStatus}
use neltrik_backend.FileStorage.Domain.Version.{FileVersion}
use neltrik_backend.FileStorage.Domain.File
use neltrik_backend.FileStorage.Domain.File.{File}
use neltrik_backend.FileStorage.World.{Env, Client, WorldOf, get_signed_url}
use neltrik_backend.FileStorage.Repository.{find_row, sees}
use neltrik_backend.FileStorage.Repository.Outcomes.{Found, find_by_id-cases}
use neltrik_backend.FileStorage.UseCases.Files.{GetDownloadUrlOutput, get_download_url}

-- A URL is given out only for a file that is READY in the tables and that the tenant of the caller
-- sees, and it is the signed URL of the object of its latest version.
pub get_download_url-ready :
    (env : Env) (id : Text) (w : WorldOf env) {out : GetDownloadUrlOutput}
    → (get_download_url env id w).0 ≡ ok out
    → (f : File) × (v : FileVersion) × (find_row id w.committed.files ≡ some f)
      × (f.status ≡ FileStatus.ready)
      × (sees env.scope Client.auto f.tenant_id ≡ true)
      × (File.get_latest_version f ≡ some v)
      × (out.url ≡ env.signed_url v.storage_key env.signed_url_ttl_seconds)
unfolding get_download_url get_signed_url
get_download_url-ready env id w {out} given = elim (find_by_id-cases env id w) [
  | Found.throws e h ↦ ground arith
  | Found.absent h ↦ ground arith
  | Found.present f h row seen ↦ elim (Option-cases (File.get_latest_version f)) [
    | inl none_there ↦ ground arith
    | inr (v, latest) ↦ (f, v, row, ground arith, seen, latest, ground arith)
  ]
]
