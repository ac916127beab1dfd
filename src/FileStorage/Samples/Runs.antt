-- ===== src/FileStorage/Samples/Runs.antt =====
-- The theorems about files, jobs and books at inputs that meet their hypotheses.
use neltrik_backend.FileStorage.World.{Client, get_signed_url}
use neltrik_backend.FileStorage.Domain.Types.{optimistic_lock}
use neltrik_backend.FileStorage.Repository.{update_file, sees}
use neltrik_backend.FileStorage.Repository.Lock.{update_file-locks}
use neltrik_backend.FileStorage.UseCases.Download.{get_download_url-ready}
use neltrik_backend.FileStorage.Samples.{
  env, empty_world, acme, replacement, key, cv_version, file, stored, clean_scan, stuck_version,
  stuck, second_version, ready, deleted, history, calls,
}
use neltrik_backend.FileStorage.Domain.Types.{file_not_ready, invalid_file_status}
use neltrik_backend.FileStorage.Domain.Scan
use neltrik_backend.FileStorage.Domain.Version
use neltrik_backend.FileStorage.Domain.File.{get_total_size}
use neltrik_backend.FileStorage.Domain.File.Size.{add_version-get_total_size}
use neltrik_backend.FileStorage.Domain.File.Diagram
use neltrik_backend.FileStorage.Domain.File.Diagram.{Edge, Returns}
use neltrik_backend.FileStorage.Repository.{find_quota, find_row, find_by_id}
use neltrik_backend.FileStorage.UseCases.Files.{delete_file, rename_file, get_download_url}
use neltrik_backend.FileStorage.UseCases.Replace.{replace_file}
use neltrik_backend.FileStorage.Jobs.{scan_file}
use neltrik_backend.FileStorage.Jobs.Scanning.{scan_file-settles, IsStuck-refused}
use neltrik_backend.FileStorage.Accounting.History.{run}
use neltrik_backend.Prelude.{◌≡◌, refl, true, some, [], ◌∷◌, arith}
use neltrik_backend.Prelude.Text.{text, is_blank, text_eq}
use neltrik_backend.Prelude.Result.{ok, err}
use neltrik_backend.FileStorage.Domain.Types.{FileStatus, at, invalid_date}
use neltrik_backend.FileStorage.Domain.Scan.{AntivirusScan}
use neltrik_backend.FileStorage.Domain.Version.{FileVersion}
use neltrik_backend.FileStorage.Domain.File
use neltrik_backend.FileStorage.Domain.File.{File}
use neltrik_backend.FileStorage.Domain.File.Invariant
use neltrik_backend.FileStorage.Domain.File.Lifecycle
use neltrik_backend.FileStorage.Domain.File.Lifecycle.{Call}
use neltrik_backend.FileStorage.Mapper.{file_to_domain}
use neltrik_backend.FileStorage.Mapper.Rows
use neltrik_backend.FileStorage.Mapper.Rows.{Javascript, file_of_row, to_persistence}
use neltrik_backend.FileStorage.Accounting.{IsBalanced, used, live_bytes}
use neltrik_backend.FileStorage.Accounting.History.{run-IsBalanced}

run-IsBalanced_example : IsBalanced acme (run env history empty_world).committed
unfolding live_bytes used find_quota
run-IsBalanced_example = run-IsBalanced env acme history empty_world refl

scan_file-settles_example :
    let w = scan_file env acme (text "id") 1 (stored file) in
    (w.0 ≡ ok tt)
    × (g : File) × (find_row (text "id") w.1.committed.files ≡ some g)
    × (g.status ≡ FileStatus.ready)
    × (g.versions ≡ Version.with_scan clean_scan cv_version ∷ [])
unfolding find_by_id find_row file_to_domain File.get_latest_version text_eq Scan.create is_blank
    Version.create File.restore
scan_file-settles_example =
    scan_file-settles env acme (text "id") (stored file) file cv_version (1 ∷ 2 ∷ 3 ∷ []) refl refl
      refl refl refl refl refl (λ n. refl)

IsStuck-refused_example :
    (scan_file env acme (text "id") 1 (stored stuck) ≡ (ok tt, stored stuck))
    × ((delete_file env (text "id") (stored stuck)).0 ≡ err file_not_ready)
    × ((replace_file env replacement (stored stuck)).0 ≡ err invalid_file_status)
    × ((rename_file env (text "id") (text "new.pdf") (stored stuck)).0 ≡ err file_not_ready)
    × ((get_download_url env (text "id") (stored stuck)).0 ≡ err invalid_file_status)
unfolding find_by_id find_row file_to_domain File.get_latest_version text_eq Scan.create is_blank
    Version.create File.restore
IsStuck-refused_example =
    IsStuck-refused env acme (text "id") (text "new.pdf") replacement (stored stuck) stuck
      stuck_version refl refl refl
      (record { waiting = refl; alive = refl; latest = refl; scanned = refl })

clean_scan-IsValid : Scan.IsValid clean_scan
unfolding is_blank
clean_scan-IsValid = ground arith

cv_version-IsValid : Version.IsValid cv_version
unfolding is_blank
cv_version-IsValid = ground arith

second_version-IsValid : Version.IsValid second_version
unfolding is_blank
second_version-IsValid = ground arith

file-IsValid : Invariant.IsValid file
unfolding is_blank
file-IsValid = ground (arith, cv_version-IsValid)

run-IsValid_example : Invariant.IsValid (Lifecycle.run calls file)
run-IsValid_example =
    Lifecycle.run-IsValid calls file
      (clean_scan-IsValid, (tt, (second_version-IsValid, (tt, (tt, (tt, tt)))))) file-IsValid

run_deleted_example :
    let g = Lifecycle.run calls deleted in
    (g.status ≡ FileStatus.deleted) × (g.deleted_at ≡ some 5) × (Lifecycle.keys g ≡ key ∷ [])
run_deleted_example = Lifecycle.run_deleted calls deleted refl

call-Edge_example : Edge (Call.delete 5 6) FileStatus.ready FileStatus.deleted
unfolding Lifecycle.call File.delete
call-Edge_example =
    Diagram.call-Edge (Call.delete 5 6) ready {g = record deleted { updated_at = 6 }} refl

ready-IsValid : Invariant.IsValid ready
unfolding is_blank
ready-IsValid = ground (arith, cv_version-IsValid)

Edge-Returns_example :
    Returns (Lifecycle.call (Call.add_version 6 second_version) ready) FileStatus.pending
Edge-Returns_example =
    Diagram.Edge-Returns (Edge.replace_ready 6 second_version) ready refl ready-IsValid refl

add_version-get_total_size_example :
    get_total_size (record ready {
      versions = cv_version ∷ second_version ∷ [];
      size = 4;
      status = FileStatus.pending;
      updated_at = 6;
    })
    ≡ 7
unfolding File.add_version get_total_size
add_version-get_total_size_example = add_version-get_total_size 6 second_version ready refl

-- A time is written as a text of one unit, and every number is kept.
abbrev javascript : Javascript
javascript = record {
  to_iso_string = λ t. t ∷ [];
  parse_date = λ s. elim s [ [] ↦ invalid_date | t ∷ rest ↦ at t ];
  number = λ n. n;
  parse-to_iso_string = λ t h. refl;
  number-safe = λ n h. refl;
}

file_of_row-IsValid_example : file_of_row javascript (to_persistence javascript file) ≡ ok file
file_of_row-IsValid_example =
    Rows.file_of_row-IsValid javascript file file-IsValid (omega arith)
      ((omega arith, omega arith), tt)

update_file-locks_example :
    let w' = (update_file env Client.auto file (stored file)).1 in
    update_file env Client.auto ready w' ≡ (err optimistic_lock, w')
unfolding update_file find_row text_eq
update_file-locks_example = update_file-locks env file ready (stored file) refl refl refl

get_download_url-ready_example :
    (f : File) × (v : FileVersion) × (find_row (text "id") (stored ready).committed.files ≡ some f)
    × (f.status ≡ FileStatus.ready)
    × (sees env.scope Client.auto f.tenant_id ≡ true)
    × (File.get_latest_version f ≡ some v)
    × (text "url" ≡ env.signed_url v.storage_key 60)
unfolding get_download_url find_by_id get_signed_url text_eq file_to_domain Version.create is_blank
    File.restore File.get_latest_version
get_download_url-ready_example = get_download_url-ready env (text "id") (stored ready) refl
