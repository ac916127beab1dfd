-- ===== src/FileStorage/Jobs/Scanning.antt =====
-- The scan job, verdict by verdict, and the files that a failed scan leaves behind.
use neltrik_backend.FileStorage.Accounting.{find_row-id}
use neltrik_backend.Prelude.{
  any, ℕ, ◌≡◌, ◌+◌, refl, true, false, none, some, [], ◌∷◌, ◌++◌, arith, inl, inr, is_empty, ◌⊎◌,
  drop_last,
}
use neltrik_backend.Prelude.Text.{Text, text_eq_iff}
use neltrik_backend.Prelude.Result.{ok, err}
use neltrik_backend.FileStorage.Domain.Types.{
  FileStatus, ScanStatus, clean, infected, error, file_not_ready, invalid_file_status,
}
use neltrik_backend.FileStorage.Domain.Scan.{AntivirusScan}
use neltrik_backend.FileStorage.Domain.Version
use neltrik_backend.FileStorage.Domain.Version.{FileVersion}
use neltrik_backend.FileStorage.Domain.File
use neltrik_backend.FileStorage.Domain.File.{File}
use neltrik_backend.FileStorage.ObjectStore.{Buffer}
use neltrik_backend.FileStorage.World.{
  Env, Client, WorldOf, tick, transaction, download_object, scan_buffer,
}
use neltrik_backend.FileStorage.Repository.Outcomes.{
  find_by_id-find_row, find_by_id-pending, find_row-set_row, occupies_place_of-any,
}
use neltrik_backend.FileStorage.Repository.{
  sees, find_by_id, find_row, set_row, update_file, occupies_place_of,
}
use neltrik_backend.FileStorage.UseCases.Files.{
  delete_file, delete_in_transaction, rename_file, get_download_url,
}
use neltrik_backend.FileStorage.UseCases.Replace
use neltrik_backend.FileStorage.UseCases.Replace.{ReplaceFileInput, replace_file}
use neltrik_backend.FileStorage.Jobs.{scan_file, scan_pending, scan_version, settle_scan}

-- The status that the verdict gives to a pending file.
abbrev pub status_after : AntivirusScan → FileStatus
status_after s = elim s.status [
  | clean ↦ FileStatus.ready
  | infected ↦ FileStatus.infected
  | error ↦ FileStatus.pending
]

-- A pending file with its latest version scanned but not settled: what a failed scan leaves.
pub record IsStuck (f : File) (v : FileVersion) : Type 0 where
  pub waiting : f.status ≡ FileStatus.pending
  pub alive : f.deleted_at ≡ none
  pub latest : File.get_latest_version f ≡ some v
  pub scanned : is_empty v.scans ≡ false

ScanStatus-cases : (s : ScanStatus) → (s ≡ clean) ⊎ ((s ≡ infected) ⊎ (s ≡ error))
ScanStatus-cases clean = inl refl
ScanStatus-cases infected = inr (inl refl)
ScanStatus-cases error = inr (inr refl)

-- The row that the scan job writes.
abbrev scanned_row : (ℕ → ℕ) → ℕ → AntivirusScan → FileVersion → File → File
scanned_row clock n s v f = record f {
  status = status_after s;
  versions = drop_last f.versions ++ Version.with_scan s v ∷ [];
  updated_at = elim s.status [ clean ↦ clock (n + 1) | infected ↦ clock (n + 1) | error ↦ clock n ];
}

module _ (env : Env) where
  scan_file-scan_version :
      (tenant id : Text) (w : WorldOf env) (f : File) (v : FileVersion)
      → find_by_id env id w ≡ (ok (some f), w)
      → f.tenant_id ≡ tenant
      → f.status ≡ FileStatus.pending
      → File.get_latest_version f ≡ some v
      → v.scans ≡ []
      → scan_file env tenant id v.version w ≡ scan_version env f v w
  unfolding scan_file scan_pending
  scan_file-scan_version tenant id w f v found same waiting latest fresh =
      ground (arith, text_eq_iff f.tenant_id tenant)

  scan_version-update_file :
      (w : WorldOf env) (f : File) (v : FileVersion) (b : Buffer)
      → f.status ≡ FileStatus.pending
      → File.get_latest_version f ≡ some v
      → env.objects.get v.storage_key w.storage ≡ some b
      → ((n : ℕ) → env.fault n ≡ false)
      → scan_version env f v w
        ≡ update_file env Client.auto
            (scanned_row env.clock (w.calls + 2) (env.verdict (w.calls + 1) b) v f)
            (tick (tick (tick (tick w))))
  unfolding scan_version settle_scan File.add_scan_to_latest_version File.mark_ready
      File.mark_infected download_object scan_buffer File.get_latest_version Version.with_scan
  scan_version-update_file w f v b waiting latest object calm =
      elim (ScanStatus-cases (env.verdict (w.calls + 1) b).status) [
        | inl c ↦ ground (arith, calm w.calls, calm (w.calls + 1))
        | inr (inl i) ↦ ground (arith, calm w.calls, calm (w.calls + 1))
        | inr (inr e) ↦ ground (arith, calm w.calls, calm (w.calls + 1))
      ]

  scanned_row-update_file :
      (id : Text) (w : WorldOf env) (f : File) (v : FileVersion) (n : ℕ) (s : AntivirusScan)
      → find_row id w.committed.files ≡ some f
      → sees env.scope Client.auto f.tenant_id ≡ true
      → f.status ≡ FileStatus.pending
      → any (occupies_place_of f) w.committed.files ≡ false
      → let g = scanned_row env.clock n s v f in
        update_file env Client.auto g w ≡ (
          ok tt,
          record w {
            committed = record w.committed {
              files = set_row id (record g { version = f.version + 1 }) w.committed.files;
            };
          },
        )
  unfolding update_file find_row set_row
  scanned_row-update_file id w f v n s row visible waiting free =
      let g = scanned_row env.clock n s v f in
      elim (ScanStatus-cases s.status) [
        | inl c ↦ ground (
          arith,
          find_row-id id w.committed.files f row,
          occupies_place_of-any f g w.committed.files refl refl refl refl refl,
        )
        | inr (inl i) ↦ ground (
          arith,
          find_row-id id w.committed.files f row,
          occupies_place_of-any f g w.committed.files refl refl refl refl refl,
        )
        | inr (inr e) ↦ ground (
          arith,
          find_row-id id w.committed.files f row,
          occupies_place_of-any f g w.committed.files refl refl refl refl refl,
        )
      ]

  -- If no call throws, the scan job for the latest version of a pending file, not yet scanned,
  -- returns, provided that the query finds the file under its tenant, that the object of the
  -- version is there, and that no other row claims the place of the file: the file has got the
  -- status of the verdict (READY, INFECTED, or PENDING still when the antivirus failed), its latest
  -- version has the scan, and the other versions are as they were.
  pub scan_file-settles :
      (tenant id : Text) (w : WorldOf env) (f : File) (v : FileVersion) (b : Buffer)
      → find_by_id env id w ≡ (ok (some f), w)
      → f.tenant_id ≡ tenant
      → f.status ≡ FileStatus.pending
      → File.get_latest_version f ≡ some v
      → v.scans ≡ []
      → env.objects.get v.storage_key w.storage ≡ some b
      → any (occupies_place_of f) w.committed.files ≡ false
      → ((n : ℕ) → env.fault n ≡ false)
      → let s = env.verdict (w.calls + 1) b in
        let (r, w') = scan_file env tenant id v.version w in
        (r ≡ ok tt)
        × (g : File) × (find_row id w'.committed.files ≡ some g)
        × (g.status ≡ status_after s)
        × (g.versions ≡ drop_last f.versions ++ Version.with_scan s v ∷ [])
  scan_file-settles tenant id w f v b found same waiting latest fresh object free calm =
      let (row, visible) = find_by_id-find_row env id w f found in
      let s = env.verdict (w.calls + 1) b in
      let g = scanned_row env.clock (w.calls + 2) s v f in
      rw
        (
          scan_file-scan_version tenant id w f v found same waiting latest fresh,
          scan_version-update_file w f v b waiting latest object calm,
          scanned_row-update_file id (tick (tick (tick (tick w)))) f v (w.calls + 2) s row visible
              waiting free,
        )
        (
          refl,
          record g { version = f.version + 1 },
          find_row-set_row id (record g { version = f.version + 1 }) w.committed.files row
              (find_row-id id w.committed.files f row),
          refl,
          refl,
        )

  -- A pending file, not deleted, whose latest version is scanned already, as a failed scan leaves
  -- it, and that the query finds: the scan job of that version returns and changes nothing, and
  -- deletion, replacement, renaming, and a download are refused.
  pub IsStuck-refused :
      (tenant id name : Text) (input : ReplaceFileInput) (w : WorldOf env) (f : File)
      (v : FileVersion)
      → find_by_id env id w ≡ (ok (some f), w)
      → f.tenant_id ≡ tenant
      → input.file_id ≡ id
      → IsStuck f v
      → (scan_file env tenant id v.version w ≡ (ok tt, w))
        × ((delete_file env id w).0 ≡ err file_not_ready)
        × ((replace_file env input w).0 ≡ err invalid_file_status)
        × ((rename_file env id name w).0 ≡ err file_not_ready)
        × ((get_download_url env id w).0 ≡ err invalid_file_status)
  unfolding scan_file scan_pending delete_file delete_in_transaction transaction File.delete
      rename_file replace_file Replace.find_and_validate get_download_url File.rename
  IsStuck-refused tenant id name input w f v found same named stuck =
      let again = find_by_id-pending env id w w.committed f found in
      (
        ground (arith, text_eq_iff f.tenant_id tenant),
        ground arith,
        ground arith,
        ground arith,
        ground arith,
      )
