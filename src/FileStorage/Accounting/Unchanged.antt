-- ===== src/FileStorage/Accounting/Unchanged.antt =====
-- The calls that change a row and not its bytes: rename, change of resource, the scan job; and those that
-- write quotas or objects only.
use neltrik_backend.Prelude.{ℕ, ◌≡◌, ◌+◌, refl, ap, some, List, arith, inl, inr, Option-cases, Bool}
use neltrik_backend.Prelude.Text.{Text, text_eq_iff}
use neltrik_backend.Prelude.Result.{ok, Result-cases}
use neltrik_backend.Prelude.Keeps.{Keeps, keeps_rules}
use neltrik_backend.FileStorage.Domain.Types.{is_deleted}
use neltrik_backend.FileStorage.Domain.Scan.{AntivirusScan}
use neltrik_backend.FileStorage.Domain.Version.{FileVersion}
use neltrik_backend.FileStorage.Domain.File
use neltrik_backend.FileStorage.Domain.File.{File, get_total_size}
use neltrik_backend.FileStorage.Domain.File.Size.{add_scan_to_latest_version-get_total_size}
use neltrik_backend.FileStorage.Domain.Quota
use neltrik_backend.FileStorage.Domain.Quota.{FileQuota}
use neltrik_backend.FileStorage.World.{Env, Db, Client, WorldOf, download_object, scan_buffer}
use neltrik_backend.FileStorage.World.Effects.{
  OfCommitted, Keeps-new_date, Keeps-download_object, Keeps-scan_buffer, Keeps-delete_object,
  Keeps-list_objects,
}
use neltrik_backend.FileStorage.Repository.{
  find_row, find_by_resource_and_purpose, update_file, update_quota, merged,
}
use neltrik_backend.FileStorage.Repository.Outcomes.{
  Found, find_by_id-cases, FoundQuota, find_by_tenant_id-cases,
}
use neltrik_backend.FileStorage.Repository.Effects.{Keeps-find_deleted_before}
use neltrik_backend.FileStorage.UseCases.Files.{rename_file, change_file_resource}
use neltrik_backend.FileStorage.UseCases.Quota.{adjust_quota_limit}
use neltrik_backend.FileStorage.Jobs.{
  expected_version, settle_scan, scan_version, scan_pending, scan_file, purge_file, purge_files,
  purge_deleted_files,
}
use neltrik_backend.FileStorage.Accounting.{
  share, used, IsBalanced, IsBalanced-set_row, find_row-id, find_quota-tenant_id, used-set_quota,
}

-- Two states of a file that differ in nothing that the books count.
record SameBytes (f g : File) : Type 0 where
  same_id : g.id ≡ f.id
  same_tenant : g.tenant_id ≡ f.tenant_id
  same_size : get_total_size g ≡ get_total_size f
  same_deletion : is_deleted g.status ≡ is_deleted f.status

share-stored :
    (t : Text) (f g : File)
    → SameBytes f g
    → share t (record g { version = g.version + 1 }) ≡ share t f
unfolding share get_total_size
share-stored t f g s = ground (arith, text_eq_iff t f.tenant_id, text_eq_iff t g.tenant_id)

add_scan_lem :
    (now : ℕ) (scan : AntivirusScan) (f g : File)
    → File.add_scan_to_latest_version now scan f ≡ ok g
    → (g.id ≡ f.id) × (g.tenant_id ≡ f.tenant_id) × (g.status ≡ f.status)
unfolding File.add_scan_to_latest_version
add_scan_lem now scan f g e = ground arith

module _ (env : Env) (t : Text) where
  update_file-IsBalanced :
      (f g : File) (w : WorldOf env)
      → SameBytes f g
      → find_row f.id w.committed.files ≡ some f
      → IsBalanced t w.committed
      → IsBalanced t (update_file env Client.auto g w).1.committed
  unfolding update_file
  update_file-IsBalanced f g w s row h = ground (
    arith,
    IsBalanced-set_row t f.id w.committed f (record g { version = g.version + 1 }) row
        (share-stored t f g s) h,
  )

  rename-SameBytes :
      (now : ℕ) (name : Text) (f g : File) → File.rename now name f ≡ ok g → SameBytes f g
  unfolding File.rename get_total_size
  rename-SameBytes now name f g e = ground arith

  change_resource-SameBytes :
      (now : ℕ) (kind id : Text) (f g : File)
      → File.change_resource now kind id f ≡ ok g
      → SameBytes f g
  unfolding File.change_resource get_total_size
  change_resource-SameBytes now kind id f g e = ground arith

  pub rename_file-IsBalanced :
      (id name : Text) (w : WorldOf env)
      → IsBalanced t w.committed
      → IsBalanced t (rename_file env id name w).1.committed
  unfolding rename_file
  rename_file-IsBalanced id name w h = elim (find_by_id-cases env id w) [
    | Found.throws x there ↦ ground arith
    | Found.absent there ↦ ground arith
    | Found.present f there row seen ↦
        elim (Result-cases (File.rename (env.clock w.calls) name f)) [
          | inr (x, e) ↦ ground arith
          | inl (g, e) ↦ ground (
            arith,
            find_row-id id w.committed.files f row,
            rename-SameBytes (env.clock w.calls) name f g e,
            update_file-IsBalanced f g (record w { calls = w.calls + 1 })
                (rename-SameBytes (env.clock w.calls) name f g e),
          )
        ]
  ]

  pub change_file_resource-IsBalanced :
      (id kind place : Text) (w : WorldOf env)
      → IsBalanced t w.committed
      → IsBalanced t (change_file_resource env id kind place w).1.committed
  unfolding change_file_resource find_by_resource_and_purpose
  change_file_resource-IsBalanced id kind place w h = elim (find_by_id-cases env id w) [
    | Found.throws x there ↦ ground arith
    | Found.absent there ↦ ground arith
    | Found.present f there row seen ↦
        elim (Result-cases (File.change_resource (env.clock w.calls) kind place f)) [
          | inr (x, e) ↦ ground arith
          | inl (g, e) ↦ ground (
            arith,
            find_row-id id w.committed.files f row,
            update_file-IsBalanced f g (record w { calls = w.calls + 1 })
                (change_resource-SameBytes (env.clock w.calls) kind place f g e),
          )
        ]
  ]

  pub adjust_quota_limit-IsBalanced :
      (tenant : Text) (limit : ℕ) (w : WorldOf env)
      → IsBalanced t w.committed
      → IsBalanced t (adjust_quota_limit env tenant limit w).1.committed
  unfolding adjust_quota_limit Quota.adjust_limit update_quota used
  adjust_quota_limit-IsBalanced tenant limit w h = elim (find_by_tenant_id-cases env tenant w) [
    | FoundQuota.throws x there ↦ ground arith
    | FoundQuota.absent there nothing ↦ ground arith
    | FoundQuota.present q there row ↦ ground (
      arith,
      find_quota-tenant_id (merged env.scope Client.auto tenant) w.committed.quotas q row,
      text_eq_iff t q.tenant_id,
      used-set_quota t q.tenant_id w.committed.quotas q
          (record q { limit_bytes = limit; updated_at = env.clock w.calls }),
    )
  ]

  add_scan-SameBytes :
      (now : ℕ) (scan : AntivirusScan) (f g : File)
      → File.add_scan_to_latest_version now scan f ≡ ok g
      → (SameBytes f g) × (g.status ≡ f.status)
  add_scan-SameBytes now scan f g e = (
    record {
      same_id = (add_scan_lem now scan f g e).0;
      same_tenant = (add_scan_lem now scan f g e).1;
      same_size = add_scan_to_latest_version-get_total_size now scan f e;
      same_deletion = ap is_deleted (add_scan_lem now scan f g e).2;
    },
    (add_scan_lem now scan f g e).2,
  )

  settle_scan-SameBytes :
      (later : ℕ) (scan : AntivirusScan) (f g h : File) (w : WorldOf env)
      → SameBytes f g
      → (settle_scan env later scan g w).0 ≡ ok h
      → SameBytes f h
  unfolding settle_scan File.mark_ready File.mark_infected get_total_size
  settle_scan-SameBytes later scan f g h w s e = ground arith

  settle_scan-world :
      (later : ℕ) (scan : AntivirusScan) (g : File) (w : WorldOf env)
      → (settle_scan env later scan g w).1 ≡ w
  unfolding settle_scan
  settle_scan-world later scan g w = ground arith

  -- The scan of a version that has been read: what follows the calls of the services.
  scan_version-IsBalanced :
      (f : File) (v : FileVersion) (w : WorldOf env)
      → find_row f.id w.committed.files ≡ some f
      → IsBalanced t w.committed
      → IsBalanced t (scan_version env f v w).1.committed
  unfolding scan_version
  scan_version-IsBalanced f v w row h =
      let w₁ : WorldOf env = (download_object env v.storage_key w).1 in
      let c₁ : w₁.committed ≡ w.committed =
        (Keeps-download_object env (λ d. d ≡ w.committed) v.storage_key).run w refl in
      elim (Result-cases (download_object env v.storage_key w).0) [
        | inr (x, e) ↦ ground arith
        | inl (b, e) ↦
            let w₂ : WorldOf env = (scan_buffer env b w₁).1 in
            let c₂ : w₂.committed ≡ w.committed =
              (Keeps-scan_buffer env (λ d. d ≡ w.committed) b).run w₁ c₁ in
            elim (Result-cases (scan_buffer env b w₁).0) [
              | inr (x, e₂) ↦ ground arith
              | inl (s, e₂) ↦
                  elim (Result-cases (File.add_scan_to_latest_version (env.clock w₂.calls) s f)) [
                    | inr (x, e₃) ↦ ground arith
                    | inl (g, e₃) ↦
                        let w₃ : WorldOf env = record w₂ { calls = w₂.calls + 1 + 1 } in
                        elim (Result-cases (settle_scan env (env.clock (w₂.calls + 1)) s g w₃).0) [
                          | inr (x, e₄) ↦
                              ground (arith, settle_scan-world (env.clock (w₂.calls + 1)) s g w₃)
                          | inl (k, e₄) ↦ ground (
                            arith,
                            settle_scan-world (env.clock (w₂.calls + 1)) s g w₃,
                            update_file-IsBalanced f k w₃ (
                                settle_scan-SameBytes (env.clock (w₂.calls + 1)) s f g k w₃
                                  (add_scan-SameBytes (env.clock w₂.calls) s f g e₃).0 e₄),
                          )
                        ]
                  ]
            ]
      ]

  scan_pending-IsBalanced :
      (n : ℕ) (f : File) (w : WorldOf env)
      → find_row f.id w.committed.files ≡ some f
      → IsBalanced t w.committed
      → IsBalanced t (scan_pending env n f w).1.committed
  unfolding scan_pending
  scan_pending-IsBalanced n f w row h =
      elim (Option-cases (expected_version n (File.get_latest_version f))) [
        | inl absent ↦ ground arith
        | inr (v, e) ↦ ground (arith, scan_version-IsBalanced f v w row h)
      ]

  pub scan_file-IsBalanced :
      (tenant id : Text) (n : ℕ) (w : WorldOf env)
      → IsBalanced t w.committed
      → IsBalanced t (scan_file env tenant id n w).1.committed
  unfolding scan_file
  scan_file-IsBalanced tenant id n w h = elim (find_by_id-cases env id w) [
    | Found.throws x there ↦ ground arith
    | Found.absent there ↦ ground arith
    | Found.present f there row seen ↦
        ground (arith, find_row-id id w.committed.files f row, scan_pending-IsBalanced n f w)
  ]

  purge_file-Keeps :
      (P : Db → Type 0) (present : List Text) (dry_run : Bool) (f : File)
      → Keeps (OfCommitted env P) (purge_file env present dry_run f)
  unfolding purge_file
  purge_file-Keeps P present dry_run f = search (keeps_rules, Keeps-delete_object) depth 8

  purge_files-Keeps :
      (P : Db → Type 0) (tenant : Text) (dry_run : Bool) (files : List File)
      → Keeps (OfCommitted env P) (purge_files env tenant dry_run files)
  unfolding purge_files
  purge_files-Keeps P tenant dry_run files =
      search (keeps_rules, Keeps-list_objects, purge_file-Keeps) depth 8

  pub purge_deleted_files-Keeps :
      (P : Db → Type 0) (tenant : Text) (days : ℕ) (dry_run : Bool)
      → Keeps (OfCommitted env P) (purge_deleted_files env tenant days dry_run)
  unfolding purge_deleted_files
  purge_deleted_files-Keeps P tenant days dry_run =
      search (keeps_rules, Keeps-new_date, Keeps-find_deleted_before, purge_files-Keeps) depth 10
