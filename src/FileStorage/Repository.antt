-- ===== src/FileStorage/Repository.antt =====
-- PrismaFileRepository and PrismaFileQuotaRepository: src/core/file-storage/infrastructure/repositories.
-- A table is the list of its rows. The keys, the unique indexes and the checks of the migrations
-- (prisma/migrations) make a write throw. The rows of a query come in the order of the table:
-- `orderBy` is left out.
pub mod Effects
pub mod Lock
pub mod Outcomes
use neltrik_backend.Prelude.{
  ℕ, ◌+◌, ◌-◌, Bool, true, false, not, ◌&&◌, ◌||◌, Option, none, some, List, [], ◌∷◌, ◌==◌, ltb,
  any, filter, if◌then◌else◌, is_some,
}
use neltrik_backend.Prelude.Text.{Text, text_eq}
use neltrik_backend.Prelude.Result.{Result, ok, err}
use neltrik_backend.Prelude.Exec.{◌>>=◌, pure, throw}
use neltrik_backend.FileStorage.Domain.Types.{
  Error, optimistic_lock, record_not_found, unique_violation, check_violation, FilePurpose, cv,
  avatar, document, other_purpose, is_deleted, is_ready,
}
use neltrik_backend.FileStorage.Domain.Scan.{AntivirusScan}
use neltrik_backend.FileStorage.Domain.Version
use neltrik_backend.FileStorage.Domain.File
use neltrik_backend.FileStorage.Domain.File.{File}
use neltrik_backend.FileStorage.Domain.Quota.{FileQuota}
use neltrik_backend.FileStorage.World.{Env, Client, db, set_db, WorldOf, M}
use neltrik_backend.FileStorage.Mapper.{map_result, file_to_domain, quota_to_domain}

abbrev pub purpose_eq : FilePurpose → FilePurpose → Bool
purpose_eq cv cv = true
purpose_eq avatar avatar = true
purpose_eq document document = true
purpose_eq (other_purpose s) (other_purpose t) = text_eq s t
purpose_eq _ _ = false

-- `where: { id }` on the primary key
unfoldable pub find_row : Text → List File → Option File
find_row id [] = none
find_row id (f ∷ fs) = if text_eq id f.id then some f else find_row id fs

unfoldable pub set_row : Text → File → List File → List File
set_row id g [] = []
set_row id g (f ∷ fs) = if text_eq id f.id then g ∷ fs else f ∷ set_row id g fs

-- The filter that `tenantClient` merges into a `where`; the transaction's client has none.
abbrev pub sees : Option Text → Client → Text → Bool
sees scope Client.tx tenant = true
sees none Client.auto tenant = true
sees (some s) Client.auto tenant = text_eq s tenant

-- The tenant of a `where: { tenantId }` once that filter is merged over it.
abbrev pub merged : Option Text → Client → Text → Text
merged scope Client.tx tenant = tenant
merged none Client.auto tenant = tenant
merged (some s) Client.auto tenant = s

-- A row of the partial unique index of `files`, for the same place and purpose.
abbrev pub occupies : Text → Text → Text → FilePurpose → File → Bool
occupies tenant kind id purpose f =
    text_eq tenant f.tenant_id
    && text_eq kind f.resource_type
    && text_eq id f.resource_id
    && purpose_eq purpose f.purpose
    && not (is_deleted f.status)

abbrev pub occupies_place_of : File → File → Bool
occupies_place_of g f =
    not (is_deleted g.status)
    && occupies g.tenant_id g.resource_type g.resource_id g.purpose f
    && not (text_eq g.id f.id)

unfoldable pub first_row : (File → Bool) → List File → Option File
first_row p [] = none
first_row p (f ∷ fs) = if p f then some f else first_row p fs

abbrev pub sequence_row : Option File → Result Error (Option File)
sequence_row none = ok none
sequence_row (some f) = elim (file_to_domain f) [ ok g ↦ ok (some g) | err e ↦ err e ]

unfoldable pub find_quota : Text → List FileQuota → Option FileQuota
find_quota tenant [] = none
find_quota tenant (q ∷ qs) = if text_eq tenant q.tenant_id then some q else find_quota tenant qs

unfoldable pub set_quota : Text → FileQuota → List FileQuota → List FileQuota
set_quota tenant r [] = []
set_quota tenant r (q ∷ qs) =
    if text_eq tenant q.tenant_id then r ∷ qs else q ∷ set_quota tenant r qs

module _ (env : Env) where
  abbrev put_files : Client → List File → WorldOf env → WorldOf env
  put_files c fs w = set_db c (record (db c w) { files = fs }) w

  abbrev put_quotas : Client → List FileQuota → WorldOf env → WorldOf env
  put_quotas c qs w = set_db c (record (db c w) { quotas = qs }) w

  -- `PrismaFileRepository.create`
  unfoldable pub create_file : Client → File → M env (Unit {0})
  unfolding find_row
  create_file c f w =
      if is_some (find_row f.id (db c w).files) || any (occupies_place_of f) (db c w).files
      then (err unique_violation, w)
      else (ok tt, put_files c (f ∷ (db c w).files) w)

  -- `updateMany({ where: { id, version } })`, whose count is 0 or 1: the row that it matched
  abbrev pub updated_row : Client → File → Option File → Bool
  updated_row c f none = false
  updated_row c f (some row) = row.version == f.version && sees env.scope c row.tenant_id

  -- `PrismaFileRepository.update`
  unfoldable pub update_file : Client → File → M env (Unit {0})
  unfolding find_row set_row
  update_file c f w =
      if not (updated_row c f (find_row f.id (db c w).files))
      then (err optimistic_lock, w)
      else (if any (occupies_place_of f) (db c w).files then (err unique_violation, w) else (
        ok tt,
        put_files c (set_row f.id (record f { version = f.version + 1 }) (db c w).files) w,
      ))

  abbrev seen_row : Option File → Option File
  seen_row none = none
  seen_row (some f) = if sees env.scope Client.auto f.tenant_id then some f else none

  -- `PrismaFileRepository.findById`
  unfoldable pub find_by_id : Text → M env (Option File)
  unfolding find_row
  find_by_id id w = (sequence_row (seen_row (find_row id w.committed.files)), w)

  abbrev pub in_tenant : Text → File → Bool
  in_tenant tenant f = text_eq (merged env.scope Client.auto tenant) f.tenant_id

  -- `PrismaFileRepository.findByResourceAndPurpose`
  unfoldable pub find_by_resource_and_purpose :
      Text → Text → Text → FilePurpose → M env (Option File)
  unfolding first_row
  find_by_resource_and_purpose tenant kind id purpose w = (
    sequence_row (
        first_row (occupies (merged env.scope Client.auto tenant) kind id purpose)
          w.committed.files),
    w,
  )

  -- `PrismaFileRepository.findAllByTenant`
  unfoldable pub find_all_by_tenant : Text → M env (List File)
  find_all_by_tenant tenant w =
      (map_result file_to_domain (filter (in_tenant tenant) w.committed.files), w)

  abbrev pub is_deleted_before : ℕ → File → Bool
  is_deleted_before before f =
      is_deleted f.status && elim f.deleted_at [ none ↦ false | some t ↦ ltb t before ]

  -- `PrismaFileRepository.findDeletedBefore`
  unfoldable pub find_deleted_before : Text → ℕ → M env (List File)
  find_deleted_before tenant before w = (
    map_result file_to_domain
        (filter (λ f. in_tenant tenant f && is_deleted_before before f) w.committed.files),
    w,
  )

  abbrev pub scan_is_old : ℕ → Option AntivirusScan → Bool
  scan_is_old before none = true
  scan_is_old before (some s) = ltb s.scanned_at before

  -- `!latestScan || latestScan.getScannedAt() < before`
  unfoldable pub needs_rescan : ℕ → File → Bool
  unfolding File.get_latest_version Version.get_latest_scan
  needs_rescan before f = elim (File.get_latest_version f) [
    | none ↦ true
    | some v ↦ scan_is_old before (Version.get_latest_scan v)
  ]

  -- `PrismaFileRepository.findReadyForRescan`
  unfoldable pub find_ready_for_rescan : Text → ℕ → M env (List File)
  unfolding needs_rescan
  find_ready_for_rescan tenant before w = (
    elim (map_result file_to_domain
        (filter (λ f. in_tenant tenant f && is_ready f.status) w.committed.files)) [
          | ok fs ↦ ok (filter (needs_rescan before) fs)
          | err e ↦ err e
        ],
    w,
  )

  abbrev sequence_quota : Option FileQuota → Result Error (Option FileQuota)
  sequence_quota none = ok none
  sequence_quota (some q) = elim (quota_to_domain q) [ ok r ↦ ok (some r) | err e ↦ err e ]

  -- `PrismaFileQuotaRepository.findByTenantId`
  unfoldable pub find_by_tenant_id : Text → M env (Option FileQuota)
  unfolding find_quota
  find_by_tenant_id tenant w =
      (sequence_quota (find_quota (merged env.scope Client.auto tenant) w.committed.quotas), w)

  -- `existing` of `createOrGet` (src/prisma/create-or-get), after the error P2002
  abbrev or_rethrow : Option FileQuota → M env FileQuota
  or_rethrow none = throw unique_violation
  or_rethrow (some q) = pure q

  -- `PrismaFileQuotaRepository.create`
  unfoldable pub create_quota : FileQuota → M env FileQuota
  unfolding find_quota find_by_tenant_id
  create_quota q w =
      if is_some (find_quota q.tenant_id w.committed.quotas)
      then (find_by_tenant_id q.tenant_id >>= or_rethrow) w
      else (quota_to_domain q, put_quotas Client.auto (q ∷ w.committed.quotas) w)

  abbrev write_quota :
      Client → Text → Option FileQuota → (FileQuota → Result Error FileQuota) → M env (Unit {0})
  write_quota c tenant none change w = (err record_not_found, w)
  write_quota c tenant (some q) change w = elim (change q) [
    | ok r ↦ (ok tt, put_quotas c (set_quota tenant r (db c w).quotas) w)
    | err e ↦ (err e, w)
  ]

  -- `PrismaFileQuotaRepository.incrementUsedBytes`
  unfoldable pub increment_used_bytes : Client → Text → ℕ → M env (Unit {0})
  unfolding find_quota set_quota
  increment_used_bytes c tenant delta w =
      write_quota c (merged env.scope c tenant)
        (find_quota (merged env.scope c tenant) (db c w).quotas)
        (λ q. ok (record q { used_bytes = q.used_bytes + delta })) w

  -- `PrismaFileQuotaRepository.decrementUsedBytes`, under `CHECK ("used_bytes" >= 0)`
  unfoldable pub decrement_used_bytes : Client → Text → ℕ → M env (Unit {0})
  unfolding find_quota set_quota
  decrement_used_bytes c tenant delta w =
      write_quota c (merged env.scope c tenant)
        (find_quota (merged env.scope c tenant) (db c w).quotas)
        (λ q.
          if ltb q.used_bytes delta
          then err check_violation
          else ok (record q { used_bytes = q.used_bytes - delta }))
        w

  -- `PrismaFileQuotaRepository.update`; a tenant has one row, so its key finds it
  unfoldable pub update_quota : FileQuota → M env (Unit {0})
  unfolding find_quota set_quota
  update_quota q w =
      if sees env.scope Client.auto q.tenant_id
      then write_quota Client.auto q.tenant_id (find_quota q.tenant_id w.committed.quotas)
          (λ _. ok q) w
      else (err record_not_found, w)
