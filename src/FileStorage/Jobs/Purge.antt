-- ===== src/FileStorage/Jobs/Purge.antt =====
-- The objects that the purge of deleted files keeps.
use neltrik_backend.Prelude.{
  ◌≡◌, ap, sym, ◌∙◌, ℕ, ◌-◌, ◌+◌, ◌*◌, ◌<◌, ◌&&◌, some, Option-cases, any_of_none, all_false, All,
  All-zip, All-filter_of, All-filter, Bool, true, false, Option, List, arith, inl, inr, any, filter,
  All-map, All-of_any,
}
use neltrik_backend.Prelude.Text.{Text, text_eq, text_eq_iff, includes}
use neltrik_backend.Prelude.Keeps.{
  Keeps, Keeps-for_each-All, Keeps-bind_at, Keeps-bind, Keeps-if, Keeps-pure,
}
use neltrik_backend.FileStorage.Domain.File.{File}
use neltrik_backend.FileStorage.ObjectStore.{Buffer}
use neltrik_backend.FileStorage.World.{Env, Client, WorldOf, tick, list_objects}
use neltrik_backend.FileStorage.World.Objects.{
  Holds, Holds-list_objects, Holds-delete_object, Holds-find_deleted_before,
}
use neltrik_backend.FileStorage.Repository.{
  sees, merged, in_tenant, is_deleted_before, find_deleted_before,
}
use neltrik_backend.FileStorage.Mapper.{map_result-id, file_to_domain, file_to_domain-id}
use neltrik_backend.FileStorage.Domain.Types.{FileStatus}
use neltrik_backend.FileStorage.UseCases.Keys.{tenant_prefix}
use neltrik_backend.FileStorage.Jobs.Objects.{HasKey, own_filter}
use neltrik_backend.FileStorage.Jobs.{
  known_key, purge_file, purge_files, purge_deleted_files, days_ms,
}

-- A file of the tenant that was deleted more than the days of grace before `now`.
pub record IsPurgeable (tenant : Text) (now days : ℕ) (f : File) : Type 0 where
  pub own : f.tenant_id ≡ tenant
  pub deleted : f.status ≡ FileStatus.deleted
  pub long_ago : (t : ℕ) × (f.deleted_at ≡ some t) × (t + days * 86400000 < now)

module _ (env : Env) (k : Text) (b : Option Buffer) where
  Holds-purge_file :
      (present : List Text) (dry_run : Bool) (f : File)
      → any (λ v. text_eq v.storage_key k) f.versions ≡ false
      → Keeps (Holds env k b) (purge_file env present dry_run f)
  unfolding purge_file
  Holds-purge_file present dry_run f unnamed =
      Keeps-if (any (λ v. includes present v.storage_key) f.versions) _ _
        (Keeps-for_each-All f.versions _ (
          All-map _ _ f.versions
            (λ v other.
              Keeps-if dry_run _ _ (Keeps-pure tt)
                (Holds-delete_object env k b v.storage_key other))
            (All-of_any (λ v. text_eq v.storage_key k) f.versions unnamed)))
        (Keeps-pure tt)

  purge_files-Holds :
      (tenant : Text) (dry_run : Bool) (files : List File)
      → known_key files k ≡ false
      → Keeps (Holds env k b) (purge_files env tenant dry_run files)
  unfolding purge_files known_key
  purge_files-Holds tenant dry_run files unnamed =
      Keeps-bind (list_objects env (tenant_prefix tenant)) _
        (Holds-list_objects env k b (tenant_prefix tenant))
        (λ present. Keeps-for_each-All files (purge_file env present dry_run) (
          All-map _ _ files (Holds-purge_file present dry_run)
            (All-of_any (λ f. any (λ v. text_eq v.storage_key k) f.versions) files unnamed)))

  deleted_before-IsPurgeable :
      (tenant : Text) (now days : ℕ) (f : File)
      → sees env.scope Client.auto tenant ≡ true
      → in_tenant env tenant f && is_deleted_before env (now - days_ms days) f ≡ true
      → IsPurgeable tenant now days f
  deleted_before-IsPurgeable tenant now days f seen test =
      let same = text_eq_iff (merged env.scope Client.auto tenant) f.tenant_id in
      elim (Option-cases f.deleted_at) [
        | inl alive ↦ ground arith
        | inr (t, at) ↦ record {
          own = sym (same.0 (ground arith)) ∙ own_filter env tenant seen;
          deleted = ground arith;
          long_ago = (t, at, ground arith);
        }
      ]

  unnamed_rows :
      (tenant : Text) (now days : ℕ) (rows : List File)
      → sees env.scope Client.auto tenant ≡ true
      → All (λ f. IsPurgeable tenant now days f → ¬ HasKey k f) rows
      → known_key
          (filter
            (λ f. in_tenant env tenant f && is_deleted_before env (now - days_ms days) f)
            rows)
          k
        ≡ false
  unfolding known_key
  unnamed_rows tenant now days rows seen others =
      let p =
        λ (f : File). in_tenant env tenant f && is_deleted_before env (now - days_ms days) f in
      all_false (λ f. any (λ v. text_eq v.storage_key k) f.versions) (filter p rows)
        (All-zip (λ f. p f ≡ true) (λ f. IsPurgeable tenant now days f → ¬ HasKey k f) _
          (filter p rows)
          (λ f test other.
            any_of_none (λ v. v.storage_key ≡ k) _ f.versions
              (λ v e. (text_eq_iff v.storage_key k).0 e)
              (other (deleted_before-IsPurgeable tenant now days f seen test)))
          (All-filter p rows)
          (All-filter_of (λ f. IsPurgeable tenant now days f → ¬ HasKey k f) p rows others))

  -- The purge of a tenant, by a caller that sees the tenant, leaves an object alone, whether it
  -- returns or throws, if no file of the tenant has a version under the key that was deleted more
  -- than the days of grace before the job began. So it keeps the objects of the files that are not
  -- deleted, that are deleted too recently, and of other tenants.
  pub purge_deleted_files-keeps_others :
      (tenant : Text) (days : ℕ) (dry_run : Bool) (w : WorldOf env)
      → sees env.scope Client.auto tenant ≡ true
      → All (λ f. IsPurgeable tenant (env.clock w.calls) days f → ¬ HasKey k f) w.committed.files
      → env.objects.get k w.storage ≡ b
      → env.objects.get k (purge_deleted_files env tenant days dry_run w).1.storage ≡ b
  unfolding purge_deleted_files find_deleted_before
  purge_deleted_files-keeps_others tenant days dry_run w seen others h =
      let before = env.clock w.calls - days_ms days in
      let rows =
        filter (λ f. in_tenant env tenant f && is_deleted_before env before f) w.committed.files in
      Keeps-bind_at {P = Holds env k b} (find_deleted_before env tenant before)
        (purge_files env tenant dry_run) (tick w) (Holds-find_deleted_before env k b tenant before)
        (λ files read. purge_files-Holds tenant dry_run files (
          ap (λ fs. known_key fs k) (map_result-id file_to_domain rows file_to_domain-id read)
          ∙ unnamed_rows tenant (env.clock w.calls) days w.committed.files seen others))
        h
