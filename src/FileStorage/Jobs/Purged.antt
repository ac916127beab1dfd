-- ===== src/FileStorage/Jobs/Purged.antt =====
-- The objects that the purge of deleted files deletes.
use mathlib.Core.Path.{subst}
use neltrik_backend.Prelude.{
  ◌≡◌, sym, ◌∙◌, ap, ℕ, ◌-◌, Bool, true, false, ◌&&◌, none, List, arith, inl, inr, Option-cases,
  filter, Any, Any-map, Any-filter, any_of_Any, is_some,
}
use neltrik_backend.Prelude.Text.{Text, text_eq_iff, includes}
use neltrik_backend.Prelude.Result.{ok}
use neltrik_backend.Prelude.Exec.{for_each}
use neltrik_backend.Prelude.Keeps.{Keeps, keeps_rules}
use neltrik_backend.Prelude.Leads.{Leads, Leads-for_each}
use neltrik_backend.Prelude.Yields.{bind-Returned}
use neltrik_backend.FileStorage.Domain.File.{File}
use neltrik_backend.FileStorage.ObjectStore.{starts_with}
use neltrik_backend.FileStorage.Mapper.{map_result-id, file_to_domain, file_to_domain-id}
use neltrik_backend.FileStorage.World.{Env, Client, WorldOf, tick, list_objects, delete_object}
use neltrik_backend.FileStorage.World.Objects.{
  Holds, Holds-new_date, Holds-list_objects, Holds-find_deleted_before,
}
use neltrik_backend.FileStorage.Repository.{
  sees, merged, in_tenant, is_deleted_before, find_deleted_before,
}
use neltrik_backend.FileStorage.UseCases.Keys.{tenant_prefix}
use neltrik_backend.FileStorage.Jobs.Objects.{HasKey, own_filter}
use neltrik_backend.FileStorage.Jobs.Purge.{IsPurgeable}
use neltrik_backend.FileStorage.Jobs.{purge_file, purge_files, purge_deleted_files, days_ms}

module _ (env : Env) (k : Text) where
  -- There is no object under the key.
  abbrev IsGone : WorldOf env → Type 0
  IsGone = Holds env k none

  IsGone-delete_object : (j : Text) → Keeps IsGone (delete_object env j)
  unfolding delete_object
  IsGone-delete_object j = record {
    run = λ w h. ground (arith, env.objects.get-remove k j w.storage);
  }

  delete_object-IsGone : (j : Text) → j ≡ k → Leads (λ _. Unit {0}) IsGone (delete_object env j)
  unfolding delete_object
  delete_object-IsGone j same = record {
    run = λ w h a e. ground (arith, env.objects.get-remove k j w.storage, (text_eq_iff j k).1 same);
  }

  IsGone-purge_file :
      (present : List Text) (dry_run : Bool) (f : File)
      → Keeps IsGone (purge_file env present dry_run f)
  unfolding purge_file
  IsGone-purge_file present dry_run f = search (keeps_rules, IsGone-delete_object) depth 8

  IsGone-purge_deleted_files :
      (tenant : Text) (days : ℕ) (dry_run : Bool)
      → Keeps IsGone (purge_deleted_files env tenant days dry_run)
  unfolding purge_deleted_files purge_files
  IsGone-purge_deleted_files tenant days dry_run =
      search
        (
          keeps_rules, Holds-new_date, Holds-list_objects, Holds-find_deleted_before,
          IsGone-purge_file,
        )
        depth 8

  purge_file-IsGone :
      (present : List Text) (f : File)
      → includes present k ≡ true
      → HasKey k f
      → Leads (λ _. Unit {0}) IsGone (purge_file env present false f)
  unfolding purge_file
  purge_file-IsGone present f listed named =
      rw
        (any_of_Any (λ v. v.storage_key ≡ k) (λ v. includes present v.storage_key) f.versions
          (λ v e. ap (includes present) e ∙ listed) named)
        (Leads-for_each f.versions _ (λ v. IsGone-delete_object v.storage_key)
          (Any-map (λ v. v.storage_key ≡ k) _ f.versions
            (λ v e. delete_object-IsGone v.storage_key e) named))

  list_objects-listed :
      (prefix : Text) (w : WorldOf env) {present : List Text}
      → (list_objects env prefix w).0 ≡ ok present
      → starts_with prefix k ≡ true
      → is_some (env.objects.get k w.storage) ≡ true
      → includes present k ≡ true
  unfolding list_objects
  list_objects-listed prefix w returned under there =
      ground (arith, env.objects.includes-list prefix k w.storage)

  purge_files-IsGone :
      (tenant : Text) (files : List File) (w : WorldOf env)
      → starts_with (tenant_prefix tenant) k ≡ true
      → is_some (env.objects.get k w.storage) ≡ true
      → Any (HasKey k) files
      → (purge_files env tenant false files w).0 ≡ ok tt
      → IsGone (purge_files env tenant false files w).1
  unfolding purge_files
  purge_files-IsGone tenant files w under there named returned =
      let loop = λ (present : List Text). for_each files (purge_file env present false) in
      let q = bind-Returned (list_objects env (tenant_prefix tenant)) loop w returned in
      let listed = list_objects-listed (tenant_prefix tenant) w q.first under there in
      subst (λ r. IsGone r.1) (sym q.world)
        ((Leads-for_each files (purge_file env q.value false) (IsGone-purge_file q.value false)
            (Any-map (HasKey k) _ files (λ f h. purge_file-IsGone q.value f listed h) named)).run
          (list_objects env (tenant_prefix tenant) w).1 tt tt q.rest)

  IsPurgeable-deleted_before :
      (tenant : Text) (now days : ℕ) (f : File)
      → sees env.scope Client.auto tenant ≡ true
      → IsPurgeable tenant now days f
      → in_tenant env tenant f && is_deleted_before env (now - days_ms days) f ≡ true
  IsPurgeable-deleted_before tenant now days f seen p =
      let same =
        (text_eq_iff (merged env.scope Client.auto tenant) f.tenant_id).1
          (own_filter env tenant seen ∙ sym p.own) in
      ground (arith, p.deleted, p.long_ago.1, p.long_ago.2)

  -- The purge of a tenant, by a caller that sees the tenant and not as a dry run, has returned: then
  -- there is no object under the key of a version of a file of the tenant that was deleted more than
  -- the days of grace before the job began, if the key has the prefix of the tenant.
  pub purge_deleted_files-deletes :
      (tenant : Text) (days : ℕ) (w : WorldOf env)
      → sees env.scope Client.auto tenant ≡ true
      → Any (λ f. IsPurgeable tenant (env.clock w.calls) days f × HasKey k f) w.committed.files
      → starts_with (tenant_prefix tenant) k ≡ true
      → (purge_deleted_files env tenant days false w).0 ≡ ok tt
      → env.objects.get k (purge_deleted_files env tenant days false w).1.storage ≡ none
  unfolding purge_deleted_files find_deleted_before
  purge_deleted_files-deletes tenant days w seen row under returned =
      let now = env.clock w.calls in
      let test =
        λ (f : File). in_tenant env tenant f && is_deleted_before env (now - days_ms days) f in
      let r =
        bind-Returned (find_deleted_before env tenant (now - days_ms days))
          (purge_files env tenant false) (tick w) returned in
      let files =
        map_result-id file_to_domain (filter test w.committed.files) file_to_domain-id r.first in
      let named : Any (HasKey k) r.value = subst (Any (HasKey k)) (sym files) (
        Any-map (λ f. IsPurgeable tenant now days f × HasKey k f) (HasKey k)
          (filter test w.committed.files) (λ f h. h.1)
          (Any-filter (λ f. IsPurgeable tenant now days f × HasKey k f) test w.committed.files
            (λ f h. IsPurgeable-deleted_before tenant now days f seen h.0) row)) in
      elim (Option-cases (env.objects.get k w.storage)) [
        | inl gone ↦ (IsGone-purge_deleted_files tenant days false).run w gone
        | inr (b, there) ↦
            subst (λ q. IsGone q.1) (sym r.world)
              (purge_files-IsGone tenant r.value (tick w) under (ap is_some there) named r.rest)
      ]
