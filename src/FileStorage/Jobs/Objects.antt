-- ===== src/FileStorage/Jobs/Objects.antt =====
-- The objects that the reconciliation keeps, and dry runs of the reconciliation and the purge.
use neltrik_backend.Prelude.{
  ◌≡◌, refl, ap, sym, ◌∙◌, ℕ, Option-cases, Any, any_of_Any, All-filter, Any-filter, Bool, true,
  false, not, Option, List, arith, inl, inr, Bool-cases, filter, All-map,
}
use neltrik_backend.Prelude.Text.{Text, text_eq, text_eq_iff}
use neltrik_backend.Prelude.Exec.{for_each}
use neltrik_backend.Prelude.Keeps.{Keeps, keeps_rules, Keeps-for_each-All, Keeps-bind_at}
use neltrik_backend.FileStorage.Domain.File.{File}
use neltrik_backend.FileStorage.ObjectStore.{Buffer}
use neltrik_backend.FileStorage.World.{Env, Client, WorldOf, delete_object}
use neltrik_backend.FileStorage.World.Objects.{
  Holds, Holds-new_date, Holds-list_objects, Holds-delete_object, Holds-update_file,
  Holds-find_all_by_tenant, Holds-find_deleted_before,
}
use neltrik_backend.FileStorage.Repository.{sees, merged, in_tenant, find_all_by_tenant}
use neltrik_backend.FileStorage.Mapper.{map_result-id, file_to_domain, file_to_domain-id}
use neltrik_backend.FileStorage.Jobs.{
  known_key, orphan_file, reconcile_files, reconcile_storage, purge_file, purge_files,
  purge_deleted_files,
}

-- The file has a version whose object is stored under the key.
abbrev pub HasKey : Text → File → Type 0
HasKey k f = Any (λ v. v.storage_key ≡ k) f.versions

module _ (env : Env) where
  -- The caller's filter, if there is one, is that of the tenant: such a caller queries its rows.
  pub own_filter :
      (tenant : Text)
      → sees env.scope Client.auto tenant ≡ true
      → merged env.scope Client.auto tenant ≡ tenant
  own_filter tenant seen = elim (Option-cases env.scope) [
    | inl free ↦ rw free refl
    | inr (s, filtered) ↦ rw filtered ((text_eq_iff s tenant).0 (rw filtered at seen))
  ]

module _ (env : Env) (k : Text) (b : Option Buffer) where
  -- A key that the list of known files holds differs from every key that it does not hold.
  unknown_differs :
      (files : List File) (j : Text)
      → known_key files k ≡ true
      → not (known_key files j) ≡ true
      → text_eq j k ≡ false
  unknown_differs files j known unknown = elim (Bool-cases (text_eq j k)) [
    | inl it ↦ absurd (not_both (ap (known_key files) ((text_eq_iff j k).0 it)))
    | inr other ↦ other
  ]
    where
      not_both : known_key files j ≡ known_key files k → ⊥
      not_both e = ground arith

  Holds-orphan_file : (f : File) → Keeps (Holds env k b) (orphan_file env f)
  unfolding orphan_file
  Holds-orphan_file f = search (keeps_rules, Holds-new_date, Holds-update_file) depth 8

  Holds-delete_unknown :
      (files : List File) (present : List Text)
      → known_key files k ≡ true
      → Keeps
          (Holds env k b)
          (for_each (filter (λ j. not (known_key files j)) present) (λ j. delete_object env j))
  Holds-delete_unknown files present known = Keeps-for_each-All _ _ (
      All-map _ _ _
        (λ j unknown. Holds-delete_object env k b j (unknown_differs files j known unknown))
        (All-filter (λ j. not (known_key files j)) present))

  reconcile_files-Holds :
      (tenant : Text) (dry_run : Bool) (files : List File)
      → known_key files k ≡ true
      → Keeps (Holds env k b) (reconcile_files env tenant dry_run files)
  unfolding reconcile_files
  reconcile_files-Holds tenant dry_run files known =
      search (keeps_rules, Holds-list_objects, Holds-orphan_file, Holds-delete_unknown) depth 8

  in_tenant-own :
      (tenant : Text) (f : File)
      → sees env.scope Client.auto tenant ≡ true
      → f.tenant_id ≡ tenant
      → in_tenant env tenant f ≡ true
  in_tenant-own tenant f seen own =
      (text_eq_iff (merged env.scope Client.auto tenant) f.tenant_id).1
        (own_filter env tenant seen ∙ sym own)

  known_key-row :
      (tenant : Text) (rows : List File)
      → sees env.scope Client.auto tenant ≡ true
      → Any (λ f. (f.tenant_id ≡ tenant) × HasKey k f) rows
      → known_key (filter (in_tenant env tenant) rows) k ≡ true
  unfolding known_key
  known_key-row tenant rows seen row =
      any_of_Any (λ f. (f.tenant_id ≡ tenant) × HasKey k f) _ (filter (in_tenant env tenant) rows)
        (λ f h.
          any_of_Any (λ v. v.storage_key ≡ k) _ f.versions
            (λ v e. (text_eq_iff v.storage_key k).1 e) h.1)
        (Any-filter (λ f. (f.tenant_id ≡ tenant) × HasKey k f) (in_tenant env tenant) rows
          (λ f h. in_tenant-own tenant f seen h.0) row)

  -- The reconciliation of a tenant, by a caller that sees the tenant, leaves every object alone whose
  -- key is that of a version of some file of the tenant in the tables, whatever the status of the
  -- file, whether the job returns or throws.
  pub reconcile_storage-keeps_known :
      (tenant : Text) (dry_run : Bool) (w : WorldOf env)
      → sees env.scope Client.auto tenant ≡ true
      → Any (λ f. (f.tenant_id ≡ tenant) × HasKey k f) w.committed.files
      → env.objects.get k w.storage ≡ b
      → env.objects.get k (reconcile_storage env tenant dry_run w).1.storage ≡ b
  unfolding reconcile_storage find_all_by_tenant
  reconcile_storage-keeps_known tenant dry_run w seen row h =
      let rows = filter (in_tenant env tenant) w.committed.files in
      Keeps-bind_at {P = Holds env k b} (find_all_by_tenant env tenant)
        (reconcile_files env tenant dry_run) w (Holds-find_all_by_tenant env k b tenant)
        (λ files read. reconcile_files-Holds tenant dry_run files (
          ap (λ fs. known_key fs k) (map_result-id file_to_domain rows file_to_domain-id read)
          ∙ known_key-row tenant w.committed.files seen row))
        h

  Holds-purge_file_dry :
      (present : List Text) (f : File) → Keeps (Holds env k b) (purge_file env present true f)
  unfolding purge_file
  Holds-purge_file_dry present f = search (keeps_rules) depth 8

  Holds-purge_files_dry :
      (tenant : Text) (files : List File)
      → Keeps (Holds env k b) (purge_files env tenant true files)
  unfolding purge_files
  Holds-purge_files_dry tenant files =
      search (keeps_rules, Holds-list_objects, Holds-purge_file_dry) depth 8

  Holds-purge_dry :
      (tenant : Text) (days : ℕ) → Keeps (Holds env k b) (purge_deleted_files env tenant days true)
  unfolding purge_deleted_files
  Holds-purge_dry tenant days =
      search (keeps_rules, Holds-new_date, Holds-find_deleted_before, Holds-purge_files_dry) depth 8

  Holds-reconcile_files_dry :
      (tenant : Text) (files : List File)
      → Keeps (Holds env k b) (reconcile_files env tenant true files)
  unfolding reconcile_files
  Holds-reconcile_files_dry tenant files = search (keeps_rules, Holds-list_objects) depth 8

  Holds-reconcile_dry : (tenant : Text) → Keeps (Holds env k b) (reconcile_storage env tenant true)
  unfolding reconcile_storage
  Holds-reconcile_dry tenant =
      search (keeps_rules, Holds-find_all_by_tenant, Holds-reconcile_files_dry) depth 8

-- A dry run of the purge or of the reconciliation changes no object.
pub dry_run-get :
    (env : Env) (k tenant : Text) (days : ℕ) (w : WorldOf env)
    → (env.objects.get k (purge_deleted_files env tenant days true w).1.storage
        ≡ env.objects.get k w.storage)
      × (env.objects.get k (reconcile_storage env tenant true w).1.storage
          ≡ env.objects.get k w.storage)
dry_run-get env k tenant days w = (
  (Holds-purge_dry env k (env.objects.get k w.storage) tenant days).run w refl,
  (Holds-reconcile_dry env k (env.objects.get k w.storage) tenant).run w refl,
)
