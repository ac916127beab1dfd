-- ===== src/FileStorage/Samples/Jobs.antt =====
-- The theorems about the purge and the reconciliation at inputs that meet their hypotheses.
use neltrik_backend.FileStorage.Samples.{env, acme, key, stored, deleted}
use neltrik_backend.FileStorage.Domain.Version
use neltrik_backend.FileStorage.Domain.File.{get_total_size}
use neltrik_backend.FileStorage.Jobs.{reconcile_storage, purge_deleted_files}
use neltrik_backend.FileStorage.Jobs.Objects.{HasKey, reconcile_storage-keeps_known, dry_run-get}
use neltrik_backend.FileStorage.Repository.{find_deleted_before}
use neltrik_backend.FileStorage.Jobs.Purged.{purge_deleted_files-deletes}
use neltrik_backend.FileStorage.Jobs.Purge.{IsPurgeable, purge_deleted_files-keeps_others}
use neltrik_backend.Prelude.{inl, ◌≡◌, refl, none, true, false, some, [], ◌∷◌, arith}
use neltrik_backend.Prelude.Text.{is_blank, text_eq}
use neltrik_backend.FileStorage.ObjectStore.Memory.{memory_store}
use neltrik_backend.FileStorage.Domain.Version.{FileVersion}
use neltrik_backend.FileStorage.Domain.File
use neltrik_backend.FileStorage.Domain.File.{File}
use neltrik_backend.FileStorage.Mapper.{file_to_domain}
use neltrik_backend.FileStorage.ObjectStore.{starts_with}
use neltrik_backend.FileStorage.UseCases.Keys.{tenant_prefix}
use neltrik_backend.FileStorage.Jobs.{purge_files, purge_file}
use neltrik_backend.FileStorage.World.{list_objects, delete_object}
use neltrik_backend.Prelude.Exec.{for_each}
use neltrik_backend.Prelude.Text.{includes}

reconcile_storage-keeps_known_example :
    memory_store.get key (reconcile_storage env acme false (stored deleted)).1.storage
    ≡ some (1 ∷ 2 ∷ 3 ∷ [])
unfolding text_eq
reconcile_storage-keeps_known_example =
    reconcile_storage-keeps_known env key (some (1 ∷ 2 ∷ 3 ∷ [])) acme false (stored deleted) refl
      (inl (refl, inl refl)) refl

deleted-recent :
    IsPurgeable acme (env.clock (stored deleted).calls) 1000 deleted → ¬ HasKey key deleted
deleted-recent p h = omega (arith, p.long_ago.2)

-- The same file, deleted at 5, with a thousand days of grace.
purge_deleted_files-keeps_others_example :
    memory_store.get key (purge_deleted_files env acme 1000 false (stored deleted)).1.storage
    ≡ some (1 ∷ 2 ∷ 3 ∷ [])
unfolding text_eq
purge_deleted_files-keeps_others_example =
    purge_deleted_files-keeps_others env key (some (1 ∷ 2 ∷ 3 ∷ [])) acme 1000 false
      (stored deleted) refl (deleted-recent, tt) refl

purge_deleted_files-deletes_example :
    memory_store.get key (purge_deleted_files env acme 0 false (stored deleted)).1.storage ≡ none
unfolding text_eq purge_deleted_files find_deleted_before file_to_domain Version.create is_blank
    File.restore starts_with tenant_prefix purge_files list_objects for_each purge_file includes
    delete_object
purge_deleted_files-deletes_example =
    purge_deleted_files-deletes env key acme 0 (stored deleted) refl
      (inl (record { own = refl; deleted = refl; long_ago = (5, refl, omega arith) }, inl refl))
      refl refl

dry_run-get_example :
    (memory_store.get key (purge_deleted_files env acme 0 true (stored deleted)).1.storage
      ≡ memory_store.get key (stored deleted).storage)
    × (memory_store.get key (reconcile_storage env acme true (stored deleted)).1.storage
        ≡ memory_store.get key (stored deleted).storage)
dry_run-get_example = dry_run-get env key acme 0 (stored deleted)
