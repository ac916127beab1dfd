-- ===== src/FileStorage/World/Objects.antt =====
-- Which calls leave the object store alone, and which leave one key of it alone.
use neltrik_backend.Prelude.{◌≡◌, sym, ap, ◌∙◌, ℕ, false, Option, none, arith, inl, inr, Bool-cases}
use neltrik_backend.Prelude.Text.{Text, text_eq}
use neltrik_backend.Prelude.Result.{Result-cases}
use neltrik_backend.Prelude.Keeps.{Keeps, keeps_rules}
use neltrik_backend.FileStorage.Domain.File.{File}
use neltrik_backend.FileStorage.ObjectStore.{Buffer}
use neltrik_backend.FileStorage.World.{
  Env, Client, M, WorldOf, ScanJob, new_date, upload_object, delete_object, list_objects, enqueue,
  transaction,
}
use neltrik_backend.FileStorage.Repository.{
  find_by_tenant_id, find_all_by_tenant, find_deleted_before, create_file, update_file,
  increment_used_bytes,
}
use neltrik_backend.FileStorage.UseCases.Quota.{increment_quota}

module _ (env : Env) (k : Text) (b : Option Buffer) where
  -- The object under the key `k`.
  abbrev pub Holds : WorldOf env → Type 0
  Holds w = env.objects.get k w.storage ≡ b

  same : (s s' : env.objects.Store) → s' ≡ s → env.objects.get k s ≡ b → env.objects.get k s' ≡ b
  same s s' e h = ap (env.objects.get k) e ∙ h

  pub Holds-new_date : Keeps Holds (new_date env)
  Holds-new_date = record { run = λ w h. h }

  pub Holds-list_objects : (p : Text) → Keeps Holds (list_objects env p)
  unfolding list_objects
  Holds-list_objects p = record { run = λ w h. same w.storage _ (ground arith) h }

  pub Holds-enqueue : (j : ScanJob) → Keeps Holds (enqueue env j)
  unfolding enqueue
  Holds-enqueue j = record { run = λ w h. same w.storage _ (ground arith) h }

  pub Holds-find_all_by_tenant : (t : Text) → Keeps Holds (find_all_by_tenant env t)
  unfolding find_all_by_tenant
  Holds-find_all_by_tenant t = record { run = λ w h. h }

  pub Holds-find_deleted_before : (t : Text) (n : ℕ) → Keeps Holds (find_deleted_before env t n)
  unfolding find_deleted_before
  Holds-find_deleted_before t n = record { run = λ w h. h }

  Holds-find_by_tenant_id : (t : Text) → Keeps Holds (find_by_tenant_id env t)
  unfolding find_by_tenant_id
  Holds-find_by_tenant_id t = record { run = λ w h. h }

  pub Holds-create_file : (c : Client) (f : File) → Keeps Holds (create_file env c f)
  unfolding create_file
  Holds-create_file Client.auto f = record { run = λ w h. same w.storage _ (ground arith) h }
  Holds-create_file Client.tx f = record { run = λ w h. same w.storage _ (ground arith) h }

  pub Holds-update_file : (c : Client) (f : File) → Keeps Holds (update_file env c f)
  unfolding update_file
  Holds-update_file Client.auto f = record { run = λ w h. same w.storage _ (ground arith) h }
  Holds-update_file Client.tx f = record { run = λ w h. same w.storage _ (ground arith) h }

  Holds-increment_used_bytes :
      (c : Client) (t : Text) (n : ℕ) → Keeps Holds (increment_used_bytes env c t n)
  unfolding increment_used_bytes
  Holds-increment_used_bytes Client.auto t n = record {
    run = λ w h. same w.storage _ (ground arith) h;
  }
  Holds-increment_used_bytes Client.tx t n = record {
    run = λ w h. same w.storage _ (ground arith) h;
  }

  pub Holds-increment_quota :
      (c : Client) (t : Text) (n : ℕ) → Keeps Holds (increment_quota env c t n)
  unfolding increment_quota
  Holds-increment_quota c t n =
      search (keeps_rules, Holds-increment_used_bytes, Holds-find_by_tenant_id)

  pub Holds-transaction :
      {A : Type 0} (m : M env A) → Keeps Holds m → Keeps Holds (transaction env m)
  unfolding transaction
  Holds-transaction m km = record {
    run = λ w h.
        let v : WorldOf env = record w { pending = w.committed } in
        elim (Result-cases (m v).0) [
          | inl (a, e) ↦ same (m v).1.storage _ (ground arith) (km.run v h)
          | inr (x, e) ↦ same (m v).1.storage _ (ground arith) (km.run v h)
        ];
  }

  -- A delete of another key.
  pub Holds-delete_object : (j : Text) → text_eq j k ≡ false → Keeps Holds (delete_object env j)
  unfolding delete_object
  Holds-delete_object j other = record {
    run = λ w h. elim (Bool-cases (env.fault w.calls)) [
      | inl lost ↦ same w.storage _ (ground arith) h
      | inr done ↦ rw (done, env.objects.get-remove k j w.storage, other) h
    ];
  }

  -- A delete of any key, where there is no object under `k`.
  pub Holds-delete_absent : (j : Text) → b ≡ none → Keeps Holds (delete_object env j)
  unfolding delete_object
  Holds-delete_absent j absent = record {
    run = λ w h. elim (Bool-cases (env.fault w.calls)) [
      | inl lost ↦ same w.storage _ (ground arith) h
      | inr done ↦ elim (Bool-cases (text_eq j k)) [
        | inl it ↦ rw (done, env.objects.get-remove k j w.storage, it) (sym absent)
        | inr other ↦ rw (done, env.objects.get-remove k j w.storage, other) h
      ]
    ];
  }

  pub Holds-upload_object :
      (j : Text) (c : Buffer) → text_eq j k ≡ false → Keeps Holds (upload_object env j c)
  unfolding upload_object
  Holds-upload_object j c other = record {
    run = λ w h. elim (Bool-cases (env.fault w.calls)) [
      | inl lost ↦ same w.storage _ (ground arith) h
      | inr done ↦ rw (done, env.objects.get-put k j c w.storage, other) h
    ];
  }
