-- ===== src/FileStorage/Accounting/Upload.antt =====
-- UploadFileUseCase keeps the books.
use neltrik_backend.Prelude.{ℕ, ◌≡◌, ◌+◌, refl, none, some, ◌∷◌, arith, inl, inr, Option-cases}
use neltrik_backend.Prelude.Text.{Text, text_eq_iff}
use neltrik_backend.Prelude.Result.{ok, Result-cases}
use neltrik_backend.Prelude.Keeps.{Keeps, keeps_rules}
use neltrik_backend.FileStorage.Domain.Types.{FileStatus}
use neltrik_backend.FileStorage.Domain.Version
use neltrik_backend.FileStorage.Domain.Version.{FileVersion}
use neltrik_backend.FileStorage.Domain.File
use neltrik_backend.FileStorage.Domain.File.{File, get_total_size}
use neltrik_backend.FileStorage.Domain.Quota
use neltrik_backend.FileStorage.Domain.Quota.{FileQuota}
use neltrik_backend.FileStorage.World.{Env, Db, WorldOf, enqueue}
use neltrik_backend.FileStorage.World.Effects.{
  OfCommitted, Keeps-new_date, Keeps-generate_id, Keeps-upload_object, Keeps-delete_object,
  Keeps-enqueue, Keeps-transaction,
}
use neltrik_backend.FileStorage.Repository.{
  find_quota, set_quota, find_by_tenant_id, create_file, create_quota, increment_used_bytes,
}
use neltrik_backend.FileStorage.Repository.Outcomes.{FoundQuota, find_by_tenant_id-cases}
use neltrik_backend.FileStorage.UseCases.Quota.{
  increment_quota, create_or_get_quota, default_file_quota_limit_bytes,
}
use neltrik_backend.FileStorage.Repository.Effects.{
  Keeps-find_by_resource_and_purpose, Keeps-verify_quota_limit, Keeps-create_file,
  Keeps-increment_quota,
}
use neltrik_backend.FileStorage.Compensation.Laws.{execute-Keeps}
use neltrik_backend.FileStorage.UseCases.Upload
use neltrik_backend.FileStorage.UseCases.Upload.{UploadFileInput, PreparedUpload, upload_file}
use neltrik_backend.FileStorage.Accounting.{
  share, live_bytes, used, IsBalanced, used-set_quota, find_quota-tenant_id,
}

-- A new row and the quota of its tenant that grow by the same amount keep every tenant's books.
IsBalanced-insert :
    (t : Text) (d : Db) (f : File) (q r : FileQuota)
    → find_quota f.tenant_id d.quotas ≡ some q
    → r.tenant_id ≡ f.tenant_id
    → r.used_bytes ≡ q.used_bytes + share f.tenant_id f
    → IsBalanced t d
    → IsBalanced t (record { files = f ∷ d.files; quotas = set_quota f.tenant_id r d.quotas })
unfolding share used live_bytes
IsBalanced-insert t d f q r quota same grown h = ground (
  arith,
  used-set_quota t f.tenant_id d.quotas q r,
  text_eq_iff t f.tenant_id,
  text_eq_iff f.tenant_id f.tenant_id,
)

-- A quota for a tenant that has none starts at zero.
IsBalanced-new_quota :
    (t : Text) (d : Db) (q : FileQuota)
    → find_quota q.tenant_id d.quotas ≡ none
    → q.used_bytes ≡ 0
    → IsBalanced t d
    → IsBalanced t (record d { quotas = q ∷ d.quotas })
unfolding used find_quota
IsBalanced-new_quota t d q absent zero_used h = ground (arith, text_eq_iff t q.tenant_id)

abbrev grown : ℕ → FileQuota → FileQuota
grown size q = record q { used_bytes = q.used_bytes + size }

create_initial-size :
    (p : Version.Params) (v : FileVersion) → Version.create_initial p ≡ ok v → v.size ≡ p.size
unfolding Version.create_initial
create_initial-size p v e = ground arith

create_lem :
    (p : File.NewFile) (f : File)
    → File.create p ≡ ok f
    → (f.tenant_id ≡ p.tenant_id) × (f.status ≡ FileStatus.pending) × (f.versions ≡ p.versions)
unfolding File.create
create_lem p f e = ground arith

share-create :
    (now : ℕ) (env : Env) (input : UploadFileInput) (prepared : PreparedUpload) (v : FileVersion)
    (f : File)
    → v.size ≡ input.size
    → File.create (Upload.new_file env input prepared now v) ≡ ok f
    → (f.tenant_id ≡ input.tenant_id) × (share f.tenant_id f ≡ input.size)
unfolding share get_total_size Upload.new_file
share-create now env input prepared v f size e = ground (
  arith,
  create_lem (Upload.new_file env input prepared now v) f e,
  text_eq_iff f.tenant_id f.tenant_id,
)

module _ (env : Env) (t : Text) where
  create_quota-IsBalanced :
      (id tenant : Text) (limit now : ℕ) (q : FileQuota) (w : WorldOf env)
      → Quota.create id tenant limit now ≡ ok q
      → IsBalanced t w.committed
      → IsBalanced t (create_quota env q w).1.committed
  unfolding create_quota Quota.create find_by_tenant_id
  create_quota-IsBalanced id tenant limit now q w e h =
      elim (Option-cases (find_quota q.tenant_id w.committed.quotas)) [
        | inl absent ↦ ground (arith, IsBalanced-new_quota t w.committed q absent)
        | inr (r, there) ↦ ground arith
      ]

  create_or_get_quota-IsBalanced :
      (tenant : Text) → Keeps (OfCommitted env (IsBalanced t)) (create_or_get_quota env tenant)
  unfolding create_or_get_quota
  create_or_get_quota-IsBalanced tenant = record {
    run = λ w h. elim (find_by_tenant_id-cases env tenant w) [
      | FoundQuota.throws e x ↦ ground arith
      | FoundQuota.present q x row ↦ ground arith
      | FoundQuota.absent x none_there ↦ created w (env.ids w.calls) (env.clock (w.calls + 1)) h x
    ];
  }
    where
      created :
          (w : WorldOf env) (id : Text) (now : ℕ)
          → IsBalanced t w.committed
          → find_by_tenant_id env tenant w ≡ (ok none, w)
          → IsBalanced t (create_or_get_quota env tenant w).1.committed
      created w id now h x =
          elim (Result-cases (
            Quota.create (env.ids w.calls) tenant default_file_quota_limit_bytes
              (env.clock (w.calls + 1)))) [
                | inl (q, e) ↦ ground (
                  arith,
                  create_quota-IsBalanced (env.ids w.calls) tenant default_file_quota_limit_bytes
                      (env.clock (w.calls + 1)) q (record w { calls = w.calls + 1 + 1 }) e,
                )
                | inr (x', e) ↦ ground arith
              ]

  module _ (input : UploadFileInput) where
    validate-IsBalanced : Keeps (OfCommitted env (IsBalanced t)) (Upload.validate env input)
    unfolding Upload.validate
    validate-IsBalanced =
        search
          (
            keeps_rules, Keeps-find_by_resource_and_purpose, create_or_get_quota-IsBalanced,
            Keeps-verify_quota_limit,
          )
          depth 9

    prepare-IsBalanced : Keeps (OfCommitted env (IsBalanced t)) (Upload.prepare env input)
    unfolding Upload.prepare
    prepare-IsBalanced = search (keeps_rules, Keeps-generate_id)

    module _ (prepared : PreparedUpload) where
      persist-Keeps :
          (P : Db → Type 0) → Keeps (OfCommitted env P) (Upload.persist env input prepared)
      unfolding Upload.persist
      persist-Keeps P =
          search
            (keeps_rules, Keeps-new_date, Keeps-create_file, Keeps-increment_quota, Keeps-enqueue)
            depth 12

      persist-IsBalanced :
          (w : WorldOf env) (f : File)
          → w.pending ≡ w.committed
          → IsBalanced t w.pending
          → (Upload.persist env input prepared w).0 ≡ ok f
          → IsBalanced t (Upload.persist env input prepared w).1.pending
      unfolding Upload.persist create_file increment_quota increment_used_bytes find_by_tenant_id
          enqueue
      persist-IsBalanced w f begun h e =
          elim (Result-cases (
            Version.create_initial (Upload.first_version env input prepared (env.clock w.calls)))) [
              | inr (x, ev) ↦ ground arith
              | inl (v, ev) ↦
                  elim (Result-cases
                    (File.create (Upload.new_file env input prepared (env.clock w.calls) v))) [
                      | inr (x, ef) ↦ ground arith
                      | inl (g, ef) ↦
                          elim (Option-cases (find_quota input.tenant_id w.pending.quotas)) [
                            | inl absent ↦ ground arith
                            | inr (q, quota) ↦ ground (
                              arith,
                              share-create (env.clock w.calls) env input prepared v g
                                  (create_initial-size
                                    (Upload.first_version env input prepared (env.clock w.calls)) v
                                    ev)
                                  ef,
                              find_quota-tenant_id input.tenant_id w.pending.quotas q quota,
                              IsBalanced-insert t w.pending g q (grown input.size q),
                            )
                          ]
                    ]
            ]

      upload_and_persist-IsBalanced :
          Keeps (OfCommitted env (IsBalanced t)) (Upload.upload_and_persist env input prepared)
      unfolding Upload.upload_and_persist
      upload_and_persist-IsBalanced =
          execute-Keeps _ _ _ (Keeps-upload_object env (IsBalanced t) _ _)
            (Keeps-delete_object env (IsBalanced t) _)
            (Keeps-transaction env (IsBalanced t) (Upload.persist env input prepared)
              (λ w. (persist-Keeps (λ d. d ≡ w.committed)).run w refl) persist-IsBalanced)

    -- Whatever the services do, and whether the upload returns or throws, the quota of every tenant
    -- goes on recording the bytes of its files.
    pub upload_file-IsBalanced :
        (w : WorldOf env)
        → IsBalanced t w.committed
        → IsBalanced t (upload_file env input w).1.committed
    unfolding upload_file
    upload_file-IsBalanced w h = run_upload.run w h
      where
        run_upload : Keeps (OfCommitted env (IsBalanced t)) (upload_file env input)
        run_upload =
            search
              (keeps_rules, validate-IsBalanced, prepare-IsBalanced, upload_and_persist-IsBalanced)
              depth 8
