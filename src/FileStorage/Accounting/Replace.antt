-- ===== src/FileStorage/Accounting/Replace.antt =====
-- ReplaceFileUseCase keeps the books.
use neltrik_backend.Prelude.{ℕ, ◌≡◌, ◌+◌, refl, false, some, arith, inl, inr, Option-cases}
use neltrik_backend.Prelude.Text.{Text, text_eq_iff}
use neltrik_backend.Prelude.Result.{ok, Result-cases}
use neltrik_backend.Prelude.Keeps.{Keeps, keeps_rules}
use neltrik_backend.FileStorage.Domain.Types.{is_deleted}
use neltrik_backend.FileStorage.Domain.Version
use neltrik_backend.FileStorage.Domain.Version.{FileVersion}
use neltrik_backend.FileStorage.Domain.File
use neltrik_backend.FileStorage.Domain.File.{File, get_total_size}
use neltrik_backend.FileStorage.Domain.File.Size.{add_version-get_total_size}
use neltrik_backend.FileStorage.Domain.Quota.{FileQuota}
use neltrik_backend.FileStorage.World.{Env, Db, WorldOf, enqueue}
use neltrik_backend.FileStorage.World.Effects.{
  OfCommitted, Keeps-new_date, Keeps-upload_object, Keeps-delete_object, Keeps-enqueue,
  transaction-leads,
}
use neltrik_backend.FileStorage.Repository.{
  find_row, find_quota, set_row, set_quota, find_by_tenant_id, update_file, increment_used_bytes,
}
use neltrik_backend.FileStorage.Repository.Outcomes.{Found, find_by_id-cases}
use neltrik_backend.FileStorage.Repository.Effects.{
  Keeps-find_by_id, Keeps-verify_quota_limit, Keeps-update_file, Keeps-increment_quota,
}
use neltrik_backend.FileStorage.Compensation.Laws.{execute-leads}
use neltrik_backend.FileStorage.UseCases.Quota.{increment_quota}
use neltrik_backend.FileStorage.UseCases.Replace
use neltrik_backend.FileStorage.UseCases.Replace.{ReplaceFileInput, PreparedReplace, replace_file}
use neltrik_backend.FileStorage.Accounting.{
  share, IsBalanced, IsBalanced-set, find_row-id, find_quota-tenant_id,
}

create-size : (p : Version.Params) (v : FileVersion) → Version.create p ≡ ok v → v.size ≡ p.size
unfolding Version.create
create-size p v e = ground arith

abbrev grown : ℕ → FileQuota → FileQuota
grown size q = record q { used_bytes = q.used_bytes + size }

abbrev stored : File → File
stored g = record g { version = g.version + 1 }

add_version_lem :
    (t : ℕ) (v : FileVersion) (f g : File)
    → File.add_version t v f ≡ ok g
    → (g.id ≡ f.id)
      × (g.tenant_id ≡ f.tenant_id)
      × (g.version ≡ f.version)
      × (is_deleted g.status ≡ false)
      × (is_deleted f.status ≡ false)
unfolding File.add_version
add_version_lem t v f g e = ground arith

replace-moves :
    (later : ℕ) (t : Text) (d : Db) (v : FileVersion) (f g : File) (q : FileQuota)
    → find_row f.id d.files ≡ some f
    → find_quota f.tenant_id d.quotas ≡ some q
    → File.add_version later v f ≡ ok g
    → IsBalanced t d
    → IsBalanced t (record {
      files = set_row f.id (stored g) d.files;
      quotas = set_quota f.tenant_id (grown v.size q) d.quotas;
    })
unfolding share get_total_size
replace-moves later t d v f g q row quota e h =
    IsBalanced-set t f.id d f (stored g) q (grown v.size q) row quota
      (add_version_lem later v f g e).1 (find_quota-tenant_id f.tenant_id d.quotas q quota)
      (ground (
        arith,
        text_eq_iff f.tenant_id f.tenant_id,
        text_eq_iff f.tenant_id g.tenant_id,
        add_version_lem later v f g e,
        add_version-get_total_size later v f e,
      ))
      h

module _ (env : Env) (t : Text) (input : ReplaceFileInput) where
  module _ (file : File) where
    -- The books are right, and the file that the use case has read is the stored one.
    abbrev IsRead : Db → Type 0
    IsRead d = IsBalanced t d × (find_row file.id d.files ≡ some file)

    module _ (prepared : PreparedReplace) where
      persist-Keeps :
          (P : Db → Type 0) → Keeps (OfCommitted env P) (Replace.persist env input file prepared)
      unfolding Replace.persist
      persist-Keeps P =
          search
            (keeps_rules, Keeps-new_date, Keeps-update_file, Keeps-increment_quota, Keeps-enqueue)
            depth 14

      persist-IsBalanced :
          (w : WorldOf env) (a : File)
          → w.pending ≡ w.committed
          → IsRead w.pending
          → (Replace.persist env input file prepared w).0 ≡ ok a
          → IsBalanced t (Replace.persist env input file prepared w).1.pending
      unfolding Replace.persist Replace.next_params update_file increment_quota increment_used_bytes
          find_by_tenant_id enqueue
      persist-IsBalanced w a begun (h, row) e =
          elim (Result-cases
            (Version.create (Replace.next_params env input file prepared (env.clock w.calls)))) [
              | inr (x, ev) ↦ ground arith
              | inl (v, ev) ↦
                  elim (Result-cases (File.add_version (env.clock (w.calls + 1)) v file)) [
                    | inr (x, eg) ↦ ground arith
                    | inl (g, eg) ↦
                        elim (Option-cases (find_quota file.tenant_id w.pending.quotas)) [
                          | inl absent ↦
                              ground (arith, add_version_lem (env.clock (w.calls + 1)) v file g eg)
                          | inr (q, quota) ↦ ground (
                            arith,
                            add_version_lem (env.clock (w.calls + 1)) v file g eg,
                            create-size
                                (Replace.next_params env input file prepared (env.clock w.calls)) v
                                ev,
                            replace-moves (env.clock (w.calls + 1)) t w.pending v file g q,
                          )
                        ]
                  ]
            ]

      upload_and_persist-IsBalanced :
          (w : WorldOf env)
          → IsRead w.committed
          → IsBalanced t (Replace.upload_and_persist env input file prepared w).1.committed
      unfolding Replace.upload_and_persist
      upload_and_persist-IsBalanced =
          execute-leads _ _ _ (λ v h. h.0) (Keeps-upload_object env IsRead _ _)
            (Keeps-delete_object env (IsBalanced t) _)
            (transaction-leads env IsRead (IsBalanced t) (Replace.persist env input file prepared)
              (λ d h. h.0) (λ w. (persist-Keeps (λ d. d ≡ w.committed)).run w refl)
              persist-IsBalanced)

  find_and_validate-Keeps :
      (P : Db → Type 0) → Keeps (OfCommitted env P) (Replace.find_and_validate env input)
  unfolding Replace.find_and_validate
  find_and_validate-Keeps P =
      search (keeps_rules, Keeps-find_by_id, Keeps-verify_quota_limit) depth 14

  find_and_validate-row :
      (w : WorldOf env) (f : File)
      → (Replace.find_and_validate env input w).0 ≡ ok f
      → find_row f.id w.committed.files ≡ some f
  unfolding Replace.find_and_validate
  find_and_validate-row w f e = elim (find_by_id-cases env input.file_id w) [
    | Found.throws x there ↦ ground arith
    | Found.absent there ↦ ground arith
    | Found.present g there row seen ↦
        ground (arith, find_row-id input.file_id w.committed.files g row)
  ]

  prepare-committed :
      (file : File) (w : WorldOf env) → (Replace.prepare env input file w).1.committed ≡ w.committed
  unfolding Replace.prepare
  prepare-committed file w = ground arith

  -- Whether a replacement returns or throws, the quota of every tenant goes on recording the bytes of
  -- its files.
  pub replace_file-IsBalanced :
      (w : WorldOf env)
      → IsBalanced t w.committed
      → IsBalanced t (replace_file env input w).1.committed
  unfolding replace_file
  replace_file-IsBalanced w h =
      let found : WorldOf env = (Replace.find_and_validate env input w).1 in
      let same : found.committed ≡ w.committed =
        (find_and_validate-Keeps (λ d. d ≡ w.committed)).run w refl in
      elim (Result-cases (Replace.find_and_validate env input w).0) [
        | inr (x, e) ↦ ground arith
        | inl (f, e) ↦ elim (Result-cases (Replace.prepare env input f found).0) [
          | inr (x, e') ↦ ground (arith, prepare-committed f found)
          | inl (p, e') ↦ ground (
            arith,
            prepare-committed f found,
            find_and_validate-row w f e,
            upload_and_persist-IsBalanced f p (Replace.prepare env input f found).1,
          )
        ]
      ]
