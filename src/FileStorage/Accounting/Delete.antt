-- ===== src/FileStorage/Accounting/Delete.antt =====
-- DeleteFileUseCase keeps the books.
use neltrik_backend.Prelude.{
  ℕ, ◌≡◌, ◌+◌, ◌-◌, ◌≤◌, refl, false, some, arith, inl, inr, Option-cases,
}
use neltrik_backend.Prelude.Text.{Text, text_eq_iff}
use neltrik_backend.Prelude.Result.{ok}
use neltrik_backend.FileStorage.Domain.Types.{is_deleted, FileStatus}
use neltrik_backend.FileStorage.Domain.File
use neltrik_backend.FileStorage.Domain.File.{File, get_total_size}
use neltrik_backend.FileStorage.Domain.Quota.{FileQuota}
use neltrik_backend.Prelude.Keeps.{Keeps, keeps_rules}
use neltrik_backend.FileStorage.World.Effects.{OfCommitted, Keeps-new_date, Keeps-transaction}
use neltrik_backend.FileStorage.Repository.Effects.{
  Keeps-find_by_id, Keeps-update_file, Keeps-decrement_quota,
}
use neltrik_backend.FileStorage.World.{Env, Db, WorldOf}
use neltrik_backend.FileStorage.Repository.{
  find_row, set_row, find_quota, set_quota, find_by_id, find_by_tenant_id, update_file,
  decrement_used_bytes,
}
use neltrik_backend.FileStorage.Repository.Outcomes.{Found, find_by_id-cases}
use neltrik_backend.FileStorage.UseCases.Quota.{decrement_quota}
use neltrik_backend.FileStorage.UseCases.Files.{delete_file, delete_in_transaction}
use neltrik_backend.FileStorage.Accounting.{
  share, IsBalanced, IsBalanced-set, find_quota-tenant_id, find_row-id,
}

-- The row of a file after its deletion at `t`, written at `u`.
abbrev deleted_row : ℕ → ℕ → File → File
deleted_row t u f = record f {
  status = FileStatus.deleted;
  deleted_at = some t;
  updated_at = u;
  version = f.version + 1;
}

abbrev freed : File → FileQuota → FileQuota
freed f q = record q { used_bytes = q.used_bytes - get_total_size f }

delete-moves :
    (at_time later : ℕ) (t id : Text) (d : Db) (f : File) (q : FileQuota)
    → find_row id d.files ≡ some f
    → find_quota f.tenant_id d.quotas ≡ some q
    → is_deleted f.status ≡ false
    → get_total_size f ≤ q.used_bytes
    → IsBalanced t d
    → IsBalanced t (record {
      files = set_row id (deleted_row at_time later f) d.files;
      quotas = set_quota f.tenant_id (freed f q) d.quotas;
    })
unfolding share get_total_size
delete-moves at_time later t id d f q row quota live covered h =
    IsBalanced-set t id d f (deleted_row at_time later f) q (freed f q) row quota refl
      (find_quota-tenant_id f.tenant_id d.quotas q quota)
      (ground (arith, text_eq_iff f.tenant_id f.tenant_id)) h

module _ (env : Env) (t id : Text) where
  delete_found :
      (w : WorldOf env) (f : File) (a : Text)
      → find_by_id env id w ≡ (ok (some f), w)
      → find_row id w.pending.files ≡ some f
      → IsBalanced t w.pending
      → (delete_in_transaction env id w).0 ≡ ok a
      → IsBalanced t (delete_in_transaction env id w).1.pending
  unfolding delete_in_transaction File.delete update_file decrement_quota decrement_used_bytes
      find_by_tenant_id get_total_size
  delete_found w f a x row h e = elim (Option-cases (find_quota f.tenant_id w.pending.quotas)) [
    | inl none_there ↦ ground (arith, find_row-id id w.pending.files f row)
    | inr (q, quota) ↦ ground (
      arith,
      find_row-id id w.pending.files f row,
      delete-moves (env.clock w.calls) (env.clock (w.calls + 1)) t id w.pending f q,
    )
  ]

  delete_in_transaction-IsBalanced :
      (w : WorldOf env) (a : Text)
      → w.pending ≡ w.committed
      → IsBalanced t w.pending
      → (delete_in_transaction env id w).0 ≡ ok a
      → IsBalanced t (delete_in_transaction env id w).1.pending
  unfolding delete_in_transaction
  delete_in_transaction-IsBalanced w a begun h e = elim (find_by_id-cases env id w) [
    | Found.throws x there ↦ ground arith
    | Found.absent there ↦ ground arith
    | Found.present f there row seen ↦ delete_found w f a there (rw begun row) h e
  ]

  delete_in_transaction-Keeps :
      (P : Db → Type 0) → Keeps (OfCommitted env P) (delete_in_transaction env id)
  unfolding delete_in_transaction
  delete_in_transaction-Keeps P =
      search
        (keeps_rules, Keeps-find_by_id, Keeps-new_date, Keeps-update_file, Keeps-decrement_quota)
        depth 14

  -- Whether a deletion returns or throws, the quota of every tenant goes on recording the bytes of its
  -- files.
  pub delete_file-IsBalanced :
      (w : WorldOf env) → IsBalanced t w.committed → IsBalanced t (delete_file env id w).1.committed
  unfolding delete_file
  delete_file-IsBalanced =
      (Keeps-transaction env (IsBalanced t) (delete_in_transaction env id)
        (λ w. (delete_in_transaction-Keeps (λ d. d ≡ w.committed)).run w refl)
        delete_in_transaction-IsBalanced).run
