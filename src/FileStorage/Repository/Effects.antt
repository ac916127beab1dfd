-- ===== src/FileStorage/Repository/Effects.antt =====
-- The queries, and the writes by the client of an open transaction, leave the committed tables alone.
use neltrik_backend.Prelude.{◌≡◌, sym, ℕ, arith}
use mathlib.Core.Path.{subst}
use neltrik_backend.Prelude.Text.{Text}
use neltrik_backend.Prelude.Keeps.{Keeps, keeps_rules}
use neltrik_backend.FileStorage.Domain.Types.{FilePurpose}
use neltrik_backend.FileStorage.Domain.File.{File}
use neltrik_backend.FileStorage.World.{Env, Db, Client}
use neltrik_backend.FileStorage.World.Effects.{OfCommitted}
use neltrik_backend.FileStorage.Repository.{
  find_by_id, find_by_tenant_id, find_by_resource_and_purpose, find_all_by_tenant,
  find_deleted_before, find_ready_for_rescan, create_file, update_file, increment_used_bytes,
  decrement_used_bytes,
}
use neltrik_backend.FileStorage.UseCases.Quota.{
  increment_quota, decrement_quota, verify_quota_limit,
}

module _ (env : Env) (P : Db → Type 0) where
  same : (d d' : Db) → d' ≡ d → P d → P d'
  same d d' e h = subst P (sym e) h

  pub Keeps-find_by_id : (id : Text) → Keeps (OfCommitted env P) (find_by_id env id)
  unfolding find_by_id
  Keeps-find_by_id id = record { run = λ w h. h }

  pub Keeps-find_by_tenant_id : (t : Text) → Keeps (OfCommitted env P) (find_by_tenant_id env t)
  unfolding find_by_tenant_id
  Keeps-find_by_tenant_id t = record { run = λ w h. h }

  pub Keeps-find_by_resource_and_purpose :
      (t kind id : Text) (p : FilePurpose)
      → Keeps (OfCommitted env P) (find_by_resource_and_purpose env t kind id p)
  unfolding find_by_resource_and_purpose
  Keeps-find_by_resource_and_purpose t kind id p = record { run = λ w h. h }

  pub Keeps-find_all_by_tenant : (t : Text) → Keeps (OfCommitted env P) (find_all_by_tenant env t)
  unfolding find_all_by_tenant
  Keeps-find_all_by_tenant t = record { run = λ w h. h }

  pub Keeps-find_deleted_before :
      (t : Text) (before : ℕ) → Keeps (OfCommitted env P) (find_deleted_before env t before)
  unfolding find_deleted_before
  Keeps-find_deleted_before t before = record { run = λ w h. h }

  pub Keeps-find_ready_for_rescan :
      (t : Text) (before : ℕ) → Keeps (OfCommitted env P) (find_ready_for_rescan env t before)
  unfolding find_ready_for_rescan
  Keeps-find_ready_for_rescan t before = record { run = λ w h. h }

  pub Keeps-create_file : (f : File) → Keeps (OfCommitted env P) (create_file env Client.tx f)
  unfolding create_file
  Keeps-create_file f = record { run = λ w h. same w.committed _ (ground arith) h }

  pub Keeps-update_file : (f : File) → Keeps (OfCommitted env P) (update_file env Client.tx f)
  unfolding update_file
  Keeps-update_file f = record { run = λ w h. same w.committed _ (ground arith) h }

  Keeps-increment_used_bytes :
      (t : Text) (n : ℕ) → Keeps (OfCommitted env P) (increment_used_bytes env Client.tx t n)
  unfolding increment_used_bytes
  Keeps-increment_used_bytes t n = record { run = λ w h. same w.committed _ (ground arith) h }

  Keeps-decrement_used_bytes :
      (t : Text) (n : ℕ) → Keeps (OfCommitted env P) (decrement_used_bytes env Client.tx t n)
  unfolding decrement_used_bytes
  Keeps-decrement_used_bytes t n = record { run = λ w h. same w.committed _ (ground arith) h }

  ruleset quota_rules =
      (keeps_rules, Keeps-find_by_tenant_id, Keeps-increment_used_bytes, Keeps-decrement_used_bytes)

  pub Keeps-increment_quota :
      (t : Text) (n : ℕ) → Keeps (OfCommitted env P) (increment_quota env Client.tx t n)
  unfolding increment_quota
  Keeps-increment_quota t n = search quota_rules

  pub Keeps-decrement_quota :
      (t : Text) (n : ℕ) → Keeps (OfCommitted env P) (decrement_quota env Client.tx t n)
  unfolding decrement_quota
  Keeps-decrement_quota t n = search quota_rules

  pub Keeps-verify_quota_limit :
      (t : Text) (n : ℕ) → Keeps (OfCommitted env P) (verify_quota_limit env t n)
  unfolding verify_quota_limit
  Keeps-verify_quota_limit t n = search quota_rules
