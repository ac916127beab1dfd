-- ===== src/FileStorage/UseCases/Quota.antt =====
-- The use cases of the quota: src/core/file-storage/application/use-cases-internal/file-quota and
-- application/use-cases/file-quota.
use neltrik_backend.Prelude.{ℕ, ◌*◌, Bool, false, Option, none, some, ltb}
use neltrik_backend.Prelude.Text.{Text}
use neltrik_backend.Prelude.Int.{ℤ, pos}
use neltrik_backend.Prelude.Exec.{◌>>=◌, ◌>>◌, pure, throw_if, lift, or_throw}
use neltrik_backend.FileStorage.Domain.Types.{file_quota_not_found, quota_limit_below_minimum}
use neltrik_backend.FileStorage.Domain.Quota
use neltrik_backend.FileStorage.Domain.Quota.{FileQuota}
use neltrik_backend.FileStorage.World.{Env, Client, M, new_date, generate_id}
use neltrik_backend.FileStorage.Repository.{
  find_by_tenant_id, create_quota, increment_used_bytes, decrement_used_bytes, update_quota,
}

-- `DEFAULT_FILE_QUOTA_LIMIT_BYTES` (src/core/file-storage/application/constants/file-quota.ts)
abbrev pub default_file_quota_limit_bytes : ℕ
default_file_quota_limit_bytes = 1024 * 1024 * 1024

-- `MIN_FILE_QUOTA_LIMIT_BYTES`
abbrev pub min_file_quota_limit_bytes : ℕ
min_file_quota_limit_bytes = 1024 * 1024 * 1024

-- `GetFileQuotaOutput`
pub record QuotaView : Type 0 where
  pub limit_bytes : ℕ
  pub used_bytes : ℕ
  pub available_bytes : ℤ
  pub is_near_limit : Bool
  pub is_over_limit : Bool

module _ (env : Env) where
  abbrev create_when_absent : Text → Option FileQuota → M env FileQuota
  create_when_absent tenant (some q) = pure q
  create_when_absent tenant none = do
    id ← generate_id env
    now ← new_date env
    q ← lift (Quota.create id tenant default_file_quota_limit_bytes now)
    _ ← create_quota env q
    pure q

  -- `CreateOrGetQuotaInternalUseCase.execute`
  unfoldable pub create_or_get_quota : Text → M env FileQuota
  create_or_get_quota tenant = do
    existing ← find_by_tenant_id env tenant
    create_when_absent tenant existing

  -- `IncrementQuotaInternalUseCase.execute`: the quota that it returns is read outside the transaction
  unfoldable pub increment_quota : Client → Text → ℕ → M env FileQuota
  increment_quota c tenant size = do
    increment_used_bytes env c tenant size
    quota ← find_by_tenant_id env tenant
    or_throw quota file_quota_not_found

  -- `DecrementQuotaInternalUseCase.execute`
  unfoldable pub decrement_quota : Client → Text → ℕ → M env FileQuota
  decrement_quota c tenant size = do
    decrement_used_bytes env c tenant size
    quota ← find_by_tenant_id env tenant
    or_throw quota file_quota_not_found

  -- `VerifyQuotaLimitInternalUseCase.execute`
  unfoldable pub verify_quota_limit : Text → ℕ → M env Bool
  verify_quota_limit tenant size = do
    quota ← find_by_tenant_id env tenant
    q ← or_throw quota file_quota_not_found
    pure (Quota.can_accommodate size q)

  -- `AdjustQuotaLimitUseCase.execute`
  unfoldable pub adjust_quota_limit : Text → ℕ → M env FileQuota
  adjust_quota_limit tenant new_limit = do
    quota ← find_by_tenant_id env tenant
    q ← or_throw quota file_quota_not_found
    throw_if (ltb new_limit min_file_quota_limit_bytes) quota_limit_below_minimum
    now ← new_date env
    r ← lift (Quota.adjust_limit now new_limit q)
    update_quota env r
    pure r

  abbrev view_of : Option FileQuota → QuotaView
  view_of none = record {
    limit_bytes = default_file_quota_limit_bytes;
    used_bytes = 0;
    available_bytes = pos default_file_quota_limit_bytes;
    is_near_limit = false;
    is_over_limit = false;
  }
  view_of (some q) = record {
    limit_bytes = q.limit_bytes;
    used_bytes = q.used_bytes;
    available_bytes = Quota.get_available_bytes q;
    is_near_limit = Quota.is_near_limit q;
    is_over_limit = Quota.is_over_limit q;
  }

  -- `GetFileQuotaUseCase.execute`
  unfoldable pub get_quota : Text → M env QuotaView
  get_quota tenant = do quota ← find_by_tenant_id env tenant; pure (view_of quota)
