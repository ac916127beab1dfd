-- ===== src/FileStorage/Domain/Quota.antt =====
-- The entity FileQuota: src/core/file-storage/domain/entities/file-quota/index.ts.
-- Bytes are integers that are not negative (the database checks `used_bytes >= 0`); what is
-- available may be negative, when an administrator has lowered the limit below the use.
use neltrik_backend.Prelude.{ℕ, ◌+◌, ◌*◌, Bool, leb, ltb, ◌==◌}
use neltrik_backend.Prelude.Text.{Text}
use neltrik_backend.Prelude.Int.{ℤ, sub_ℕ}
use neltrik_backend.Prelude.Result.{Result, ok, ◌>>◌, throw_if}
use neltrik_backend.FileStorage.Domain.Types.{Error, invalid_quota_limit}

-- `FileQuotaProps`
pub record FileQuota : Type 0 where
  pub id : Text
  pub tenant_id : Text
  pub limit_bytes : ℕ
  pub used_bytes : ℕ
  pub created_at : ℕ
  pub updated_at : ℕ

-- The private constructor. The use is not negative by its type.
unfoldable pub construct : FileQuota → Result Error FileQuota
construct p = do throw_if (p.limit_bytes == 0) invalid_quota_limit; ok p

unfoldable pub create : Text → Text → ℕ → ℕ → Result Error FileQuota
unfolding construct
create id tenant_id limit_bytes created_at = construct (record {
  id = id;
  tenant_id = tenant_id;
  limit_bytes = limit_bytes;
  used_bytes = 0;
  created_at = created_at;
  updated_at = created_at;
})

unfoldable pub restore : FileQuota → Result Error FileQuota
unfolding construct
restore p = construct p

unfoldable pub adjust_limit : ℕ → ℕ → FileQuota → Result Error FileQuota
adjust_limit t new_limit q = do
  throw_if (new_limit == 0) invalid_quota_limit
  ok (record q { limit_bytes = new_limit; updated_at = t })

unfoldable pub can_accommodate : ℕ → FileQuota → Bool
can_accommodate size q = leb (q.used_bytes + size) q.limit_bytes

-- At the default threshold of 0.8, in tenths.
unfoldable pub is_near_limit : FileQuota → Bool
is_near_limit q = leb (q.limit_bytes * 8) (q.used_bytes * 10)

unfoldable pub is_over_limit : FileQuota → Bool
is_over_limit q = ltb q.limit_bytes q.used_bytes

unfoldable pub get_available_bytes : FileQuota → ℤ
get_available_bytes q = sub_ℕ q.limit_bytes q.used_bytes
