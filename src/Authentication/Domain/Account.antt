-- ===== src/Authentication/Domain/Account.antt =====
-- AuthenticationAccount: domain/entities/authentication-account/index.ts.
use neltrik_backend.Prelude.{ℕ, Bool, true, false, Option, none, some}
use neltrik_backend.Prelude.Text.{Text, is_blank}
use neltrik_backend.Prelude.Result.{Result, ok, ◌>>◌, throw_if}
use neltrik_backend.Authentication.Domain.Values.{
  Error, empty_user_id, empty_provider, empty_email, email_already_verified,
}

pub record AuthenticationAccount : Type 0 where
  pub id : Text
  pub user_id : Text
  pub provider : Text
  pub email : Text
  pub email_verified : Bool
  pub password_hash : Option Text
  pub created_at : ℕ
  pub updated_at : ℕ

unfoldable pub restore : AuthenticationAccount → Result Error AuthenticationAccount
restore a = do
  throw_if (is_blank a.user_id) empty_user_id
  throw_if (is_blank a.provider) empty_provider
  throw_if (is_blank a.email) empty_email
  ok a

-- The mark of verification in the argument is not read.
unfoldable pub create : AuthenticationAccount → Result Error AuthenticationAccount
unfolding restore
create a = restore (record a { email_verified = false })

-- `update({ passwordHash })`
unfoldable pub update : ℕ → Option Text → AuthenticationAccount → AuthenticationAccount
update now none a = record a { updated_at = now }
update now (some hash) a = record a { password_hash = some hash; updated_at = now }

unfoldable pub verify_email : ℕ → AuthenticationAccount → Result Error AuthenticationAccount
verify_email now a = do
  throw_if a.email_verified email_already_verified
  ok (record a { email_verified = true; updated_at = now })
