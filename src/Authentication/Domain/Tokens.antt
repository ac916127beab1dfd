-- ===== src/Authentication/Domain/Tokens.antt =====
-- EmailVerification and PasswordReset: domain/entities/email-verification/index.ts and
-- domain/entities/password-reset/index.ts. `sha256` is the hash of node:crypto.
use neltrik_backend.Prelude.{ℕ, Bool, not, ◌&&◌, Option, none, some, is_some}
use neltrik_backend.Prelude.Text.{Text, is_blank}
use neltrik_backend.Prelude.Result.{Result, ok, ◌>>◌, throw_if}
use neltrik_backend.Authentication.Domain.Values.{
  Error, is_past, verify_token, empty_email, empty_account_id, invalid_token,
  email_verification_expired, email_verification_already_completed, password_reset_expired,
  password_reset_already_used,
}

pub record EmailVerification : Type 0 where
  pub id : Text
  pub authentication_account_id : Text
  pub email : Text
  pub token_hash : Text
  pub expires_at : ℕ
  pub verified_at : Option ℕ
  pub created_at : ℕ
  pub updated_at : ℕ

unfoldable pub restore_verification : EmailVerification → Result Error EmailVerification
restore_verification v = do
  throw_if (is_blank v.email) empty_email
  throw_if (is_blank v.authentication_account_id) empty_account_id
  ok v

-- The time of verification in the argument is not read.
unfoldable pub create_verification : EmailVerification → Result Error EmailVerification
unfolding restore_verification
create_verification v = restore_verification (record v { verified_at = none })

-- `EmailVerification.isPending`
unfoldable pub is_verification_pending : ℕ → EmailVerification → Bool
is_verification_pending now v = not (is_some v.verified_at) && not (is_past now v.expires_at)

-- `EmailVerification.complete`, with `ensureCanBeCompleted` and `ensureTokenIsValid`
unfoldable pub complete :
    (Text → Text) → ℕ → ℕ → Text → EmailVerification → Result Error EmailVerification
unfolding verify_token
complete sha256 now at token v = do
  throw_if (is_past now v.expires_at) email_verification_expired
  throw_if (is_some v.verified_at) email_verification_already_completed
  throw_if (not (verify_token sha256 v.token_hash token)) invalid_token
  ok (record v { verified_at = some at; updated_at = at })

pub record PasswordReset : Type 0 where
  pub id : Text
  pub authentication_account_id : Text
  pub token_hash : Text
  pub expires_at : ℕ
  pub used_at : Option ℕ
  pub created_at : ℕ
  pub updated_at : ℕ

unfoldable pub restore_reset : PasswordReset → Result Error PasswordReset
restore_reset r = do throw_if (is_blank r.authentication_account_id) empty_account_id; ok r

-- The time of use in the argument is not read.
unfoldable pub create_reset : PasswordReset → Result Error PasswordReset
unfolding restore_reset
create_reset r = restore_reset (record r { used_at = none })

-- `PasswordReset.isPending`
unfoldable pub is_reset_pending : ℕ → PasswordReset → Bool
is_reset_pending now r = not (is_some r.used_at) && not (is_past now r.expires_at)

-- `PasswordReset.use`, with `ensureCanBeUsed` and `ensureTokenIsValid`
unfoldable pub use_reset : (Text → Text) → ℕ → ℕ → Text → PasswordReset → Result Error PasswordReset
unfolding verify_token
use_reset sha256 now at token r = do
  throw_if (is_past now r.expires_at) password_reset_expired
  throw_if (is_some r.used_at) password_reset_already_used
  throw_if (not (verify_token sha256 r.token_hash token)) invalid_token
  ok (record r { used_at = some at; updated_at = at })
