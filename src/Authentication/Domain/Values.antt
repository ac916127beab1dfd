-- ===== src/Authentication/Domain/Values.antt =====
-- ExpirationDate, TokenHash, Password and PasswordHash: domain/value-objects. A value object is kept as
-- the value that it wraps.
use neltrik_backend.Prelude.{ℕ, Bool, not, ◌&&◌, ◌||◌, leb, ltb, ◌==◌, all, length, is_empty}
use neltrik_backend.Prelude.Text.{Text, text_eq, trim}
use neltrik_backend.Prelude.Result.{Result, ok, ◌>>◌, throw_if}

-- The errors that the module throws, those of the services included.
pub data Error : Type 0 where
  account_not_found session_not_found session_expired session_revoked invalid_refresh_token
        empty_user_id empty_provider empty_email empty_account_id email_already_verified
        email_verification_expired email_verification_already_completed email_verification_not_found
        password_reset_expired password_reset_already_used password_reset_not_found invalid_token
        invalid_token_hash empty_password_hash password_too_short password_too_long
        expiration_in_past invalid_credentials unsupported_provider email_mismatch user_not_found
        role_not_found tenant_not_found record_not_found service_failure :
      Error

-- `ExpirationDate.isExpired`, at the time `now`
abbrev pub is_past : ℕ → ℕ → Bool
is_past now date = leb date now

-- `ExpirationDate.create`, of a valid date
unfoldable pub create_expiration : ℕ → ℕ → Result Error ℕ
create_expiration now date = do throw_if (is_past now date) expiration_in_past; ok date

-- `[a-f0-9]`
abbrev is_hex : ℕ → Bool
is_hex c = (leb b'0' c && leb c b'9') || (leb b'a' c && leb c b'f')

-- `/^[a-f0-9]{64}$/`
unfoldable pub is_sha256 : Text → Bool
is_sha256 s = all is_hex s && length s == 64

-- `TokenHash.create`
unfoldable pub create_token_hash : Text → Result Error Text
create_token_hash value = do
  throw_if (is_empty value || not (is_sha256 value)) invalid_token_hash
  ok value

-- `TokenHash.verify`
unfoldable pub verify_token : (Text → Text) → Text → Text → Bool
verify_token sha256 hash token = text_eq hash (sha256 token)

-- `PasswordHash.create`
unfoldable pub create_password_hash : Text → Result Error Text
create_password_hash value = do
  throw_if (is_empty (trim value)) empty_password_hash
  ok (trim value)

-- `Password.create`
unfoldable pub create_password : Text → Result Error Text
create_password value = do
  throw_if (ltb (length (trim value)) 8) password_too_short
  throw_if (ltb 64 (length (trim value))) password_too_long
  ok (trim value)
