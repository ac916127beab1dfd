-- ===== src/Authentication/UseCases/Recovery.antt =====
-- The use cases of password resets and e-mail verifications: application/use-cases/password-reset and
-- application/use-cases/email-verification.
use neltrik_backend.Prelude.{ℕ, ◌+◌, ◌*◌, Option, none, some, ◌++◌}
use neltrik_backend.Prelude.Text.{Text, text}
use neltrik_backend.Prelude.Exec.{◌>>=◌, ◌>>◌, pure, throw_if, lift, or_throw}
use neltrik_backend.Authentication.Domain.Values.{
  create_expiration, create_password_hash, account_not_found, email_already_verified,
  email_verification_not_found, password_reset_not_found,
}
use neltrik_backend.Authentication.Domain.Account
use neltrik_backend.Authentication.Domain.Account.{AuthenticationAccount}
use neltrik_backend.Authentication.Domain.Tokens.{
  EmailVerification, PasswordReset, create_verification, create_reset, complete, use_reset,
}
use neltrik_backend.Authentication.World.{
  Env, M, new_date, draw, service, get_user_by_id, get_tenant_by_id, send, transaction,
}
use neltrik_backend.Authentication.Repository.{
  find_account, find_account_by_email, find_account_by_user_id, update_account, find_reset,
  insert_reset, update_reset, invalidate_resets, invalidate_sessions, find_verification,
  insert_verification, update_verification, invalidate_verifications,
}

-- `24 * 60 * 60 * 1000`
abbrev pub day_ms : ℕ
day_ms = 24 * 60 * 60 * 1000

module _ (env : Env) where
  -- `passwordHasher.hash(password)`
  abbrev pub hash_password : Text → M Text
  hash_password password w = service env (env.bcrypt w.calls password) (λ v. v) w

  -- The body of the transaction of `ResetPasswordUseCase.execute`, with the reset that was used.
  unfoldable pub write_reset : Text → AuthenticationAccount → PasswordReset → M (Unit {0})
  write_reset new_password account used = do
    update_reset env used
    hashed ← hash_password new_password
    hash ← lift (create_password_hash hashed)
    updated ← new_date env
    update_account env (Account.update updated (some hash) account)
    invalidate_sessions env account.id

  -- The body of the transaction of `ResetPasswordUseCase.execute`.
  unfoldable pub reset_in_transaction :
      Text → Text → PasswordReset → AuthenticationAccount → M (Unit {0})
  unfolding write_reset
  reset_in_transaction token new_password reset account = do
    now ← new_date env
    at ← new_date env
    used ← lift (use_reset env.sha256 now at token reset)
    write_reset new_password account used

  -- `ResetPasswordUseCase.execute`
  unfoldable pub reset_password : Text → Text → M (Unit {0})
  unfolding reset_in_transaction
  reset_password token new_password = do
    found ← find_reset env (env.sha256 token)
    reset ← or_throw found password_reset_not_found
    owner ← find_account env reset.authentication_account_id
    account ← or_throw owner account_not_found
    transaction env (reset_in_transaction token new_password reset account)

  -- The body of the transaction of `RequestPasswordResetUseCase.execute`.
  unfoldable pub request_in_transaction : Text → AuthenticationAccount → M (Unit {0})
  request_in_transaction hash account = do
    invalidate_resets env account.id
    id ← draw env
    base ← new_date env
    now ← new_date env
    expires_at ← lift (create_expiration now (base + day_ms))
    created ← new_date env
    updated ← new_date env
    reset ← lift (
        create_reset (record {
          id = id;
          authentication_account_id = account.id;
          token_hash = hash;
          expires_at = expires_at;
          used_at = none;
          created_at = created;
          updated_at = updated;
        }))
    insert_reset env reset

  -- `RequestPasswordResetUseCase.execute`, for the account that it has found.
  unfoldable pub request_for : AuthenticationAccount → M (Unit {0})
  unfolding request_in_transaction
  request_for account = do
    token ← draw env
    transaction env (request_in_transaction (env.sha256 token) account)
    user ← get_user_by_id env account.user_id
    tenant_name ← get_tenant_by_id env user.tenant_id
    send env (record {
      tenant_id = user.tenant_id;
      recipient_id = account.user_id;
      recipient_email = account.email;
      name = user.first_name;
      url = env.frontend_url ++ (text "/auth/reset-password?token=" ++ token);
      tenant_name = tenant_name;
    })

  -- `RequestPasswordResetUseCase.execute`: an unknown address is not told from a known one.
  abbrev pub request_if_found : Option AuthenticationAccount → M (Unit {0})
  request_if_found none = pure tt
  request_if_found (some account) = request_for account

  unfoldable pub request_password_reset : Text → M (Unit {0})
  unfolding request_for
  request_password_reset email = do found ← find_account_by_email env email; request_if_found found

  -- The body of the transaction of `ValidateEmailVerificationUseCase.execute`.
  unfoldable pub verify_in_transaction :
      Text → EmailVerification → AuthenticationAccount → M (Unit {0})
  verify_in_transaction token verification account = do
    now ← new_date env
    at ← new_date env
    completed ← lift (complete env.sha256 now at token verification)
    update_verification env completed
    updated ← new_date env
    verified ← lift (Account.verify_email updated account)
    update_account env verified

  -- `ValidateEmailVerificationUseCase.execute`
  unfoldable pub validate_email : Text → M (Unit {0})
  unfolding verify_in_transaction
  validate_email token = do
    found ← find_verification env (env.sha256 token)
    verification ← or_throw found email_verification_not_found
    owner ← find_account env verification.authentication_account_id
    account ← or_throw owner account_not_found
    transaction env (verify_in_transaction token verification account)

  -- The body of the transaction of `RequestEmailVerificationUseCase.execute`.
  unfoldable pub ask_in_transaction : Text → ℕ → AuthenticationAccount → M (Unit {0})
  ask_in_transaction hash created account = do
    invalidate_verifications env account.id
    id ← draw env
    base ← new_date env
    now ← new_date env
    expires_at ← lift (create_expiration now (base + day_ms))
    verification ← lift (
        create_verification (record {
          id = id;
          authentication_account_id = account.id;
          email = account.email;
          token_hash = hash;
          expires_at = expires_at;
          verified_at = none;
          created_at = created;
          updated_at = created;
        }))
    insert_verification env verification

  -- `RequestEmailVerificationUseCase.execute`
  unfoldable pub request_email_verification : Text → Text → M (Unit {0})
  unfolding ask_in_transaction
  request_email_verification tenant_id user_id = do
    found ← find_account_by_user_id env user_id
    account ← or_throw found account_not_found
    throw_if account.email_verified email_already_verified
    token ← draw env
    created ← new_date env
    transaction env (ask_in_transaction (env.sha256 token) created account)
    user ← get_user_by_id env account.user_id
    tenant_name ← get_tenant_by_id env user.tenant_id
    send env (record {
      tenant_id = tenant_id;
      recipient_id = account.user_id;
      recipient_email = account.email;
      name = user.first_name;
      url = env.frontend_url ++ (text "/auth/verify-email?token=" ++ token);
      tenant_name = tenant_name;
    })
