-- ===== src/Authentication/UseCases/Sessions.antt =====
-- The use cases of a session, application/use-cases/authentication-session, and SessionValidatorProvider,
-- infrastructure/providers/session-validator.
use neltrik_backend.Prelude.{ℕ, ◌+◌, ◌*◌, Bool, false, not, ◌||◌, Option, none, some, [], ◌∷◌}
use neltrik_backend.Prelude.Text.{Text}
use neltrik_backend.Prelude.Exec.{◌>>=◌, ◌>>◌, pure, throw_if, lift, or_throw}
use neltrik_backend.Authentication.Domain.Values.{
  create_expiration, account_not_found, session_not_found, session_expired, session_revoked,
  invalid_refresh_token,
}
use neltrik_backend.Authentication.Domain.Session
use neltrik_backend.Authentication.Domain.Session.{
  AuthenticationSession, is_expired, is_revoked, is_refresh_token_expired,
}
use neltrik_backend.Authentication.Domain.Account.{AuthenticationAccount}
use neltrik_backend.Authentication.World.{
  Env, M, new_date, draw, get_user_by_id, get_role_by_id, generate_access_token,
  generate_csrf_token, transaction,
}
use neltrik_backend.Authentication.Repository.{
  find_session, find_session_by_hash, update_session, revoke_all_except, find_account,
  find_account_by_user_id,
}

-- `!value` throws: an absent or empty text.
abbrev pub truthy : Option Text → Option Text
truthy none = none
truthy (some []) = none
truthy (some (c ∷ s)) = some (c ∷ s)

-- `RefreshTokenOutput`
pub record RefreshTokenOutput : Type 0 where
  pub access_token : Text
  pub refresh_token : Text
  pub csrf_token : Text

-- `ValidateSessionOutput`
pub record ValidateSessionOutput : Type 0 where
  pub authentication_account_id : Text
  pub user_id : Text
  pub email : Text
  pub tenant_id : Text
  pub role_code : Text

-- `GetSessionOutput`
pub record GetSessionOutput : Type 0 where
  pub id : Text
  pub ip_address : Option Text
  pub user_agent : Option Text
  pub last_used_at : Option ℕ
  pub created_at : ℕ
  pub expires_at : ℕ
  pub is_revoked : Bool

unfoldable pub session_output : AuthenticationSession → GetSessionOutput
session_output s = record {
  id = s.id;
  ip_address = s.ip_address;
  user_agent = s.user_agent;
  last_used_at = s.last_used_at;
  created_at = s.created_at;
  expires_at = s.expires_at;
  is_revoked = is_revoked s;
}

module _ (env : Env) where
  -- The guards of `RefreshTokenUseCase.execute` on the session that it has read.
  unfoldable pub ensure_refreshable : AuthenticationSession → M (Unit {0})
  ensure_refreshable session = do
    now ← new_date env
    throw_if (is_expired now session) session_expired
    throw_if (is_revoked session) session_revoked
    later ← new_date env
    throw_if (is_refresh_token_expired later session) invalid_refresh_token

  -- `ExpirationDate.create(tokenProvider.calculateRefreshTokenExpiration())`
  unfoldable pub refresh_expiration : ℕ → M ℕ
  refresh_expiration date = do now ← new_date env; lift (create_expiration now date)

  -- `session.renew(hash, session.expiresAt, expiration)`
  unfoldable pub renew_session : AuthenticationSession → Text → ℕ → M AuthenticationSession
  renew_session session hash expiration = do
    now ← new_date env
    later ← new_date env
    used ← new_date env
    updated ← new_date env
    lift (Session.renew now later used updated hash session.expires_at expiration session)

  -- `RefreshTokenUseCase.execute` from the new refresh token on, up to the update.
  unfoldable pub rotate :
      AuthenticationSession → Text → M (AuthenticationSession × RefreshTokenOutput)
  unfolding refresh_expiration renew_session
  rotate session access_token = do
    new_refresh_token ← draw env
    now ← new_date env
    csrf_token ← generate_csrf_token env session.id
    expiration ← refresh_expiration (now + env.refresh_token_expires_in * 1000)
    renewed ← renew_session session (env.sha256 new_refresh_token) expiration
    pure (
      renewed,
      record {
        access_token = access_token;
        refresh_token = new_refresh_token;
        csrf_token = csrf_token;
      },
    )

  -- `RefreshTokenUseCase.execute` from the account on, up to the update: the renewed session, and what
  -- is answered.
  unfoldable pub renew_for :
      AuthenticationSession → AuthenticationAccount → M (AuthenticationSession × RefreshTokenOutput)
  unfolding rotate
  renew_for session account = do
    user ← get_user_by_id env account.user_id
    role_code ← get_role_by_id env user.role_id
    access_token ← generate_access_token env (record {
      user_id = account.user_id;
      email = account.email;
      tenant_id = user.tenant_id;
      role_code = role_code;
      session_id = session.id;
    })
    rotate session access_token

  -- `RefreshTokenUseCase.execute` up to the update
  unfoldable pub refresh_read : Option Text → M (AuthenticationSession × RefreshTokenOutput)
  unfolding ensure_refreshable renew_for
  refresh_read refresh_token = do
    token ← or_throw (truthy refresh_token) invalid_refresh_token
    found ← find_session_by_hash env (env.sha256 token)
    session ← or_throw found invalid_refresh_token
    ensure_refreshable session
    owner ← find_account env session.authentication_account_id
    account ← or_throw owner account_not_found
    renew_for session account

  abbrev pub refresh_write : AuthenticationSession × RefreshTokenOutput → M RefreshTokenOutput
  refresh_write (renewed, output) = do update_session env renewed; pure output

  -- `RefreshTokenUseCase.execute`
  unfoldable pub refresh_token : Option Text → M RefreshTokenOutput
  unfolding refresh_read
  refresh_token token = do renewed ← refresh_read token; refresh_write renewed

  -- `session.revoke()` and the update
  unfoldable pub revoke_and_update : AuthenticationSession → M (Unit {0})
  revoke_and_update session = do
    at ← new_date env
    later ← new_date env
    revoked ← lift (Session.revoke at later session)
    update_session env revoked

  -- `LogoutUseCase.execute`
  unfoldable pub logout : Option Text → M (Unit {0})
  unfolding revoke_and_update
  logout refresh_token = do
    token ← or_throw (truthy refresh_token) invalid_refresh_token
    found ← find_session_by_hash env (env.sha256 token)
    session ← or_throw found invalid_refresh_token
    revoke_and_update session

  -- `RevokeSessionUseCase.execute`
  unfoldable pub revoke_session : Text → M (Unit {0})
  unfolding revoke_and_update
  revoke_session id = do
    found ← find_session env id
    session ← or_throw found session_not_found
    throw_if (is_revoked session) session_revoked
    revoke_and_update session

  -- `RevokeAllSessionsUseCase.execute`
  unfoldable pub revoke_all_sessions : Text → Text → M (Unit {0})
  revoke_all_sessions user_id current = do
    found ← find_account_by_user_id env user_id
    account ← or_throw found account_not_found
    transaction env (revoke_all_except env account.id current)

  -- `ValidateSessionUseCase.execute`
  unfoldable pub validate_session : Text → M ValidateSessionOutput
  validate_session id = do
    found ← find_session env id
    session ← or_throw found session_not_found
    now ← new_date env
    throw_if (is_expired now session) session_expired
    throw_if (is_revoked session) session_revoked
    owner ← find_account env session.authentication_account_id
    account ← or_throw owner account_not_found
    user ← get_user_by_id env account.user_id
    role_code ← get_role_by_id env user.role_id
    pure (record {
      authentication_account_id = account.id;
      user_id = account.user_id;
      email = account.email;
      tenant_id = user.tenant_id;
      role_code = role_code;
    })

  -- `GetSessionUseCase.execute`
  unfoldable pub get_session : Text → M GetSessionOutput
  unfolding session_output
  get_session id = do
    found ← find_session env id
    session ← or_throw found session_not_found
    pure (session_output session)

  -- The answer of `SessionValidatorProvider.resolve` on validity: the session is there, not revoked, and
  -- not expired.
  abbrev pub is_valid_at : ℕ → Option AuthenticationSession → Bool
  is_valid_at now none = false
  is_valid_at now (some s) = not (is_revoked s || is_expired now s)

  unfoldable pub resolve : Text → M Bool
  resolve id = do found ← find_session env id; now ← new_date env; pure (is_valid_at now found)
