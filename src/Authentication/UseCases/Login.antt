-- ===== src/Authentication/UseCases/Login.antt =====
-- LoginUseCase, application/use-cases/authentication-session/login, with
-- EmailPasswordProviderStrategy and its factory, infrastructure/strategies/provider.
use neltrik_backend.Prelude.{◌+◌, ◌*◌, Bool, false, not, Option, none, some}
use neltrik_backend.Prelude.Text.{Text, text, text_eq}
use neltrik_backend.Prelude.Exec.{◌>>=◌, ◌>>◌, pure, throw_if, lift, or_throw}
use neltrik_backend.Authentication.Domain.Values.{
  create_expiration, account_not_found, invalid_credentials, unsupported_provider,
}
use neltrik_backend.Authentication.Domain.Session
use neltrik_backend.Authentication.Domain.Session.{AuthenticationSession}
use neltrik_backend.Authentication.Domain.Account.{AuthenticationAccount}
use neltrik_backend.Authentication.World.{
  Env, M, IdentityUser, access_token_max_age, new_date, draw, get_user_by_id, get_role_by_id,
  generate_access_token, generate_csrf_token,
}
use neltrik_backend.Authentication.Repository.{create_session, find_account_by_email}

-- `LoginInput`
pub record LoginInput : Type 0 where
  pub email : Text
  pub password : Text
  pub ip_address : Option Text
  pub user_agent : Option Text

-- `LoginOutput`
pub record LoginOutput : Type 0 where
  pub session_id : Text
  pub access_token : Text
  pub refresh_token : Text
  pub csrf_token : Text

-- The providers that `ProviderAuthenticationStrategyFactory.create` knows.
unfoldable pub is_supported : Text → Bool
is_supported provider = text_eq provider (text "email-password")

module _ (env : Env) where
  -- `EmailPasswordProviderStrategy.authenticate`: whether it gives a profile
  unfoldable pub authenticate : AuthenticationAccount → Text → Bool
  authenticate account password = elim account.password_hash [
    | none ↦ false
    | some hash ↦ env.compare password hash
  ]

  -- `LoginUseCase.execute`, once the user and the role are known.
  unfoldable pub open_session :
      LoginInput → AuthenticationAccount → M (AuthenticationSession × Text)
  open_session input account = do
    refresh_token ← draw env
    now ← new_date env
    base ← new_date env
    id ← draw env
    access_base ← new_date env
    access_now ← new_date env
    expires_at ← lift (create_expiration access_now (access_base + access_token_max_age))
    refresh_now ← new_date env
    refresh_expires_at ←
        lift (create_expiration refresh_now (base + env.refresh_token_expires_in * 1000))
    session ← lift (
        Session.create (record {
          id = id;
          authentication_account_id = account.id;
          owner_id = account.user_id;
          refresh_token_hash = env.sha256 refresh_token;
          expires_at = expires_at;
          refresh_token_expires_at = refresh_expires_at;
          revoked_at = none;
          last_used_at = none;
          ip_address = input.ip_address;
          user_agent = input.user_agent;
          created_at = now;
          updated_at = now;
        }))
    create_session env session
    pure (session, refresh_token)

  -- `LoginUseCase.execute` after the session has been created.
  unfoldable pub issue_tokens :
      AuthenticationAccount → IdentityUser → Text → AuthenticationSession × Text → M LoginOutput
  issue_tokens account user role_code (session, refresh_token) = do
    access_token ← generate_access_token env (record {
      user_id = account.user_id;
      email = account.email;
      tenant_id = user.tenant_id;
      role_code = role_code;
      session_id = session.id;
    })
    csrf_token ← generate_csrf_token env session.id
    pure (record {
      session_id = session.id;
      access_token = access_token;
      refresh_token = refresh_token;
      csrf_token = csrf_token;
    })

  -- `LoginUseCase.execute` for the account that it has found.
  unfoldable pub login_to : LoginInput → AuthenticationAccount → M LoginOutput
  unfolding open_session issue_tokens
  login_to input account = do
    throw_if (not (is_supported account.provider)) unsupported_provider
    throw_if (not (authenticate account input.password)) invalid_credentials
    user ← get_user_by_id env account.user_id
    role_code ← get_role_by_id env user.role_id
    opened ← open_session input account
    issue_tokens account user role_code opened

  -- `LoginUseCase.execute`
  unfoldable pub login : LoginInput → M LoginOutput
  unfolding login_to
  login input = do
    found ← find_account_by_email env input.email
    account ← or_throw found account_not_found
    login_to input account
