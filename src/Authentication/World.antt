-- ===== src/Authentication/World.antt =====
-- The world of the authentication use cases: the four tables (as committed, and as the open transaction
-- sees them), the notifications that were sent, and a counter of the calls that leave the process or
-- read the clock. What such a call answers is a parameter, `Env`.
use neltrik_backend.Prelude.{
  ℕ, ◌+◌, ◌*◌, Bool, Option, none, some, List, [], ◌∷◌, ◌++◌, if◌then◌else◌,
}
use neltrik_backend.Prelude.Text.{Text}
use neltrik_backend.Prelude.Result.{Result, ok, err}
use neltrik_backend.Prelude.Exec.{Exec}
use neltrik_backend.Authentication.Domain.Values.{
  Error, service_failure, user_not_found, role_not_found, tenant_not_found,
}
use neltrik_backend.Authentication.Domain.Session.{AuthenticationSession}
use neltrik_backend.Authentication.Domain.Account.{AuthenticationAccount}
use neltrik_backend.Authentication.Domain.Tokens.{EmailVerification, PasswordReset}

-- What `UserApi.getUserById` answers.
pub record IdentityUser : Type 0 where
  pub tenant_id : Text
  pub role_id : Text
  pub first_name : Text

-- `AccessTokenPayload`
pub record AccessTokenPayload : Type 0 where
  pub user_id : Text
  pub email : Text
  pub tenant_id : Text
  pub role_code : Text
  pub session_id : Text

-- Code of other modules, of libraries and of the platform. `fault n` says that the n-th call throws
-- (a service, a commit); such a call has no effect. `compare` and `bcrypt` are those of bcrypt,
-- `sha256` is the hash of node:crypto, `random n` what the n-th draw gives.
pub record Env : Type 0 where
  pub fault : ℕ → Bool
  pub clock : ℕ → ℕ
  pub random : ℕ → Text
  pub sha256 : Text → Text
  pub compare : Text → Text → Bool
  pub bcrypt : ℕ → Text → Text
  pub user_by_id : ℕ → Text → Option IdentityUser
  pub role_code_by_id : ℕ → Text → Option Text
  pub tenant_name_by_id : ℕ → Text → Option Text
  pub sign : ℕ → AccessTokenPayload → Text
  pub csrf_token : ℕ → Text → Text
  pub refresh_token_expires_in : ℕ
  pub frontend_url : Text
  -- the owner that `PrismaService.tenantClient` adds to every `where` on sessions, if it adds one
  pub owner : Option Text

-- `MAX_AGE.ACCESS_TOKEN`
abbrev pub access_token_max_age : ℕ
access_token_max_age = 15 * 60 * 1000

pub record Db : Type 0 where
  pub accounts : List AuthenticationAccount
  pub sessions : List AuthenticationSession
  pub verifications : List EmailVerification
  pub resets : List PasswordReset

-- No transaction is open.
abbrev pub no_rows : Db
no_rows = record { accounts = []; sessions = []; verifications = []; resets = [] }

-- `notificationApi.send({ recipientId, recipientEmail, payload: { name, url, tenantName } })`
pub record Notification : Type 0 where
  pub tenant_id : Text
  pub recipient_id : Text
  pub recipient_email : Text
  pub name : Text
  pub url : Text
  pub tenant_name : Text

pub record World : Type 0 where
  pub committed : Db
  pub pending : Db
  pub sent : List Notification
  pub calls : ℕ

abbrev pub M : Type 0 → Type 0
M A = Exec World Error A

abbrev pub tick : World → World
tick w = record w { calls = w.calls + 1 }

module _ (env : Env) where
  -- `new Date()`
  abbrev pub new_date : M ℕ
  new_date w = (ok (env.clock w.calls), tick w)

  -- `randomUUID()`, `randomBytes(32).toString("hex")`, `idGenerator.generate()`
  abbrev pub draw : M Text
  draw w = (ok (env.random w.calls), tick w)

  -- A call that answers `a` and does `f`, or throws.
  abbrev pub service : {A : Type 0} → A → (World → World) → M A
  service a f w = if env.fault w.calls then (err service_failure, tick w) else (ok a, tick (f w))

  -- A query of another module, which throws `e` if it finds nothing.
  abbrev pub query : {A : Type 0} → Option A → Error → M A
  query none e w = (err e, tick w)
  query (some a) e w = service a (λ v. v) w

  unfoldable pub get_user_by_id : Text → M IdentityUser
  get_user_by_id id w = query (env.user_by_id w.calls id) user_not_found w

  unfoldable pub get_role_by_id : Text → M Text
  get_role_by_id id w = query (env.role_code_by_id w.calls id) role_not_found w

  unfoldable pub get_tenant_by_id : Text → M Text
  get_tenant_by_id id w = query (env.tenant_name_by_id w.calls id) tenant_not_found w

  -- `tokenProvider.generateAccessToken(payload)`
  unfoldable pub generate_access_token : AccessTokenPayload → M Text
  generate_access_token payload w = service (env.sign w.calls payload) (λ v. v) w

  -- `csrfTokenProvider.generate(sessionId)`
  abbrev pub generate_csrf_token : Text → M Text
  generate_csrf_token id w = (ok (env.csrf_token w.calls id), tick w)

  unfoldable pub send : Notification → M (Unit {0})
  send n w = service tt (λ v. record v { sent = v.sent ++ n ∷ [] }) w

  abbrev pub commit : {A : Type 0} → Result Error A → M A
  commit (ok a) w = service a (λ v. record v { committed = v.pending }) w
  commit (err e) w = (err e, w)

  abbrev close : {A : Type 0} → Result Error A × World → Result Error A × World
  close (r, w) = (r, record w { pending = no_rows })

  -- `transactionManager.execute(m)`: what `m` wrote by its client is committed if it returns.
  unfoldable pub transaction : {A : Type 0} → M A → M A
  transaction m w = let (r, w') = m (record w { pending = w.committed }) in close (commit r w')
