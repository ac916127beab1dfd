-- ===== src/Authentication/Samples.antt =====
-- A small instance of the services, runs of the use cases on it, and the theorems at these runs.
mod Recovery
use neltrik_backend.Prelude.{
  ℕ, ◌+◌, ◌*◌, ◌≤◌, ◌<◌, Bool, true, false, none, some, [], ◌∷◌, ◌≡◌, ◌≢◌, refl, arith, inl, inr,
  Bool-cases,
}
use neltrik_backend.Prelude.Text.{text, text_eq, trim, is_space, is_blank}
use neltrik_backend.Prelude.Result.{ok, err}
use neltrik_backend.Prelude.Rows.{find_first, replace_first, IsUnique}
use neltrik_backend.Authentication.Domain.Account
use neltrik_backend.Authentication.Domain.Values.{
  create_password_hash, create_expiration, invalid_refresh_token,
}
use neltrik_backend.Authentication.Domain.Session
use neltrik_backend.Authentication.Domain.Session.{AuthenticationSession}
use neltrik_backend.Authentication.Domain.Account.{AuthenticationAccount}
use neltrik_backend.Authentication.World.{
  Env, World, IdentityUser, no_rows, get_user_by_id, get_role_by_id, generate_access_token,
}
use neltrik_backend.Authentication.Repository.{
  find_session, find_session_by_hash, session_row, find_account_by_email, account_to_domain,
  session_to_domain, find_account, update_session,
}
use neltrik_backend.Authentication.UseCases.Sessions.{
  RefreshTokenOutput, refresh_read, refresh_write, refresh_token, logout, revoke_session, resolve,
  ensure_refreshable, renew_for, rotate, refresh_expiration, renew_session, revoke_and_update,
}
use neltrik_backend.Authentication.UseCases.Login.{
  LoginInput, LoginOutput, login, login_to, open_session, issue_tokens, is_supported, authenticate,
}
use neltrik_backend.Authentication.Sessions.Steps.{Step, Steps}
use neltrik_backend.Authentication.Sessions.Lifetime.{IsOld, IsSound, login-expires}
use neltrik_backend.Authentication.Sessions.Revocation.{revoke_session-final, logout-final}
use neltrik_backend.Authentication.Sessions.Rotation.{IsFresh, refresh_token-rotates}
use neltrik_backend.Authentication.Sessions.Race.{refresh_write-revives}

abbrev user : IdentityUser
user = record { tenant_id = text "t"; role_id = text "r"; first_name = text "Ann" }

-- The clock goes on by 50 seconds with each call, and the n-th draw is the text of the number n + 1.
abbrev pub env : Env
env = record {
  fault = λ _. false;
  clock = λ n. n * 50000;
  random = λ n. (n + 1) ∷ [];
  sha256 = λ t. b'#' ∷ t;
  compare = λ password hash. text_eq password hash;
  bcrypt = λ _ password. password;
  user_by_id = λ _ _. some user;
  role_code_by_id = λ _ _. some (text "admin");
  tenant_name_by_id = λ _ _. some (text "Acme");
  sign = λ n _. text "jwt";
  csrf_token = λ n _. text "csrf";
  refresh_token_expires_in = 604800;
  frontend_url = text "https://app";
  owner = none;
}

abbrev pub account : AuthenticationAccount
account = record {
  id = text "a";
  user_id = text "u";
  provider = text "email-password";
  email = text "ann@acme";
  email_verified = true;
  password_hash = some (text "secret");
  created_at = 0;
  updated_at = 0;
}

abbrev start : World
start = record {
  committed = record { accounts = account ∷ []; sessions = []; verifications = []; resets = [] };
  pending = no_rows;
  sent = [];
  calls = 0;
}

abbrev ann : LoginInput
ann = record {
  email = text "ann@acme";
  password = text "secret";
  ip_address = none;
  user_agent = none;
}

abbrev opened : World
opened = (login env ann start).1

logged_in : LoginOutput
logged_in = record {
  session_id = 6 ∷ [];
  access_token = text "jwt";
  refresh_token = 3 ∷ [];
  csrf_token = text "csrf";
}

start-IsSound : IsSound env start
start-IsSound = record {
  distinct = λ m n e. distinct m n e;
  forward = λ m n h. omega arith;
  rows = tt;
  rest = refl;
}
  where
    head_of : (a b : ℕ) → a ∷ [] ≡ b ∷ [] → a ≡ b
    head_of a b e = cc

    distinct : (m n : ℕ) → (m + 1) ∷ [] ≡ (n + 1) ∷ [] → m ≡ n
    distinct m n e = omega (arith, head_of (m + 1) (n + 1) e)

-- A refresh, and a login by the same user, after the first login.
abbrev refreshed : World
refreshed = (refresh_token env (some (3 ∷ [])) opened).1

logins : Steps env opened (login env ann refreshed).1
logins =
    Steps.next refreshed _ (Steps.next opened refreshed Steps.stop (Step.refreshes (some (3 ∷ []))))
      (Step.logs_in ann)

login_returned : (login env ann start).0 ≡ ok logged_in
unfolding logged_in login login_to open_session issue_tokens find_account_by_email find_first
    text_eq account_to_domain create_password_hash trim is_space is_blank Account.restore
    is_supported authenticate get_user_by_id get_role_by_id create_expiration Session.create
    Session.restore generate_access_token
login_returned = refl

late : (login env ann start).1.calls * 50000 + 900000 ≤ (login env ann refreshed).1.calls * 50000
unfolding login login_to open_session issue_tokens find_account_by_email find_first text_eq
    account_to_domain create_password_hash trim is_space is_blank Account.restore is_supported
    authenticate get_user_by_id get_role_by_id create_expiration Session.create Session.restore
    generate_access_token refresh_token refresh_read find_session_by_hash session_to_domain
    ensure_refreshable find_account renew_for rotate refresh_expiration renew_session Session.renew
    Session.ensure_can_be_renewed update_session replace_first
late = omega arith

login-expires_example : (resolve env (6 ∷ []) (login env ann refreshed).1).0 ≢ ok true
unfolding logged_in
login-expires_example =
    login-expires env ann start (login env ann refreshed).1 logged_in start-IsSound login_returned
      logins late

-- A session of Ann's, and a world with it after eleven calls.
abbrev pub session : AuthenticationSession
session = record {
  id = 6 ∷ [];
  authentication_account_id = text "a";
  owner_id = text "u";
  refresh_token_hash = b'#' ∷ 3 ∷ [];
  expires_at = 1500000;
  refresh_token_expires_at = 604900000;
  revoked_at = none;
  last_used_at = none;
  ip_address = none;
  user_agent = none;
  created_at = 150000;
  updated_at = 150000;
}

abbrev live : World
live = record {
  committed = record {
    accounts = account ∷ [];
    sessions = session ∷ [];
    verifications = [];
    resets = [];
  };
  pending = no_rows;
  sent = [];
  calls = 11;
}

six-IsOld : IsOld env 11 (6 ∷ [])
six-IsOld n after e = omega (arith, head_of (n + 1) 6 e)
  where
    head_of : (a b : ℕ) → a ∷ [] ≡ b ∷ [] → a ≡ b
    head_of a b e = cc

abbrev revoked : World
revoked = (revoke_session env (6 ∷ []) live).1

revoked_returned : (revoke_session env (6 ∷ []) live).0 ≡ ok tt
unfolding revoke_session find_session find_first text_eq session_to_domain Session.restore is_blank
    trim is_space revoke_and_update Session.revoke update_session replace_first
revoked_returned = refl

revoke_session-final_example :
    (resolve env (6 ∷ []) (refresh_token env (some (3 ∷ [])) revoked).1).0 ≢ ok true
unfolding text_eq
revoke_session-final_example =
    revoke_session-final env (6 ∷ []) live (refresh_token env (some (3 ∷ [])) revoked).1 six-IsOld
      refl (IsUnique.here session [] refl tt) revoked_returned
      (Steps.next revoked _ Steps.stop (Step.refreshes (some (3 ∷ []))))

abbrev left : World
left = (logout env (some (3 ∷ [])) live).1

session_found : find_session_by_hash env (b'#' ∷ 3 ∷ []) live ≡ (ok (some session), live)
unfolding find_session_by_hash find_first text_eq session_to_domain Session.restore is_blank trim
    is_space
session_found = refl

left_returned : (logout env (some (3 ∷ [])) live).0 ≡ ok tt
unfolding logout find_session_by_hash find_first text_eq session_to_domain Session.restore is_blank
    trim is_space revoke_and_update Session.revoke update_session replace_first
left_returned = refl

logout-final_example : (resolve env (6 ∷ []) (login env ann left).1).0 ≢ ok true
unfolding text_eq
logout-final_example =
    logout-final env (3 ∷ []) session live (login env ann left).1 session_found six-IsOld refl
      (IsUnique.here session [] refl tt) left_returned
      (Steps.next left _ Steps.stop (Step.logs_in ann))

renewed_output : RefreshTokenOutput
renewed_output = record {
  access_token = text "jwt";
  refresh_token = 17 ∷ [];
  csrf_token = text "csrf";
}

abbrev renewed : AuthenticationSession
renewed = record session {
  refresh_token_hash = b'#' ∷ 17 ∷ [];
  refresh_token_expires_at = 605650000;
  last_used_at = some 1100000;
  updated_at = 1150000;
}

refresh_read_returned : (refresh_read env (some (3 ∷ [])) live).0 ≡ ok (renewed, renewed_output)
unfolding renewed_output refresh_read find_session_by_hash session_to_domain ensure_refreshable
    find_account renew_for rotate refresh_expiration renew_session Session.renew
    Session.ensure_can_be_renewed find_first text_eq Session.restore is_blank trim is_space
    account_to_domain create_password_hash Account.restore get_user_by_id get_role_by_id
    create_expiration generate_access_token
refresh_read_returned = refl

refresh_returned : (refresh_token env (some (3 ∷ [])) live).0 ≡ ok renewed_output
unfolding renewed_output refresh_token refresh_read find_session_by_hash session_to_domain
    ensure_refreshable find_account renew_for rotate refresh_expiration renew_session Session.renew
    Session.ensure_can_be_renewed find_first text_eq Session.restore is_blank trim is_space
    account_to_domain create_password_hash Account.restore get_user_by_id get_role_by_id
    create_expiration generate_access_token update_session replace_first
refresh_returned = refl

three-IsFresh : IsFresh env 11 (3 ∷ [])
three-IsFresh n after e = omega (arith, second_of (n + 1) 3 e)
  where
    second_of : (a b : ℕ) → b'#' ∷ a ∷ [] ≡ b'#' ∷ b ∷ [] → a ≡ b
    second_of a b e = cc

one_row : (p : AuthenticationSession → Bool) → IsUnique p (session ∷ [])
one_row p = elim (Bool-cases (p session)) [
  | inl yes_it ↦ IsUnique.here session [] yes_it tt
  | inr other ↦ IsUnique.there session [] other IsUnique.empty
]

abbrev rotated : World
rotated = (refresh_token env (some (3 ∷ [])) live).1

refresh_token-rotates_example :
    (refresh_token env (some (3 ∷ [])) (login env ann rotated).1).0 ≡ err invalid_refresh_token
refresh_token-rotates_example =
    refresh_token-rotates env (3 ∷ []) live (login env ann rotated).1 renewed_output three-IsFresh
      (one_row _) (λ id. one_row _) refl refresh_returned
      (Steps.next rotated _ Steps.stop (Step.logs_in ann))

-- The session is revoked between the two halves of a refresh.
abbrev read : World
read = (refresh_read env (some (3 ∷ [])) live).1

abbrev between : World
between = (revoke_session env (6 ∷ []) read).1

abbrev dead : AuthenticationSession
dead = record session { revoked_at = some 1200000; updated_at = 1250000 }

dead_found : find_first (session_row env (6 ∷ [])) between.committed.sessions ≡ some dead
unfolding renewed_output refresh_read find_session_by_hash session_to_domain ensure_refreshable
    find_account renew_for rotate refresh_expiration renew_session Session.renew
    Session.ensure_can_be_renewed find_first text_eq Session.restore is_blank trim is_space
    account_to_domain create_password_hash Account.restore get_user_by_id get_role_by_id
    create_expiration generate_access_token revoke_session find_session revoke_and_update
    Session.revoke update_session replace_first
dead_found = refl

timely : between.calls * 50000 < 1500000
unfolding renewed_output refresh_read find_session_by_hash session_to_domain ensure_refreshable
    find_account renew_for rotate refresh_expiration renew_session Session.renew
    Session.ensure_can_be_renewed find_first text_eq Session.restore is_blank trim is_space
    account_to_domain create_password_hash Account.restore get_user_by_id get_role_by_id
    create_expiration generate_access_token revoke_session find_session revoke_and_update
    Session.revoke update_session replace_first
timely = omega arith

refresh_write-revives_example :
    ((resolve env (6 ∷ []) between).0 ≢ ok true)
    × ((refresh_write env (renewed, renewed_output) between).0 ≡ ok renewed_output)
    × ((resolve env (6 ∷ []) (refresh_write env (renewed, renewed_output) between).1).0 ≡ ok true)
unfolding is_blank trim is_space
refresh_write-revives_example =
    refresh_write-revives env (3 ∷ []) live between (renewed, renewed_output) dead
      refresh_read_returned (Steps.next read _ Steps.stop (Step.revokes (6 ∷ []))) dead_found refl
      refl timely
