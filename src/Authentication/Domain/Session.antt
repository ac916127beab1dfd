-- ===== src/Authentication/Domain/Session.antt =====
-- AuthenticationSession: domain/entities/authentication-session/index.ts. A method takes the times that
-- it reads from the clock.
use neltrik_backend.Prelude.{ℕ, ◌≡◌, arith, Bool, not, ◌&&◌, Option, none, some, is_some}
use neltrik_backend.Prelude.Text.{Text, is_blank}
use neltrik_backend.Prelude.Result.{Result, ok, ◌>>◌, throw_if}
use neltrik_backend.Authentication.Domain.Values.{
  Error, is_past, session_expired, session_revoked, invalid_refresh_token,
}

pub record AuthenticationSession : Type 0 where
  pub id : Text
  pub authentication_account_id : Text
  pub owner_id : Text
  pub refresh_token_hash : Text
  pub expires_at : ℕ
  pub refresh_token_expires_at : ℕ
  pub revoked_at : Option ℕ
  pub last_used_at : Option ℕ
  pub ip_address : Option Text
  pub user_agent : Option Text
  pub created_at : ℕ
  pub updated_at : ℕ

unfoldable pub restore : AuthenticationSession → Result Error AuthenticationSession
restore s = do throw_if (is_blank s.refresh_token_hash) invalid_refresh_token; ok s

-- The times of revocation and of the last use in the argument are not read.
unfoldable pub create : AuthenticationSession → Result Error AuthenticationSession
unfolding restore
create s = restore (record s { revoked_at = none; last_used_at = none })

abbrev pub is_expired : ℕ → AuthenticationSession → Bool
is_expired now s = is_past now s.expires_at

abbrev pub is_revoked : AuthenticationSession → Bool
is_revoked s = is_some s.revoked_at

abbrev pub is_refresh_token_expired : ℕ → AuthenticationSession → Bool
is_refresh_token_expired now s = is_past now s.refresh_token_expires_at

unfoldable pub can_be_renewed : ℕ → ℕ → AuthenticationSession → Bool
can_be_renewed now later s =
    not (is_expired now s) && not (is_revoked s) && not (is_refresh_token_expired later s)

unfoldable pub ensure_can_be_renewed : ℕ → ℕ → AuthenticationSession → Result Error (Unit {0})
ensure_can_be_renewed now later s = do
  throw_if (is_expired now s) session_expired
  throw_if (is_revoked s) session_revoked
  throw_if (is_refresh_token_expired later s) invalid_refresh_token
  ok tt

unfoldable pub renew :
    ℕ → ℕ → ℕ → ℕ → Text → ℕ → ℕ → AuthenticationSession → Result Error AuthenticationSession
unfolding ensure_can_be_renewed
renew now later used updated hash expires_at refresh_expires_at s = do
  ensure_can_be_renewed now later s
  ok (record s {
    refresh_token_hash = hash;
    expires_at = expires_at;
    refresh_token_expires_at = refresh_expires_at;
    last_used_at = some used;
    updated_at = updated;
  })

unfoldable pub revoke : ℕ → ℕ → AuthenticationSession → Result Error AuthenticationSession
revoke at later s = do
  throw_if (is_revoked s) session_revoked
  ok (record s { revoked_at = some at; updated_at = later })

-- What a renewal that returns has checked and written.
pub record Renewed (s s' : AuthenticationSession) (hash : Text) (expires_at : ℕ) : Type 0 where
  pub was_live : s.revoked_at ≡ none
  pub id : s'.id ≡ s.id
  pub owner : s'.owner_id ≡ s.owner_id
  pub account : s'.authentication_account_id ≡ s.authentication_account_id
  pub token : s'.refresh_token_hash ≡ hash
  pub expires : s'.expires_at ≡ expires_at
  pub live : s'.revoked_at ≡ none

pub renew-Renewed :
    (now later used updated : ℕ) (hash : Text) (expires_at at : ℕ) (s : AuthenticationSession)
    {s' : AuthenticationSession}
    → renew now later used updated hash expires_at at s ≡ ok s'
    → Renewed s s' hash expires_at
unfolding renew ensure_can_be_renewed
renew-Renewed now later used updated hash expires_at at s e = record {
  was_live = ground arith;
  id = ground arith;
  owner = ground arith;
  account = ground arith;
  token = ground arith;
  expires = ground arith;
  live = ground arith;
}
