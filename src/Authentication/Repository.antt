-- ===== src/Authentication/Repository.antt =====
-- The repositories and mappers: src/core/authentication/infrastructure/repositories and
-- infrastructure/mappers. A row is kept as the entity that `toPersistence` wrote; reading it back goes
-- through the constructors, so a row that does not pass their checks throws. The keys of the tables
-- are fresh identifiers, and an insert under one does not fail.
use neltrik_backend.Prelude.{
  ℕ, Bool, true, not, ◌&&◌, Option, none, some, is_some, List, [], ◌∷◌, if◌then◌else◌,
}
use neltrik_backend.Prelude.Text.{Text, text_eq}
use neltrik_backend.Prelude.Result.{Result, ok, err}
use neltrik_backend.Prelude.Exec.{◌>>=◌}
use neltrik_backend.Prelude.Rows.{find_first, replace_first, update_where}
use neltrik_backend.Authentication.Domain.Values.{
  Error, record_not_found, create_token_hash, create_password_hash,
}
use neltrik_backend.Authentication.Domain.Session
use neltrik_backend.Authentication.Domain.Session.{AuthenticationSession}
use neltrik_backend.Authentication.Domain.Account
use neltrik_backend.Authentication.Domain.Account.{AuthenticationAccount}
use neltrik_backend.Authentication.Domain.Tokens.{
  EmailVerification, PasswordReset, restore_verification, restore_reset,
}
use neltrik_backend.Authentication.World.{Env, World, M, new_date}

-- `AuthenticationAccountMapper.toDomain`: an empty hash is read as no hash.
unfoldable pub account_to_domain : AuthenticationAccount → Result Error AuthenticationAccount
account_to_domain a = elim a.password_hash [
  | none ↦ Account.restore a
  | some h ↦ elim h [
    | [] ↦ Account.restore (record a { password_hash = none })
    | c ∷ s ↦ elim (create_password_hash (c ∷ s)) [
      | ok hash ↦ Account.restore (record a { password_hash = some hash })
      | err e ↦ err e
    ]
  ]
]

-- `AuthenticationSessionMapper.toDomain`
unfoldable pub session_to_domain : AuthenticationSession → Result Error AuthenticationSession
session_to_domain s = Session.restore s

-- `EmailVerificationMapper.toDomain`
unfoldable pub verification_to_domain : EmailVerification → Result Error EmailVerification
verification_to_domain v = elim (create_token_hash v.token_hash) [
  | ok hash ↦ restore_verification (record v { token_hash = hash })
  | err e ↦ err e
]

-- `PasswordResetMapper.toDomain`
unfoldable pub reset_to_domain : PasswordReset → Result Error PasswordReset
reset_to_domain r = elim (create_token_hash r.token_hash) [
  | ok hash ↦ restore_reset (record r { token_hash = hash })
  | err e ↦ err e
]

-- `if (!row) { return null; } return toDomain(row);`
abbrev pub read_row : {A : Type 0} → (A → Result Error A) → Option A → Result Error (Option A)
read_row to_domain none = ok none
read_row to_domain (some row) = elim (to_domain row) [ ok a ↦ ok (some a) | err e ↦ err e ]

module _ (env : Env) where
  -- The filter that `tenantClient` adds on sessions: `ownerId`, when a user is known.
  abbrev pub owns : Option Text → AuthenticationSession → Bool
  owns none s = true
  owns (some user) s = text_eq s.owner_id user

  abbrev pub has_session_id : Text → AuthenticationSession → Bool
  has_session_id id s = text_eq s.id id

  abbrev pub session_row : Text → AuthenticationSession → Bool
  session_row id s = has_session_id id s && owns env.owner s

  -- `PrismaAuthenticationSessionRepository.findById`
  unfoldable pub find_session : Text → M (Option AuthenticationSession)
  unfolding find_first
  find_session id w =
      (read_row session_to_domain (find_first (session_row id) w.committed.sessions), w)

  abbrev pub session_hash : Text → AuthenticationSession → Bool
  session_hash hash s = text_eq s.refresh_token_hash hash && owns env.owner s

  -- `PrismaAuthenticationSessionRepository.findByRefreshTokenHash`
  unfoldable pub find_session_by_hash : Text → M (Option AuthenticationSession)
  unfolding find_first
  find_session_by_hash hash w =
      (read_row session_to_domain (find_first (session_hash hash) w.committed.sessions), w)

  abbrev put_sessions : List AuthenticationSession → World → World
  put_sessions ss w = record w { committed = record w.committed { sessions = ss } }

  -- `PrismaAuthenticationSessionRepository.create`
  abbrev pub create_session : AuthenticationSession → M (Unit {0})
  create_session s w = (ok tt, put_sessions (s ∷ w.committed.sessions) w)

  -- `PrismaAuthenticationSessionRepository.update`: the whole row is written, and a row that is not
  -- there throws.
  unfoldable pub update_session : AuthenticationSession → M (Unit {0})
  unfolding find_first replace_first
  update_session s w =
      if is_some (find_first (session_row s.id) w.committed.sessions)
      then (ok tt, put_sessions (replace_first (session_row s.id) s w.committed.sessions) w)
      else (err record_not_found, w)

  abbrev pub is_live_of : Text → AuthenticationSession → Bool
  is_live_of account s = text_eq s.authentication_account_id account && not (is_some s.revoked_at)

  abbrev pub revoke_at : ℕ → ℕ → AuthenticationSession → AuthenticationSession
  revoke_at at later s = record s { revoked_at = some at; updated_at = later }

  abbrev put_pending_sessions : List AuthenticationSession → World → World
  put_pending_sessions ss w = record w { pending = record w.pending { sessions = ss } }

  abbrev pub revoke_where : (AuthenticationSession → Bool) → ℕ → ℕ → M (Unit {0})
  revoke_where p at later w =
      (ok tt, put_pending_sessions (update_where p (revoke_at at later) w.pending.sessions) w)

  -- `PrismaAuthenticationSessionRepository.invalidateByAccount`
  unfoldable pub invalidate_sessions : Text → M (Unit {0})
  unfolding update_where
  invalidate_sessions account = do
    at ← new_date env
    later ← new_date env
    revoke_where (is_live_of account) at later

  -- `PrismaAuthenticationSessionRepository.revokeAllExcept`
  unfoldable pub revoke_all_except : Text → Text → M (Unit {0})
  unfolding update_where
  revoke_all_except account current = do
    at ← new_date env
    later ← new_date env
    revoke_where (λ s. is_live_of account s && not (has_session_id current s)) at later

  abbrev pub read_account : (AuthenticationAccount → Bool) → M (Option AuthenticationAccount)
  read_account p w = (read_row account_to_domain (find_first p w.committed.accounts), w)

  -- `PrismaAuthenticationAccountRepository.findById`
  unfoldable pub find_account : Text → M (Option AuthenticationAccount)
  unfolding find_first
  find_account id = read_account (λ a. text_eq a.id id)

  -- `PrismaAuthenticationAccountRepository.findByUserId`
  unfoldable pub find_account_by_user_id : Text → M (Option AuthenticationAccount)
  unfolding find_first
  find_account_by_user_id user = read_account (λ a. text_eq a.user_id user)

  -- `PrismaAuthenticationAccountRepository.findByEmail`
  unfoldable pub find_account_by_email : Text → M (Option AuthenticationAccount)
  unfolding find_first
  find_account_by_email email = read_account (λ a. text_eq a.email email)

  -- `PrismaAuthenticationAccountRepository.update`, by the client of a transaction
  unfoldable pub update_account : AuthenticationAccount → M (Unit {0})
  unfolding find_first replace_first
  update_account a w =
      if is_some (find_first (λ b. text_eq b.id a.id) w.pending.accounts)
      then (
        ok tt,
        record w {
          pending = record w.pending {
            accounts = replace_first (λ b. text_eq b.id a.id) a w.pending.accounts;
          };
        },
      )
      else (err record_not_found, w)

  -- `PrismaEmailVerificationRepository.findByTokenHash`
  unfoldable pub find_verification : Text → M (Option EmailVerification)
  unfolding find_first
  find_verification hash w = (
    read_row verification_to_domain
        (find_first (λ v. text_eq v.token_hash hash) w.committed.verifications),
    w,
  )

  abbrev put_verifications : List EmailVerification → World → World
  put_verifications vs w = record w { pending = record w.pending { verifications = vs } }

  -- `PrismaEmailVerificationRepository.create`, by the client of a transaction
  abbrev pub insert_verification : EmailVerification → M (Unit {0})
  insert_verification v w = (ok tt, put_verifications (v ∷ w.pending.verifications) w)

  -- `PrismaEmailVerificationRepository.update`, by the client of a transaction
  unfoldable pub update_verification : EmailVerification → M (Unit {0})
  unfolding find_first replace_first
  update_verification v w =
      if is_some (find_first (λ u. text_eq u.id v.id) w.pending.verifications)
      then (
        ok tt,
        put_verifications (replace_first (λ u. text_eq u.id v.id) v w.pending.verifications) w,
      )
      else (err record_not_found, w)

  abbrev pub is_open_verification_of : Text → EmailVerification → Bool
  is_open_verification_of account v =
      text_eq v.authentication_account_id account && not (is_some v.verified_at)

  abbrev pub expire_verifications : Text → ℕ → ℕ → M (Unit {0})
  expire_verifications account at later w = (
    ok tt,
    put_verifications
        (update_where (is_open_verification_of account)
          (λ v. record v { expires_at = at; updated_at = later }) w.pending.verifications)
        w,
  )

  -- `PrismaEmailVerificationRepository.invalidatePendingByAccount`
  unfoldable pub invalidate_verifications : Text → M (Unit {0})
  unfolding update_where
  invalidate_verifications account = do
    at ← new_date env
    later ← new_date env
    expire_verifications account at later

  -- `PrismaPasswordResetRepository.findByTokenHash`
  unfoldable pub find_reset : Text → M (Option PasswordReset)
  unfolding find_first
  find_reset hash w =
      (read_row reset_to_domain (find_first (λ r. text_eq r.token_hash hash) w.committed.resets), w)

  abbrev put_resets : List PasswordReset → World → World
  put_resets rs w = record w { pending = record w.pending { resets = rs } }

  -- `PrismaPasswordResetRepository.create`, by the client of a transaction
  abbrev pub insert_reset : PasswordReset → M (Unit {0})
  insert_reset r w = (ok tt, put_resets (r ∷ w.pending.resets) w)

  -- `PrismaPasswordResetRepository.update`, by the client of a transaction
  unfoldable pub update_reset : PasswordReset → M (Unit {0})
  unfolding find_first replace_first
  update_reset r w =
      if is_some (find_first (λ q. text_eq q.id r.id) w.pending.resets)
      then (ok tt, put_resets (replace_first (λ q. text_eq q.id r.id) r w.pending.resets) w)
      else (err record_not_found, w)

  abbrev pub is_open_reset_of : Text → PasswordReset → Bool
  is_open_reset_of account r =
      text_eq r.authentication_account_id account && not (is_some r.used_at)

  abbrev pub expire_resets : Text → ℕ → ℕ → M (Unit {0})
  expire_resets account at later w = (
    ok tt,
    put_resets
        (update_where (is_open_reset_of account)
          (λ r. record r { expires_at = at; updated_at = later }) w.pending.resets)
        w,
  )

  -- `PrismaPasswordResetRepository.invalidatePendingByAccount`
  unfoldable pub invalidate_resets : Text → M (Unit {0})
  unfolding update_where
  invalidate_resets account = do
    at ← new_date env
    later ← new_date env
    expire_resets account at later
