-- ===== src/Authentication/Sessions/Operations.antt =====
-- Every use case of the module keeps a predicate on the rows of the sessions that obeys the rule.
use neltrik_backend.Prelude.{ℕ, ◌+◌, ◌*◌, ◌≤◌, Option, none, some, ◌≡◌, sym, ap, ◌∙◌, arith}
use mathlib.Core.Path.{subst}
use neltrik_backend.Prelude.Text.{Text}
use neltrik_backend.Prelude.Result.{ok}
use neltrik_backend.Prelude.Exec.{lift, or_throw, ◌>>=◌, pure}
use neltrik_backend.Prelude.Yields.{
  Trivial, ok_unique, yields_rules, Yields-any_pure, Yields-any_lift, Yields-any_throw_if,
  Yields-then, Yields-bind, Yields-pure, Yields-any_or_throw, Yields-lift, Yields-or_throw,
}
use neltrik_backend.Authentication.Domain.Values.{Error}
use neltrik_backend.Authentication.Domain.Session
use neltrik_backend.Authentication.Domain.Session.{AuthenticationSession}
use neltrik_backend.Authentication.Domain.Account.{AuthenticationAccount}
use neltrik_backend.Authentication.Domain.Tokens.{EmailVerification, PasswordReset}
use neltrik_backend.Authentication.World.{Env, M, IdentityUser, draw}
use neltrik_backend.Authentication.UseCases.Sessions.{
  ensure_refreshable, refresh_expiration, renew_session, rotate, renew_for, refresh_read,
  refresh_token, refresh_write, revoke_and_update, logout, revoke_session, revoke_all_sessions,
}
use neltrik_backend.Authentication.UseCases.Login.{
  LoginInput, open_session, issue_tokens, login_to, login,
}
use neltrik_backend.Authentication.UseCases.Recovery.{
  hash_password, write_reset, reset_in_transaction, reset_password, request_in_transaction,
  request_for, request_if_found, request_password_reset, verify_in_transaction, validate_email,
  ask_in_transaction, request_email_verification,
}
use neltrik_backend.Authentication.Repository.{find_session, find_session_by_hash}
use neltrik_backend.Authentication.Sessions.{
  Rule, Safe, Drawn, safe_calls, Safe-new_date, Safe-draw, Safe-generate_csrf_token, Safe-service,
  Safe-transaction,
}
use neltrik_backend.Authentication.Sessions.Rows.{
  safe_rows, Seen, Safe-find_session, Safe-find_session_by_hash, Safe-find_account,
  Safe-find_account_by_user_id, Safe-find_account_by_email, Safe-revoke_all_except,
  Safe-create_session, Safe-update_session,
}

module _ (env : Env) (k : ℕ) (R : AuthenticationSession → Type 0) where
  -- The rules for a method that goes on with the row that a query has found.
  module _ {A : Type 0} {Q : A → Type 0} where
    find-bind :
        (hash : Text) (f : Option AuthenticationSession → M A)
        → ((o : Option AuthenticationSession) → Seen env k R o → Safe env k R Q (f o))
        → Safe env k R Q (find_session_by_hash env hash >>= f)
    find-bind hash f safe = Yields-bind _ f (Safe-find_session_by_hash env k R hash) safe

    find_id-bind :
        (id : Text) (f : Option AuthenticationSession → M A)
        → ((o : Option AuthenticationSession) → Seen env k R o → Safe env k R Q (f o))
        → Safe env k R Q (find_session env id >>= f)
    find_id-bind id f safe = Yields-bind _ f (Safe-find_session env k R id) safe

    found-bind :
        (o : Option AuthenticationSession) (e : Error) (f : AuthenticationSession → M A)
        → Seen env k R o
        → ((s : AuthenticationSession) → R s → Safe env k R Q (f s))
        → Safe env k R Q (or_throw o e >>= f)
    found-bind o e f q safe = Yields-bind _ f (Yields-or_throw o e q) safe

  Safe-ensure_refreshable :
      (s : AuthenticationSession) → Safe env k R Trivial (ensure_refreshable env s)
  unfolding ensure_refreshable
  Safe-ensure_refreshable s = search (yields_rules, safe_calls) depth 12

  Safe-refresh_expiration : (d : ℕ) → Safe env k R Trivial (refresh_expiration env d)
  unfolding refresh_expiration
  Safe-refresh_expiration d = search (yields_rules, safe_calls) depth 12

  module _ (rule : Rule env k R) where
    Safe-renew_session :
        (s : AuthenticationSession) (t : Text) (expiration n : ℕ)
        → k ≤ n
        → t ≡ env.random n
        → R s
        → Safe env k R R (renew_session env s (env.sha256 t) expiration)
    unfolding renew_session
    Safe-renew_session s t expiration n fresh same q =
        Yields-then _ _ (Safe-new_date env k R) λ now.
          Yields-then _ _ (Safe-new_date env k R) λ later.
            Yields-then _ _ (Safe-new_date env k R) λ used.
              Yields-then _ _ (Safe-new_date env k R) λ updated. Yields-lift _ (λ s' e.
                rule.renewed s s' now later used updated expiration n fresh
                  (ap
                      (λ u.
                        Session.renew now later used updated (env.sha256 u) s.expires_at expiration
                          s)
                      (sym same)
                    ∙ e)
                  q)

    Safe-rotate :
        (s : AuthenticationSession) (access : Text)
        → R s
        → Safe env k R (λ p. R p.0) (rotate env s access)
    unfolding rotate
    Safe-rotate s access q = Yields-bind _ _ (Safe-draw env k R) λ token (n, fresh, same).
        Yields-then _ _ (Safe-new_date env k R) λ now.
          Yields-then _ _ (Safe-generate_csrf_token env k R s.id) λ csrf.
            Yields-then _ _ (Safe-refresh_expiration (now + env.refresh_token_expires_in * 1000))
              λ expiration.
                Yields-bind _
                  (λ renewed. pure (
                    renewed,
                    record { access_token = access; refresh_token = token; csrf_token = csrf },
                  ))
                  (Safe-renew_session s token expiration n fresh same q)
                  λ renewed kept. Yields-pure _ kept

    Safe-renew_for :
        (s : AuthenticationSession) (a : AuthenticationAccount)
        → R s
        → Safe env k R (λ p. R p.0) (renew_for env s a)
    unfolding renew_for
    Safe-renew_for s a q = search (Yields-then, safe_calls, Safe-rotate) depth 20

    Safe-refresh_read : (t : Option Text) → Safe env k R (λ p. R p.0) (refresh_read env t)
    unfolding refresh_read
    Safe-refresh_read t =
        search
          (
            find-bind, found-bind, Yields-then, Yields-any_or_throw, Safe-ensure_refreshable,
            Safe-find_account, Safe-renew_for,
          )
          depth 20

    pub Safe-refresh_token : (t : Option Text) → Safe env k R Trivial (refresh_token env t)
    unfolding refresh_token
    Safe-refresh_token t =
        Yields-bind _ (refresh_write env) (Safe-refresh_read t)
          λ p q. Yields-then _ _ (Safe-update_session env k R p.0 q) λ _. Yields-any_pure p.1

    revoke-kept :
        (at later : ℕ) (s : AuthenticationSession)
        → R s
        → (s' : AuthenticationSession) → Session.revoke at later s ≡ ok s'
        → R s'
    unfolding Session.revoke
    revoke-kept at later s q s' e =
        subst R (ok_unique (ground (arith)) e) (rule.revoked at later s q)

    Safe-revoke_and_update :
        (s : AuthenticationSession) → R s → Safe env k R Trivial (revoke_and_update env s)
    unfolding revoke_and_update
    Safe-revoke_and_update s q = Yields-then _ _ (Safe-new_date env k R) λ at.
        Yields-then _ _ (Safe-new_date env k R) λ later.
          Yields-bind _ _ (Yields-lift (Session.revoke at later s) (revoke-kept at later s q))
            λ s' q'. Safe-update_session env k R s' q'

    pub Safe-logout : (t : Option Text) → Safe env k R Trivial (logout env t)
    unfolding logout
    Safe-logout t =
        search (find-bind, found-bind, Yields-then, Yields-any_or_throw, Safe-revoke_and_update)
          depth 20

    pub Safe-revoke_session : (id : Text) → Safe env k R Trivial (revoke_session env id)
    unfolding revoke_session
    Safe-revoke_session id =
        search (find_id-bind, found-bind, Yields-then, Yields-any_throw_if, Safe-revoke_and_update)
          depth 20

    pub Safe-revoke_all_sessions :
        (user current : Text) → Safe env k R Trivial (revoke_all_sessions env user current)
    unfolding revoke_all_sessions
    Safe-revoke_all_sessions user current =
        Yields-then _ _ (Safe-find_account_by_user_id env k R _) λ found.
          Yields-then _ _ (Yields-any_or_throw _ _)
            λ a. Safe-transaction env k R _ (Safe-revoke_all_except env k R rule _ _)

    Safe-hash_password : (p : Text) → Safe env k R Trivial (hash_password env p)
    Safe-hash_password p = record {
      keeps = λ w h. (Safe-service env k R (env.bcrypt w.calls p) (λ v. v) (λ w h. h)).keeps w h;
      gives = λ w h a e. tt;
    }

    Safe-write_reset :
        (p : Text) (a : AuthenticationAccount) (u : PasswordReset)
        → Safe env k R Trivial (write_reset env p a u)
    unfolding write_reset
    Safe-write_reset p a u =
        search (yields_rules, safe_calls, safe_rows, Safe-hash_password) depth 20

    Safe-reset_in_transaction :
        (t p : Text) (r : PasswordReset) (a : AuthenticationAccount)
        → Safe env k R Trivial (reset_in_transaction env t p r a)
    unfolding reset_in_transaction
    Safe-reset_in_transaction t p r a = search (yields_rules, safe_calls, Safe-write_reset) depth 20

    pub Safe-reset_password : (t p : Text) → Safe env k R Trivial (reset_password env t p)
    unfolding reset_password
    Safe-reset_password t p =
        search (yields_rules, safe_rows, Safe-transaction, Safe-reset_in_transaction) depth 20

    Safe-request_in_transaction :
        (t : Text) (a : AuthenticationAccount)
        → Safe env k R Trivial (request_in_transaction env t a)
    unfolding request_in_transaction
    Safe-request_in_transaction t a = search (yields_rules, safe_calls, safe_rows) depth 20

    Safe-request_for : (a : AuthenticationAccount) → Safe env k R Trivial (request_for env a)
    unfolding request_for
    Safe-request_for a =
        search (yields_rules, safe_calls, Safe-transaction, Safe-request_in_transaction) depth 20

    Safe-request_if_found :
        (o : Option AuthenticationAccount) → Safe env k R Trivial (request_if_found env o)
    Safe-request_if_found none = Yields-any_pure tt
    Safe-request_if_found (some a) = Safe-request_for a

    pub Safe-request_password_reset :
        (email : Text) → Safe env k R Trivial (request_password_reset env email)
    unfolding request_password_reset
    Safe-request_password_reset email =
        Yields-then _ _ (Safe-find_account_by_email env k R email)
          λ found. Safe-request_if_found found

    Safe-verify_in_transaction :
        (t : Text) (v : EmailVerification) (a : AuthenticationAccount)
        → Safe env k R Trivial (verify_in_transaction env t v a)
    unfolding verify_in_transaction
    Safe-verify_in_transaction t v a = search (yields_rules, safe_calls, safe_rows) depth 20

    pub Safe-validate_email : (t : Text) → Safe env k R Trivial (validate_email env t)
    unfolding validate_email
    Safe-validate_email t =
        search (yields_rules, safe_rows, Safe-transaction, Safe-verify_in_transaction) depth 20

    Safe-ask_in_transaction :
        (t : Text) (created : ℕ) (a : AuthenticationAccount)
        → Safe env k R Trivial (ask_in_transaction env t created a)
    unfolding ask_in_transaction
    Safe-ask_in_transaction t created a = search (yields_rules, safe_calls, safe_rows) depth 20

    pub Safe-request_email_verification :
        (tenant user : Text) → Safe env k R Trivial (request_email_verification env tenant user)
    unfolding request_email_verification
    Safe-request_email_verification tenant user =
        search (yields_rules, safe_calls, safe_rows, Safe-transaction, Safe-ask_in_transaction)
          depth 20

    create-kept :
        (s s' : AuthenticationSession) (t : Text)
        → Drawn env k R s.id
        → Drawn env k R t
        → s.refresh_token_hash ≡ env.sha256 t
        → Session.create s ≡ ok s'
        → R s'
    unfolding Session.create Session.restore
    create-kept s s' t (n, fresh, same) (m, fresh', same') h e =
        rule.opened s' n m fresh fresh' (ground (arith)) (ground (arith))

    create-bind :
        {A : Type 0} {Q : A → Type 0} (s : AuthenticationSession) (f : AuthenticationSession → M A)
        → (t : Text) → Drawn env k R t
        → Drawn env k R s.id
        → s.refresh_token_hash ≡ env.sha256 t
        → ((s' : AuthenticationSession) → R s' → Safe env k R Q (f s'))
        → Safe env k R Q (lift (Session.create s) >>= f)
    create-bind s f t drawn drawn_id h safe =
        Yields-bind _ f (Yields-lift _ (λ s' e. create-kept s s' t drawn_id drawn h e)) safe

    draw-bind :
        {A : Type 0} {Q : A → Type 0} (f : Text → M A)
        → ((t : Text) → Drawn env k R t → Safe env k R Q (f t))
        → Safe env k R Q (draw env >>= f)
    draw-bind f safe = Yields-bind _ f (Safe-draw env k R) safe

    pub Safe-open_session :
        (i : LoginInput) (a : AuthenticationAccount) → Safe env k R Trivial (open_session env i a)
    unfolding open_session
    Safe-open_session i a =
        search
          (
            draw-bind, create-bind, Yields-then, Yields-any_lift, Yields-any_pure, Yields-any_lift,
            Safe-new_date, Safe-create_session,
          )
          depth 30

    Safe-issue_tokens :
        (a : AuthenticationAccount) (u : IdentityUser) (r : Text) (p : AuthenticationSession × Text)
        → Safe env k R Trivial (issue_tokens env a u r p)
    unfolding issue_tokens
    Safe-issue_tokens a u r p = search (yields_rules, safe_calls) depth 20

    Safe-login_to :
        (i : LoginInput) (a : AuthenticationAccount) → Safe env k R Trivial (login_to env i a)
    unfolding login_to
    Safe-login_to i a =
        search (yields_rules, safe_calls, Safe-open_session, Safe-issue_tokens) depth 20

    pub Safe-login : (i : LoginInput) → Safe env k R Trivial (login env i)
    unfolding login
    Safe-login i = search (yields_rules, safe_rows, Safe-login_to) depth 20
