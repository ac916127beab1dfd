-- ===== src/Authentication/Sessions/Steps.antt =====
-- The requests of the module one after the other, and what they keep of the rows of the sessions.
use neltrik_backend.Prelude.{ℕ, Option}
use neltrik_backend.Prelude.Text.{Text}
use neltrik_backend.Authentication.Domain.Session.{AuthenticationSession}
use neltrik_backend.Authentication.World.{Env, World}
use neltrik_backend.Authentication.UseCases.Sessions.{
  refresh_token, logout, revoke_session, revoke_all_sessions,
}
use neltrik_backend.Authentication.UseCases.Login.{LoginInput, login}
use neltrik_backend.Authentication.UseCases.Recovery.{
  reset_password, request_password_reset, validate_email, request_email_verification,
}
use neltrik_backend.Authentication.Sessions.{Rule, Holds}
use neltrik_backend.Authentication.Sessions.Operations.{
  Safe-login, Safe-refresh_token, Safe-logout, Safe-revoke_session, Safe-revoke_all_sessions,
  Safe-reset_password, Safe-request_password_reset, Safe-validate_email,
  Safe-request_email_verification,
}

module _ (env : Env) where
  -- One request, whether it returns or throws.
  pub data Step (w : World) : World → Type 0 where
    logs_in : (input : LoginInput) → Step w (login env input w).1
    refreshes : (token : Option Text) → Step w (refresh_token env token w).1
    logs_out : (token : Option Text) → Step w (logout env token w).1
    revokes : (id : Text) → Step w (revoke_session env id w).1
    revokes_others : (user current : Text) → Step w (revoke_all_sessions env user current w).1
    resets_password : (token password : Text) → Step w (reset_password env token password w).1
    requests_reset : (email : Text) → Step w (request_password_reset env email w).1
    validates_email : (token : Text) → Step w (validate_email env token w).1
    requests_verification :
        (tenant user : Text) → Step w (request_email_verification env tenant user w).1

  pub data Steps (w : World) : World → Type 0 where
    stop : Steps w w
    next : (u v : World) → Steps w u → Step u v → Steps w v

  module _ (k : ℕ) (R : AuthenticationSession → Type 0) (rule : Rule env k R) where
    Step-Holds : (w v : World) → Step w v → Holds env k R w → Holds env k R v
    Step-Holds w _ (Step.logs_in i) h = (Safe-login env k R rule i).keeps w h
    Step-Holds w _ (Step.refreshes t) h = (Safe-refresh_token env k R rule t).keeps w h
    Step-Holds w _ (Step.logs_out t) h = (Safe-logout env k R rule t).keeps w h
    Step-Holds w _ (Step.revokes id) h = (Safe-revoke_session env k R rule id).keeps w h
    Step-Holds w _ (Step.revokes_others u c) h =
        (Safe-revoke_all_sessions env k R rule u c).keeps w h
    Step-Holds w _ (Step.resets_password t p) h = (Safe-reset_password env k R rule t p).keeps w h
    Step-Holds w _ (Step.requests_reset e) h =
        (Safe-request_password_reset env k R rule e).keeps w h
    Step-Holds w _ (Step.validates_email t) h = (Safe-validate_email env k R rule t).keeps w h
    Step-Holds w _ (Step.requests_verification t u) h =
        (Safe-request_email_verification env k R rule t u).keeps w h

    pub Steps-Holds : (w v : World) → Steps w v → Holds env k R w → Holds env k R v
    Steps-Holds w _ Steps.stop h = h
    Steps-Holds w _ (Steps.next u v before step) h = Step-Holds u v step (Steps-Holds w u before h)
