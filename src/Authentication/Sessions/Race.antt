-- ===== src/Authentication/Sessions/Race.antt =====
-- A refresh that has read its session while another request revokes it.
use neltrik_backend.Prelude.{
  ◌<◌, ◌&&◌, Bool, true, false, Option, none, some, ◌≡◌, ◌≢◌, refl, ap, ◌∙◌, arith,
}
use neltrik_backend.Prelude.Text.{Text, text_eq, text_eq_refl, is_blank}
use neltrik_backend.Prelude.Result.{Result, ok}
use neltrik_backend.Prelude.Rows.{find_first, find_first-accepts, find_first-replace_first}
use neltrik_backend.Authentication.Domain.Values.{Error}
use neltrik_backend.Authentication.Domain.Session
use neltrik_backend.Authentication.Domain.Session.{AuthenticationSession, is_revoked}
use neltrik_backend.Authentication.World.{Env, World}
use neltrik_backend.Authentication.Repository.{
  find_session, session_row, session_hash, session_to_domain, owns,
}
use neltrik_backend.Authentication.UseCases.Sessions.{
  RefreshTokenOutput, refresh_read, refresh_write, resolve,
}
use neltrik_backend.Authentication.Sessions.Steps.{Steps}
use neltrik_backend.Authentication.Sessions.Refreshing.{refresh_read-Read}
use neltrik_backend.Authentication.Sessions.Rotation.{written, refresh_write-found}

second_holds : (a : Bool) {b : Bool} → (a && b) ≡ true → b ≡ true
second_holds a h = ground arith

module _ (env : Env) where
  resolve-live :
      (id : Text) (w : World) (s : AuthenticationSession)
      → find_first (session_row env id) w.committed.sessions ≡ some s
      → is_blank s.refresh_token_hash ≡ false
      → is_revoked s ≡ false
      → env.clock w.calls < s.expires_at
      → (resolve env id w).0 ≡ ok true
  unfolding resolve find_session session_to_domain Session.restore
  resolve-live id w s found hash live timely = ground arith

  resolve-dead :
      (id : Text) (w : World) (s : AuthenticationSession)
      → find_first (session_row env id) w.committed.sessions ≡ some s
      → is_revoked s ≡ true
      → (resolve env id w).0 ≢ ok true
  unfolding resolve find_session session_to_domain Session.restore
  resolve-dead id w s found dead = ground arith

  -- A row of its owner is found by its own key.
  own_row :
      (hash : Text) (s t : AuthenticationSession)
      → session_hash env hash s ≡ true
      → t.owner_id ≡ s.owner_id
      → session_row env t.id t ≡ true
  own_row hash s t h same = let owned = owned_of env.owner h in ground (arith, text_eq_refl t.id)
    where
      owned_of :
          (o : Option Text)
          → (text_eq s.refresh_token_hash hash && owns env o s) ≡ true
          → owns env o t ≡ true
      owned_of none h = refl
      owned_of (some user) h =
          ap (λ i. text_eq i user) same ∙ second_holds (text_eq s.refresh_token_hash hash) h

  -- A refresh has come to its update with `p`, and before it any requests follow one another that leave
  -- the session revoked. The update returns nevertheless, and if the session has not expired and its
  -- new token has a hash, a session that was refused before it is valid again after it.
  pub refresh_write-revives :
      (token : Text) (w u : World) (p : AuthenticationSession × RefreshTokenOutput)
      (x : AuthenticationSession)
      → (refresh_read env (some token) w).0 ≡ ok p
      → Steps env (refresh_read env (some token) w).1 u
      → find_first (session_row env p.0.id) u.committed.sessions ≡ some x
      → is_revoked x ≡ true
      → is_blank p.0.refresh_token_hash ≡ false
      → env.clock u.calls < p.0.expires_at
      → ((resolve env p.0.id u).0 ≢ ok true)
        × ((refresh_write env p u).0 ≡ ok p.1)
        × ((resolve env p.0.id (refresh_write env p u).1).0 ≡ ok true)
  refresh_write-revives token w u p x done steps there revoked hash timely =
      let read = refresh_read-Read env token w done in
      let kept =
        find_first-accepts (session_hash env (env.sha256 token)) w.committed.sessions read.found in
      let own = own_row (env.sha256 token) read.session p.0 kept read.rotated.owner in
      let wrote = refresh_write-found env p u there in
      let here =
        find_first-replace_first (session_row env p.0.id) p.0 u.committed.sessions there own in
      let valid =
        resolve-live p.0.id (written env p.0 u) p.0 here hash (live p.0 read.rotated.live) timely in
      (
        resolve-dead p.0.id u x there revoked,
        ap {A = Result Error RefreshTokenOutput × World} (λ q. q.0) wrote,
        ap {A = Result Error RefreshTokenOutput × World} (λ q. (resolve env p.0.id q.1).0) wrote
            ∙ valid,
      )
    where
      live : (s : AuthenticationSession) → s.revoked_at ≡ none → is_revoked s ≡ false
      live s e = ground arith
