-- ===== src/Authentication/Sessions/Refreshing.antt =====
-- What a refresh that returns went through.
use neltrik_backend.Prelude.{
  ℕ, ◌+◌, ◌≤◌, Option, none, some, [], ◌∷◌, ◌≡◌, refl, sym, ap, ◌∙◌, arith, inl, inr, Option-cases,
}
use mathlib.Core.Path.{subst}
use neltrik_backend.Prelude.Text.{Text}
use neltrik_backend.Prelude.Result.{Result, ok}
use neltrik_backend.Prelude.Exec.{◌>>=◌, or_throw}
use neltrik_backend.Prelude.Yields.{bind-Returned}
use neltrik_backend.Prelude.Rows.{find_first}
use neltrik_backend.Authentication.Domain.Values.{Error, create_expiration, account_not_found}
use neltrik_backend.Authentication.Domain.Session
use neltrik_backend.Authentication.Domain.Session.{AuthenticationSession, renew-Renewed, Renewed}
use neltrik_backend.Authentication.Domain.Account.{AuthenticationAccount}
use neltrik_backend.Authentication.World.{
  Env, World, M, IdentityUser, AccessTokenPayload, tick, get_user_by_id, get_role_by_id,
  generate_access_token,
}
use neltrik_backend.Authentication.Repository.{
  find_session_by_hash, find_account, session_hash, session_to_domain,
}
use neltrik_backend.Authentication.UseCases.Sessions.{
  RefreshTokenOutput, ensure_refreshable, refresh_expiration, renew_session, rotate, renew_for,
  refresh_read,
}
use neltrik_backend.Authentication.Sessions.Calls.{
  generate_access_token-ok, get_user_by_id-ok, get_role_by_id-ok,
}

module _ (env : Env) where
  world_of : {A : Type 0} {q q' : Result Error A × World} → q ≡ q' → q.1 ≡ q'.1
  world_of e = ap (λ q. q.1) e

  result_of : {A : Type 0} {q q' : Result Error A × World} → q ≡ q' → q.0 ≡ q'.0
  result_of e = ap (λ q. q.0) e

  -- The renewed session that was written for `s`, with the `n`-th draw as its refresh token.
  pub record Rotated (s : AuthenticationSession) (n : ℕ)
      (p : AuthenticationSession × RefreshTokenOutput) : Type 0 where
    pub id : p.0.id ≡ s.id
    pub owner : p.0.owner_id ≡ s.owner_id
    pub token : p.0.refresh_token_hash ≡ env.sha256 (env.random n)
    pub answered : p.1.refresh_token ≡ env.random n
    pub expires : p.0.expires_at ≡ s.expires_at
    pub was_live : s.revoked_at ≡ none
    pub live : p.0.revoked_at ≡ none

  rotate-ok :
      (s : AuthenticationSession) (access : Text) (w : World)
      {p : AuthenticationSession × RefreshTokenOutput}
      → (rotate env s access w).0 ≡ ok p
      → Rotated s w.calls p × ((rotate env s access w).1 ≡ record w { calls = w.calls + 8 })
  unfolding rotate refresh_expiration renew_session create_expiration Session.renew
      Session.ensure_can_be_renewed
  rotate-ok s access w e = (
    record {
      id = ground arith;
      owner = ground arith;
      token = ground arith;
      answered = ground arith;
      expires = ground arith;
      was_live = ground arith;
      live = ground arith;
    },
    ground arith,
  )

  -- A refresh with the token of `s` that has come to the update, which writes `p`.
  pub record Read (token : Text) (w : World) (p : AuthenticationSession × RefreshTokenOutput)
      : Type 0 where
    pub session : AuthenticationSession
    pub draw : ℕ
    pub fresh : w.calls ≤ draw
    pub found : find_first (session_hash env (env.sha256 token)) w.committed.sessions ≡ some session
    pub rotated : Rotated session draw p
    pub world :
        (refresh_read env (some token) w).1 ≡ record w { calls = w.calls + 1 + 1 + 1 + 1 + 1 + 8 }

  renew_for-ok :
      (s : AuthenticationSession) (a : AuthenticationAccount) (w : World)
      {p : AuthenticationSession × RefreshTokenOutput}
      → (renew_for env s a w).0 ≡ ok p
      → Rotated s (w.calls + 1 + 1 + 1) p
        × ((renew_for env s a w).1 ≡ record w { calls = w.calls + 1 + 1 + 1 + 8 })
  unfolding renew_for
  renew_for-ok s a w {p} e =
      let user =
        bind-Returned (get_user_by_id env a.user_id)
          (λ u. get_role_by_id env u.role_id >>= signed u) w e in
      let u = user.value in
      let role =
        bind-Returned (get_role_by_id env u.role_id) (signed u) (get_user_by_id env a.user_id w).1
          user.rest in
      let v = (get_role_by_id env u.role_id (get_user_by_id env a.user_id w).1).1 in
      let access =
        bind-Returned (generate_access_token env (payload u role.value)) (rotate env s) v
          role.rest in
      let asked = world_of (get_user_by_id-ok env a.user_id w user.first) in
      let told =
        world_of (get_role_by_id-ok env u.role_id (get_user_by_id env a.user_id w).1 role.first)
        ∙ ap {A = World} tick asked in
      let handed =
        world_of (generate_access_token-ok env (payload u role.value) v access.first)
        ∙ ap {A = World} tick told in
      let (rotated, kept) = rotate-ok s access.value _ access.rest in
      let path = user.world ∙ role.world ∙ access.world in
      (
        subst (λ x. Rotated s x.calls p) handed rotated,
        world_of path ∙ kept ∙ ap {A = World} (λ v. record v { calls = v.calls + 8 }) handed,
      )
    where
      payload : IdentityUser → Text → AccessTokenPayload
      payload u r = record {
        user_id = a.user_id;
        email = a.email;
        tenant_id = u.tenant_id;
        role_code = r;
        session_id = s.id;
      }

      signed : IdentityUser → Text → M (AuthenticationSession × RefreshTokenOutput)
      signed u r = generate_access_token env (payload u r) >>= rotate env s

  abbrev with_account : AuthenticationSession → M (AuthenticationSession × RefreshTokenOutput)
  with_account s = find_account env s.authentication_account_id >>= λ owner.
      or_throw owner account_not_found >>= renew_for env s

  refresh_read-found :
      (token : Text) (w : World) {p : AuthenticationSession × RefreshTokenOutput}
      → (refresh_read env (some token) w).0 ≡ ok p
      → (s : AuthenticationSession) × (find_first
            (session_hash env (env.sha256 token))
            w.committed.sessions
          ≡ some s)
        × (refresh_read env (some token) w ≡ (ensure_refreshable env s >>= λ _. with_account s) w)
  unfolding refresh_read find_session_by_hash session_to_domain Session.restore
  refresh_read-found [] w e = absurd (ground arith)
  refresh_read-found (c ∷ t) w e =
      elim (Option-cases
        (find_first (session_hash env (env.sha256 (c ∷ t))) w.committed.sessions)) [
          | inl none_there ↦ absurd (ground arith)
          | inr (s, found) ↦ (s, found, ground arith)
        ]

  ensure_refreshable-ok :
      (s : AuthenticationSession) (w : World)
      → (ensure_refreshable env s w).0 ≡ ok tt
      → ensure_refreshable env s w ≡ (ok tt, record w { calls = w.calls + 1 + 1 })
  unfolding ensure_refreshable
  ensure_refreshable-ok s w e = ground arith

  find_account-same : (id : Text) (w : World) → (find_account env id w).1 ≡ w
  unfolding find_account
  find_account-same id w = refl

  or_throw-ok :
      {A : Type 0} (o : Option A) (x : Error) (w : World) {a : A}
      → (or_throw o x w).0 ≡ ok a
      → (or_throw o x w).1 ≡ w
  or_throw-ok none x w e = cc
  or_throw-ok (some a) x w e = refl

  pub refresh_read-Read :
      (token : Text) (w : World) {p : AuthenticationSession × RefreshTokenOutput}
      → (refresh_read env (some token) w).0 ≡ ok p
      → Read token w p
  refresh_read-Read token w {p} e =
      let (s, found, path) = refresh_read-found token w e in
      let checked =
        bind-Returned (ensure_refreshable env s) (λ _. with_account s) w
          (result_of (sym path) ∙ e) in
      let u = (ensure_refreshable env s w).1 in
      let owner =
        bind-Returned (find_account env s.authentication_account_id)
          (λ o. or_throw o account_not_found >>= renew_for env s) u checked.rest in
      let known =
        bind-Returned (or_throw owner.value account_not_found) (renew_for env s) _ owner.rest in
      let here =
        or_throw-ok owner.value account_not_found _ known.first
        ∙ find_account-same s.authentication_account_id u
        ∙ world_of (ensure_refreshable-ok s w checked.first) in
      let (rotated, kept) = renew_for-ok s known.value _ known.rest in
      let all = path ∙ checked.world ∙ owner.world ∙ known.world in
      record {
        session = s;
        draw = w.calls + 1 + 1 + 1 + 1 + 1;
        fresh = omega arith;
        found = found;
        rotated = subst (λ x. Rotated s (x.calls + 1 + 1 + 1) p) here rotated;
        world =
            world_of all
            ∙ kept
            ∙ ap {A = World} (λ v. record v { calls = v.calls + 1 + 1 + 1 + 8 }) here;
      }
