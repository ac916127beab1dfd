-- ===== src/Authentication/Sessions/Opening.antt =====
-- What a login that returns went through.
use neltrik_backend.Prelude.{
  ℕ, ◌+◌, true, Option, none, some, ◌∷◌, ◌≡◌, refl, sym, ap, ◌∙◌, arith, inl, inr, Bool-cases,
}
use neltrik_backend.Prelude.Text.{Text}
use neltrik_backend.Prelude.Result.{Result, ok, err, Result-cases}
use neltrik_backend.Prelude.Exec.{◌>>=◌}
use neltrik_backend.Prelude.Yields.{bind-Returned}
use neltrik_backend.Authentication.Domain.Values.{Error, create_expiration}
use neltrik_backend.Authentication.Domain.Session
use neltrik_backend.Authentication.Domain.Session.{AuthenticationSession}
use neltrik_backend.Authentication.Domain.Account.{AuthenticationAccount}
use neltrik_backend.Authentication.World.{
  Env, World, M, IdentityUser, AccessTokenPayload, access_token_max_age, tick, get_user_by_id,
  get_role_by_id, generate_access_token,
}
use neltrik_backend.Authentication.Repository.{find_account_by_email}
use neltrik_backend.Authentication.UseCases.Login.{
  LoginInput, LoginOutput, open_session, issue_tokens, login_to, login, is_supported, authenticate,
}
use neltrik_backend.Authentication.Sessions.Calls.{
  generate_access_token-ok, get_user_by_id-ok, get_role_by_id-ok,
}

module _ (env : Env) where
  -- A session that was opened at `w`: its row, and the world after.
  pub record SessionOpened (a : AuthenticationAccount) (w : World)
      (p : AuthenticationSession × Text) : Type 0 where
    pub id : p.0.id ≡ env.random (w.calls + 3)
    pub owner : p.0.owner_id ≡ a.user_id
    pub account : p.0.authentication_account_id ≡ a.id
    pub token : p.0.refresh_token_hash ≡ env.sha256 p.1
    pub expires : p.0.expires_at ≡ env.clock (w.calls + 4) + access_token_max_age

  -- The world after a session was opened, and `n` calls made in all.
  abbrev pub with_session : ℕ → AuthenticationSession → World → World
  with_session n s w = record w {
    calls = n;
    committed = record w.committed { sessions = s ∷ w.committed.sessions };
  }

  open_session-ok :
      (i : LoginInput) (a : AuthenticationAccount) (w : World) {p : AuthenticationSession × Text}
      → (open_session env i a w).0 ≡ ok p
      → SessionOpened a w p × ((open_session env i a w).1 ≡ with_session (w.calls + 7) p.0 w)
  unfolding open_session create_expiration Session.create Session.restore
  open_session-ok i a w e = (
    record {
      id = ground arith;
      owner = ground arith;
      account = ground arith;
      token = ground arith;
      expires = ground arith;
    },
    ground arith,
  )

  -- A login from `w` that returned `out`: the account that it found, and the session that it opened.
  pub record Opened (i : LoginInput) (w : World) (out : LoginOutput) : Type 0 where
    pub account : AuthenticationAccount
    pub opened : AuthenticationSession × Text
    pub found : (find_account_by_email env i.email w).0 ≡ ok (some account)
    pub supported : is_supported account.provider ≡ true
    pub authenticated : authenticate env account i.password ≡ true
    pub row : SessionOpened account (record w { calls = w.calls + 1 + 1 }) opened
    pub id : out.session_id ≡ opened.0.id
    pub token : out.refresh_token ≡ opened.1
    pub world : (login env i w).1 ≡ with_session (w.calls + 1 + 1 + 9) opened.0 w

  abbrev payload_of :
      AuthenticationAccount → IdentityUser → Text → AuthenticationSession → AccessTokenPayload
  payload_of a u r s = record {
    user_id = a.user_id;
    email = a.email;
    tenant_id = u.tenant_id;
    role_code = r;
    session_id = s.id;
  }

  issue_tokens-ok :
      (a : AuthenticationAccount) (u : IdentityUser) (r : Text) (p : AuthenticationSession × Text)
      (w : World) {out : LoginOutput}
      → (issue_tokens env a u r p w).0 ≡ ok out
      → (out.session_id ≡ p.0.id)
        × (out.refresh_token ≡ p.1)
        × ((issue_tokens env a u r p w).1 ≡ record w { calls = w.calls + 2 })
  unfolding issue_tokens
  issue_tokens-ok a u r p w e =
      elim (Result-cases (generate_access_token env (payload_of a u r p.0) w).0) [
        | inl (t, signed) ↦
            let there = generate_access_token-ok env (payload_of a u r p.0) w signed in
            (ground arith, ground arith, ground arith)
        | inr (x, failed) ↦ absurd (ground arith)
      ]

  abbrev tail : LoginInput → AuthenticationAccount → IdentityUser → Text → M LoginOutput
  tail i a u r = open_session env i a >>= λ p. issue_tokens env a u r p

  abbrev with_role : LoginInput → AuthenticationAccount → IdentityUser → M LoginOutput
  with_role i a u = get_role_by_id env u.role_id >>= λ r. tail i a u r

  login_to-checks :
      (i : LoginInput) (a : AuthenticationAccount) (w : World) {out : LoginOutput}
      → (login_to env i a w).0 ≡ ok out
      → (is_supported a.provider ≡ true)
        × (authenticate env a i.password ≡ true)
        × (login_to env i a w ≡ (get_user_by_id env a.user_id >>= λ u. with_role i a u) w)
  unfolding login_to
  login_to-checks i a w e = elim (Bool-cases (is_supported a.provider)) [
    | inl known ↦ elim (Bool-cases (authenticate env a i.password)) [
      | inl right ↦ (known, right, rw (known, right) refl)
      | inr wrong ↦ absurd (ground arith)
    ]
    | inr unknown ↦ absurd (ground arith)
  ]

  -- The rest of a login, from the session on.
  After : LoginInput → AuthenticationAccount → World → LoginOutput → Type 0
  After i a w out =
      (is_supported a.provider ≡ true)
      × (authenticate env a i.password ≡ true)
      × (u : IdentityUser) × (r : Text) × (login_to env i a w
          ≡ tail i a u r (record w { calls = w.calls + 1 + 1 }))

  login_to-After :
      (i : LoginInput) (a : AuthenticationAccount) (w : World) {out : LoginOutput}
      → (login_to env i a w).0 ≡ ok out
      → After i a w out
  unfolding After
  login_to-After i a w e =
      let (known, right, path) = login_to-checks i a w e in
      let user =
        bind-Returned (get_user_by_id env a.user_id) (with_role i a) w
          (ap {A = Result Error LoginOutput × World} (λ q. q.0) (sym path) ∙ e) in
      let u = user.value in
      let role =
        bind-Returned (get_role_by_id env u.role_id) (tail i a u) (get_user_by_id env a.user_id w).1
          user.rest in
      let asked =
        ap {A = Result Error IdentityUser × World} (λ q. q.1)
          (get_user_by_id-ok env a.user_id w user.first) in
      let told =
        ap {A = Result Error Text × World} (λ q. q.1)
          (get_role_by_id-ok env u.role_id (get_user_by_id env a.user_id w).1 role.first) in
      (
        known,
        right,
        u,
        role.value,
        path
            ∙ user.world
            ∙ role.world
            ∙ ap (tail i a u role.value) (told ∙ ap {A = World} tick asked),
      )

  tail-ok :
      (i : LoginInput) (a : AuthenticationAccount) (u : IdentityUser) (r : Text) (w : World)
      {out : LoginOutput}
      → (tail i a u r w).0 ≡ ok out
      → (p : AuthenticationSession × Text) × SessionOpened a w p
        × (out.session_id ≡ p.0.id)
        × (out.refresh_token ≡ p.1)
        × ((tail i a u r w).1 ≡ with_session (w.calls + 9) p.0 w)
  tail-ok i a u r w e =
      let ran = bind-Returned (open_session env i a) (λ p. issue_tokens env a u r p) w e in
      let (row, after) = open_session-ok i a w ran.first in
      let (id, token, world) =
        issue_tokens-ok a u r ran.value (open_session env i a w).1 ran.rest in
      let calls = ap (λ n. with_session n ran.value.0 w) (add_twice w.calls) in
      let ended = ap {A = World} (λ v. record v { calls = v.calls + 2 }) after in
      let here = ap {A = Result Error LoginOutput × World} (λ q. q.1) ran.world in
      (ran.value, row, id, token, here ∙ world ∙ ended ∙ calls)
    where
      add_twice : (n : ℕ) → n + 7 + 2 ≡ n + 9
      add_twice n = omega arith

  login_found :
      (i : LoginInput) (w : World) (r : Result Error (Option AuthenticationAccount))
      {out : LoginOutput}
      → find_account_by_email env i.email w ≡ (r, w)
      → (login env i w).0 ≡ ok out
      → (a : AuthenticationAccount) × (r ≡ ok (some a)) × (login env i w ≡ login_to env i a w)
  unfolding login
  login_found i w (ok none) found e = absurd (ground arith)
  login_found i w (ok (some a)) found e = (a, refl, ground arith)
  login_found i w (err x) found e = absurd (ground arith)

  find_account_by_email-same :
      (email : Text) (w : World)
      → find_account_by_email env email w ≡ ((find_account_by_email env email w).0, w)
  unfolding find_account_by_email
  find_account_by_email-same email w = refl

  pub login-Opened :
      (i : LoginInput) (w : World) {out : LoginOutput} → (login env i w).0 ≡ ok out → Opened i w out
  unfolding After
  login-Opened i w {out} e =
      let (a, found, went) = login_found i w _ (find_account_by_email-same i.email w) e in
      let (supported, authenticated, u, r, rest) =
        login_to-After i a w
          (ap {A = Result Error LoginOutput × World} (λ q. q.0) (sym went) ∙ e) in
      let path = went ∙ rest in
      let (p, row, id, token, world) =
        tail-ok i a u r (record w { calls = w.calls + 1 + 1 })
          (ap {A = Result Error LoginOutput × World} (λ q. q.0) (sym path) ∙ e) in
      record {
        account = a;
        opened = p;
        found = found;
        supported = supported;
        authenticated = authenticated;
        row = row;
        id = id;
        token = token;
        world = ap {A = Result Error LoginOutput × World} (λ q. q.1) path ∙ world;
      }
