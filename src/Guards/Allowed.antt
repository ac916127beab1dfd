-- ===== src/Guards/Allowed.antt =====
-- A request that all of the guards let through.
use neltrik_backend.Prelude.{
  Bool, true, false, not, ◌||◌, some, List, ◌≡◌, refl, sym, ap, ◌∙◌, inl, inr, Bool-cases,
}
use mathlib.Core.Path.{subst}
use neltrik_backend.Prelude.Text.{Text, text, text_eq}
use neltrik_backend.Prelude.Result.{Result, ok}
use neltrik_backend.Prelude.Exec.{◌>>◌}
use neltrik_backend.Prelude.Yields.{bind-Returned}
use neltrik_backend.Guards.Csrf.{verify}
use neltrik_backend.Guards.Request.{Route, RequestUser, Denial, Services, World, M}
use neltrik_backend.Guards.Chain.{
  is_mutating, authenticate, check_email, check_user, check_tenant, check_csrf, required, unless,
  audited, authentication_guard, email_verified_guard, user_state_guard, tenant_state_guard,
  csrf_guard, permissions_guard, guards,
}
use neltrik_backend.Guards.Passed.{
  IsProtected, Allowed, Granted, Authenticated, authenticate-Authenticated, user_from, signed_in,
  guard-ok, check_email-ok, check_user-ok, check_tenant-ok, check_csrf-ok, check_permissions-ok,
}

module _ (services : Services) (route : Route) (ps : List Text)
    (protected : IsProtected services route ps) where
  -- The guards that follow.
  abbrev after_tenant : M (Unit {0})
  after_tenant = csrf_guard services route >> permissions_guard services route

  abbrev after_user : M (Unit {0})
  after_user = tenant_state_guard services route >> after_tenant

  abbrev after_email : M (Unit {0})
  after_email = user_state_guard services route >> after_user

  abbrev after_authentication : M (Unit {0})
  after_authentication = email_verified_guard services route >> after_email

  both :
      (m n : M (Unit {0})) (w v : World)
      → w ≡ v
      → ((m >> n) w).0 ≡ ok tt
      → ((m v).0 ≡ ok tt) × ((n (m v).1).0 ≡ ok tt)
  both m n w v same e =
      let r = bind-Returned m (λ _. n) v (subst (λ u. ((m >> n) u).0 ≡ ok tt) same e) in
      (r.first, r.rest)

  first_guard :
      (w : World)
      → (authentication_guard services route w).0 ≡ ok tt
      → (a : Authenticated services route w) × ((authentication_guard services route w).1
          ≡ signed_in services route a.payload a.result w)
  unfolding authentication_guard
  first_guard w e =
      let (done, path) =
        guard-ok services route (text "AuthenticationGuard") route.is_public
          (authenticate services route) w protected.private e in
      let a = authenticate-Authenticated services route w done in (a, path ∙ a.world)

  module _ (w : World) (user : RequestUser) (verified : Bool)
      (has_user : w.request.user ≡ some user)
      (has_email : w.request.email_verified ≡ some verified) where
    let_through :
        (origin : Text)
        → (audited origin route
            (unless true (unless route.is_public (check_csrf services route)))
            w).1
          ≡ w
    unfolding audited
    let_through origin = refl

    email_guard :
        (email_verified_guard services route w).0 ≡ ok tt
        → (verified ≡ true) × ((email_verified_guard services route w).1 ≡ w)
    unfolding email_verified_guard
    email_guard e =
        let (done, path) =
          guard-ok services route (text "EmailVerifiedGuard") route.skip_email_verification
            (check_email services route) w protected.email e in
        let (shown, same) = check_email-ok services route w user verified has_user has_email done in
        (shown, path ∙ same)

    user_guard :
        (user_state_guard services route w).0 ≡ ok tt
        → (text_eq user.user_status (text "ACTIVE") ≡ true)
          × ((user_state_guard services route w).1 ≡ w)
    unfolding user_state_guard
    user_guard e =
        let (done, path) =
          guard-ok services route (text "UserStateGuard") route.skip_user_state
            (check_user services route) w protected.user_state e in
        let (shown, same) = check_user-ok services route w user verified has_user has_email done in
        (shown, path ∙ same)

    tenant_guard :
        (tenant_state_guard services route w).0 ≡ ok tt
        → ((text_eq user.role_code (text "PLATFORM_ADMIN")
              || text_eq user.tenant_status (text "ACTIVE"))
            ≡ true)
          × ((tenant_state_guard services route w).1 ≡ w)
    unfolding tenant_state_guard
    tenant_guard e =
        let (done, path) =
          guard-ok services route (text "TenantStateGuard") route.skip_tenant_state
            (check_tenant services route) w protected.tenant_state e in
        let (shown, same) =
          check_tenant-ok services route w user verified has_user has_email done in
        (shown, path ∙ same)

    mutating_guard :
        (csrf_guard services route w).0 ≡ ok tt
        → (is_mutating w.request.method ≡ true
            → (w.request.origin ≡ some services.frontend_url)
              × (verify services.crypto w.request.csrf_header user.session_id ≡ some true))
          × ((csrf_guard services route w).1 ≡ w)
    unfolding csrf_guard
    mutating_guard e = elim (Bool-cases (is_mutating w.request.method)) [
      | inl mutating ↦
          let (done, path) =
            guard-ok services route (text "CsrfGuard") (not (is_mutating w.request.method))
              (unless route.is_public (check_csrf services route)) w (ap not mutating) e in
          let open_to =
            ap {A = Bool} (λ b. unless b (check_csrf services route) w) protected.private in
          let (origin, token, same) =
            check_csrf-ok services route w user verified has_user has_email
              (ap {A = Result Denial Unit × World} (λ q. q.0) (sym open_to) ∙ done) in
          (
            (λ _. (origin, token)),
            path ∙ ap {A = Result Denial Unit × World} (λ q. q.1) open_to ∙ same,
          )
      | inr reading ↦ (
        (λ mutating. absurd (clash mutating reading)),
        ap {A = Bool}
              (λ b.
                (audited (text "CsrfGuard") route
                  (unless (not b) (unless route.is_public (check_csrf services route))) w).1)
              reading
            ∙ let_through (text "CsrfGuard"),
      )
    ]
      where
        clash : {b : Bool} → b ≡ true → b ≡ false → ⊥
        clash a b = cc

    permission_guard :
        (permissions_guard services route w).0 ≡ ok tt → Granted services route user.user_id ps
    unfolding permissions_guard required
    permission_guard e =
        let (done, path) =
          guard-ok services route (text "PermissionsGuard") route.public_permission
            (required services route route.permissions) w protected.permission e in
        check_permissions-ok services route ps w user has_user protected.named
          (ap (λ o. (required services route o w).0) (sym protected.permissions) ∙ done)

  -- A request to a route that asks for all of the checks, and that passes all of the guards: its access
  -- token is verified and names a session that is valid, its user is active and has a verified
  -- address, its tenant is active or it is the administrator of the platform, and it has all of the
  -- permissions of the route, of which none has an empty name. If its method mutates, it comes from the
  -- origin of the frontend with a CSRF token of the session.
  pub guards-Allowed :
      (w : World) → (guards services route w).0 ≡ ok tt → Allowed services route ps w.request
  unfolding guards
  guards-Allowed w e =
      let (first, e1) =
        both (authentication_guard services route) after_authentication w w refl e in
      let (a, entered) = first_guard w first in
      let user = user_from services route a.payload a.result in
      let v = signed_in services route a.payload a.result w in
      let seen = a.result.email_verified in
      let (second, e2) = both (email_verified_guard services route) after_email _ v entered e1 in
      let (email, w2) = email_guard v user seen refl refl second in
      let (third, e3) = both (user_state_guard services route) after_user _ v w2 e2 in
      let (active, w3) = user_guard v user seen refl refl third in
      let (fourth, e4) = both (tenant_state_guard services route) after_tenant _ v w3 e3 in
      let (tenant, w4) = tenant_guard v user seen refl refl fourth in
      let (fifth, e5) =
        both (csrf_guard services route) (permissions_guard services route) _ v w4 e4 in
      let method = Bool-cases (is_mutating w.request.method) in
      let (mutating, w5) = mutating_guard v user seen refl refl fifth in
      record {
        token = a.token;
        payload = a.payload;
        result = a.result;
        sent = a.sent;
        verified = a.verified;
        resolved = a.resolved;
        valid = a.valid;
        email = email;
        user_active = active;
        tenant_active = tenant;
        origin = elim method [ inl mutates ↦ inr (mutating mutates).0 | inr reads ↦ inl reads ];
        csrf = elim method [ inl mutates ↦ inr (mutating mutates).1 | inr reads ↦ inl reads ];
        granted =
            permission_guard v user seen refl refl
              (subst (λ u. (permissions_guard services route u).0 ≡ ok tt) w5 e5);
      }
