-- ===== src/Guards/Chain.antt =====
-- The guards: src/shared/auth/guards and src/shared/authorization/guards.
use neltrik_backend.Prelude.{Bool, true, false, not, Option, none, some, List, [], ◌∷◌, ◌++◌}
use neltrik_backend.Prelude.Text.{Text, text, text_eq, includes}
use neltrik_backend.Prelude.Result.{Result, ok, err}
use neltrik_backend.Prelude.Exec.{◌>>=◌, ◌>>◌, pure, throw, throw_if, lift, gets, modify, or_throw}
use neltrik_backend.Guards.Csrf.{verify}
use neltrik_backend.Guards.Request.{
  Route, RequestUser, Denial, AuditMetadata, Services, World, M, access_token_not_found,
  invalid_session, not_authenticated, email_not_verified, user_not_active, tenant_not_active,
  invalid_origin, missing_requested_with, session_not_available, invalid_csrf_token, range_error,
  no_permissions_defined, no_permission, missing_permission,
}

-- `auditDenied`; `recorded` holds the calls of the recorder, in order, whatever it makes of them
unfoldable pub audit_denied : Text → Option AuditMetadata → Denial → World → World
audit_denied origin none e w = w
audit_denied origin (some a) e w = record w {
  recorded =
      w.recorded
      ++ (record { action = a.action; resource = a.resource; error = e; origin = origin } ∷ []);
}

abbrev pub rethrow : Text → Route → Result Denial (Unit {0}) → M (Unit {0})
rethrow origin route (ok a) w = (ok a, w)
rethrow origin route (err e) w = (err e, audit_denied origin route.audit e w)

-- `try { ... } catch (error) { this.auditDenied(context, error); throw error; }`
unfoldable pub audited : Text → Route → M (Unit {0}) → M (Unit {0})
unfolding audit_denied
audited origin route body w = let (r, v) = body w in rethrow origin route r v

-- `x !== y`, of a header that may be absent
abbrev pub is_not : Option Text → Text → Bool
is_not none y = true
is_not (some x) y = not (text_eq x y)

-- `new Set(["POST", "PUT", "PATCH", "DELETE"])`
abbrev pub is_mutating : Text → Bool
is_mutating m = includes (text "POST" ∷ text "PUT" ∷ text "PATCH" ∷ text "DELETE" ∷ []) m

abbrev pub unless : Bool → M (Unit {0}) → M (Unit {0})
unless true m = pure tt
unless false m = m

-- A cookie or a text that is absent or empty is falsy.
abbrev pub non_empty : Option Text → Option Text
non_empty none = none
non_empty (some []) = none
non_empty (some (c ∷ s)) = some (c ∷ s)

abbrev pub session_of : Option RequestUser → Option Text
session_of none = none
session_of (some u) = non_empty (some u.session_id)

abbrev pub user_of : Option RequestUser → Option Text
user_of none = none
user_of (some u) = non_empty (some u.user_id)

abbrev pub accept : Option Bool → M (Unit {0})
accept none = throw range_error
accept (some true) = pure tt
accept (some false) = throw invalid_csrf_token

module _ (services : Services) (route : Route) where
  unfoldable pub authenticate : M (Unit {0})
  authenticate = do
    request ← gets (λ w. w.request)
    token ← or_throw (non_empty request.access_token) access_token_not_found
    payload ← lift (services.verify_token token)
    result ← lift (services.resolve payload.session_id)
    throw_if (not result.is_valid) invalid_session
    modify (λ w. record w {
      request = record w.request {
        user = some (record {
          user_id = payload.sub;
          tenant_id = payload.tenant_id;
          role_code = payload.role_code;
          session_id = payload.session_id;
          user_status = result.user_status;
          tenant_status = result.tenant_status;
        });
        email_verified = some result.email_verified;
      };
    })

  -- `AuthenticationGuard.canActivate`
  unfoldable pub authentication_guard : M (Unit {0})
  unfolding authenticate audited
  authentication_guard =
      audited (text "AuthenticationGuard") route (unless route.is_public authenticate)

  unfoldable pub check_email : M (Unit {0})
  check_email = do
    request ← gets (λ w. w.request)
    verified ← or_throw request.email_verified not_authenticated
    user ← or_throw request.user not_authenticated
    throw_if (not verified) email_not_verified

  -- `EmailVerifiedGuard.canActivate`
  unfoldable pub email_verified_guard : M (Unit {0})
  unfolding check_email audited
  email_verified_guard =
      audited (text "EmailVerifiedGuard") route (unless route.skip_email_verification check_email)

  unfoldable pub check_user : M (Unit {0})
  check_user = do
    request ← gets (λ w. w.request)
    user ← or_throw request.user not_authenticated
    throw_if (not (text_eq user.user_status (text "ACTIVE"))) user_not_active

  -- `UserStateGuard.canActivate`
  unfoldable pub user_state_guard : M (Unit {0})
  unfolding check_user audited
  user_state_guard = audited (text "UserStateGuard") route (unless route.skip_user_state check_user)

  unfoldable pub check_tenant : M (Unit {0})
  check_tenant = do
    request ← gets (λ w. w.request)
    user ← or_throw request.user not_authenticated
    unless (text_eq user.role_code (text "PLATFORM_ADMIN"))
        (throw_if (not (text_eq user.tenant_status (text "ACTIVE"))) tenant_not_active)

  -- `TenantStateGuard.canActivate`
  unfoldable pub tenant_state_guard : M (Unit {0})
  unfolding check_tenant audited
  tenant_state_guard =
      audited (text "TenantStateGuard") route (unless route.skip_tenant_state check_tenant)

  -- `validateOrigin`, `validateRequestedWith`, `validateToken`
  unfoldable pub check_csrf : M (Unit {0})
  unfolding verify
  check_csrf = do
    request ← gets (λ w. w.request)
    throw_if (is_not request.origin services.frontend_url) invalid_origin
    throw_if (is_not request.requested_with (text "XMLHttpRequest")) missing_requested_with
    session_id ← or_throw (session_of request.user) session_not_available
    accept (verify services.crypto request.csrf_header session_id)

  -- `CsrfGuard.canActivate`
  unfoldable pub csrf_guard : M (Unit {0})
  unfolding check_csrf audited
  csrf_guard w =
      audited (text "CsrfGuard") route
        (unless (not (is_mutating w.request.method)) (unless route.is_public check_csrf)) w

  -- `Promise.all(...)`, with the first error that a check throws
  unfoldable pub has_permissions : Text → List Text → Result Denial (List (Text × Bool))
  has_permissions user_id [] = ok []
  has_permissions user_id (p ∷ ps) =
      let rest = has_permissions user_id ps in
      elim (services.has_permission user_id p) [
        | ok b ↦ elim rest [ ok bs ↦ ok ((p, b) ∷ bs) | err e ↦ err e ]
        | err e ↦ err e
      ]

  -- `requiredPermissions.find((_, index) => !results[index])`
  unfoldable pub first_missing : List (Text × Bool) → Option Text
  first_missing [] = none
  first_missing ((p, true) ∷ ps) = first_missing ps
  first_missing ((p, false) ∷ ps) = some p

  unfoldable pub refuse : Option Text → M (Unit {0})
  refuse none = pure tt
  refuse (some []) = pure tt
  refuse (some (c ∷ s)) = throw (missing_permission (c ∷ s))

  unfoldable pub check_permissions : List Text → M (Unit {0})
  unfolding has_permissions first_missing refuse
  check_permissions [] = throw no_permissions_defined
  check_permissions (p ∷ ps) = do
    request ← gets (λ w. w.request)
    user_id ← or_throw (user_of request.user) no_permission
    results ← lift (has_permissions user_id (p ∷ ps))
    refuse (first_missing results)

  unfoldable pub required : Option (List Text) → M (Unit {0})
  unfolding check_permissions
  required none = throw no_permissions_defined
  required (some ps) = check_permissions ps

  -- `PermissionsGuard.canActivate`
  unfoldable pub permissions_guard : M (Unit {0})
  unfolding required audited
  permissions_guard =
      audited (text "PermissionsGuard") route
        (unless route.public_permission (required route.permissions))

  -- The guards in the order of `AppModule`.
  unfoldable pub guards : M (Unit {0})
  unfolding authentication_guard email_verified_guard user_state_guard tenant_state_guard csrf_guard
      permissions_guard
  guards = do
    authentication_guard
    email_verified_guard
    user_state_guard
    tenant_state_guard
    csrf_guard
    permissions_guard
