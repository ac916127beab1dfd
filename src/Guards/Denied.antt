-- ===== src/Guards/Denied.antt =====
-- What the audit records of a request that a guard denies.
use neltrik_backend.Prelude.{
  Bool, true, false, not, Option, none, some, List, [], ◌∷◌, ◌++◌, ◌≡◌, refl, ◌∙◌,
}
use mathlib.Core.Path.{subst}
use neltrik_backend.Prelude.Text.{Text, text}
use neltrik_backend.Prelude.Result.{Result, ok, err}
use neltrik_backend.Prelude.Exec.{◌>>◌, modify, gets}
use neltrik_backend.Prelude.Keeps.{Keeps, keeps_rules}
use neltrik_backend.Guards.Request.{Route, Denial, DeniedEvent, AuditMetadata, Services, World, M}
use neltrik_backend.Guards.Chain.{
  audit_denied, rethrow, audited, is_mutating, unless, accept, refuse, authenticate, check_email,
  check_user, check_tenant, check_csrf, check_permissions, required, authentication_guard,
  email_verified_guard, user_state_guard, tenant_state_guard, csrf_guard, permissions_guard, guards,
}

-- One event with the error is recorded, if the route has metadata for the audit.
abbrev pub Logged : Option AuditMetadata → Denial → List DeniedEvent → List DeniedEvent → Type 0
Logged none e old new = new ≡ old
Logged (some a) e old new =
    (origin : Text) × (new
      ≡ old ++ record { action = a.action; resource = a.resource; error = e; origin = origin } ∷ [])

record Audits (route : Route) (m : M (Unit {0})) : Type 0 where
  passes : (w : World) → (m w).0 ≡ ok tt → (m w).1.recorded ≡ w.recorded
  denies :
      (w : World) (e : Denial) → (m w).0 ≡ err e → Logged route.audit e w.recorded (m w).1.recorded

-- The records are those given.
abbrev Quiet : List DeniedEvent → World → Type 0
Quiet r w = w.recorded ≡ r

audit_denied-Logged :
    (origin : Text) (a : Option AuditMetadata) (e : Denial) (w : World)
    → Logged a e w.recorded (audit_denied origin a e w).recorded
unfolding audit_denied
audit_denied-Logged origin none e w = refl
audit_denied-Logged origin (some a) e w = (origin, refl)

err_unique : {r : Result Denial (Unit {0})} {x e : Denial} → r ≡ err x → r ≡ err e → x ≡ e
err_unique a b = cc

err-ok : {r : Result Denial (Unit {0})} {x : Denial} {a : Unit {0}} → r ≡ err x → r ≡ ok a → ⊥
err-ok a b = cc

module _ (route : Route) where
  rethrow-passes :
      (origin : Text) (r : Result Denial (Unit {0})) (w : World)
      → (rethrow origin route r w).0 ≡ ok tt
      → (rethrow origin route r w).1.recorded ≡ w.recorded
  rethrow-passes origin (ok a) w e = refl
  rethrow-passes origin (err x) w e = absurd (err-ok refl e)

  rethrow-denies :
      (origin : Text) (r : Result Denial (Unit {0})) (w : World) (e : Denial)
      → (rethrow origin route r w).0 ≡ err e
      → Logged route.audit e w.recorded (rethrow origin route r w).1.recorded
  rethrow-denies origin (ok a) w e h = absurd (err-ok h refl)
  rethrow-denies origin (err x) w e h =
      subst (λ y. Logged route.audit y w.recorded (audit_denied origin route.audit x w).recorded)
        (err_unique refl h) (audit_denied-Logged origin route.audit x w)

  Audits-audited :
      (origin : Text) (body : M (Unit {0}))
      → ((r : List DeniedEvent) → Keeps (Quiet r) body)
      → Audits route (audited origin route body)
  unfolding audited
  Audits-audited origin body quiet = record {
    passes = λ w e. rethrow-passes origin (body w).0 (body w).1 e ∙ (quiet w.recorded).run w refl;
    denies = λ w e h.
        subst (λ r. Logged route.audit e r (rethrow origin route (body w).0 (body w).1).1.recorded)
          ((quiet w.recorded).run w refl) (rethrow-denies origin (body w).0 (body w).1 e h);
  }

  bind_passes :
      (r : Result Denial (Unit {0})) (w : World) (n : M (Unit {0}))
      → Audits route n
      → (((λ v. (r, w)) >> n) w).0 ≡ ok tt
      → (r ≡ ok tt) × ((((λ v. (r, w)) >> n) w).1.recorded ≡ w.recorded)
  bind_passes (ok tt) w n an e = (refl, an.passes w e)
  bind_passes (err x) w n an e = absurd (err-ok refl e)

  bind_denies :
      (r : Result Denial (Unit {0})) (old : List DeniedEvent) (w : World) (n : M (Unit {0}))
      (e : Denial)
      → Audits route n
      → (r ≡ ok tt → w.recorded ≡ old)
      → ((x : Denial) → r ≡ err x → Logged route.audit x old w.recorded)
      → (((λ v. (r, w)) >> n) w).0 ≡ err e
      → Logged route.audit e old (((λ v. (r, w)) >> n) w).1.recorded
  bind_denies (ok tt) old w n e an same logged h =
      subst (λ r. Logged route.audit e r (n w).1.recorded) (same refl) (an.denies w e h)
  bind_denies (err x) old w n e an same logged h = logged e h

  Audits-bind : (m n : M (Unit {0})) → Audits route m → Audits route n → Audits route (m >> n)
  Audits-bind m n am an = record {
    passes =
        λ w e. let (first, rest) = bind_passes (m w).0 (m w).1 n an e in rest ∙ am.passes w first;
    denies = λ w e h. bind_denies (m w).0 w.recorded (m w).1 n e an (am.passes w) (am.denies w) h;
  }

module _ (r : List DeniedEvent) where
  Keeps-request : Keeps (Quiet r) (gets {W = World} {E = Denial} (λ w. w.request))
  Keeps-request = record { run = λ w h. h }

  Keeps-modify :
      (f : World → World)
      → ((w : World) → (f w).recorded ≡ w.recorded)
      → Keeps (Quiet r) (modify {E = Denial} f)
  Keeps-modify f same = record { run = λ w h. same w ∙ h }

  Keeps-unless : (b : Bool) (m : M (Unit {0})) → Keeps (Quiet r) m → Keeps (Quiet r) (unless b m)
  Keeps-unless true m k = record { run = λ w h. h }
  Keeps-unless false m k = k

  Keeps-accept : (o : Option Bool) → Keeps (Quiet r) (accept o)
  Keeps-accept none = record { run = λ w h. h }
  Keeps-accept (some true) = record { run = λ w h. h }
  Keeps-accept (some false) = record { run = λ w h. h }

  module _ (services : Services) (route : Route) where
    Keeps-refuse : (o : Option Text) → Keeps (Quiet r) (refuse services route o)
    unfolding refuse
    Keeps-refuse none = record { run = λ w h. h }
    Keeps-refuse (some []) = record { run = λ w h. h }
    Keeps-refuse (some (c ∷ s)) = record { run = λ w h. h }

    Keeps-authenticate : Keeps (Quiet r) (authenticate services route)
    unfolding authenticate
    Keeps-authenticate = search (keeps_rules, Keeps-request, Keeps-modify) depth 20

    Keeps-check_email : Keeps (Quiet r) (check_email services route)
    unfolding check_email
    Keeps-check_email = search (keeps_rules, Keeps-request) depth 20

    Keeps-check_user : Keeps (Quiet r) (check_user services route)
    unfolding check_user
    Keeps-check_user = search (keeps_rules, Keeps-request) depth 20

    Keeps-check_tenant : Keeps (Quiet r) (check_tenant services route)
    unfolding check_tenant
    Keeps-check_tenant = search (keeps_rules, Keeps-request, Keeps-unless) depth 20

    Keeps-check_csrf : Keeps (Quiet r) (check_csrf services route)
    unfolding check_csrf
    Keeps-check_csrf = search (keeps_rules, Keeps-request, Keeps-accept) depth 20

    Keeps-check_permissions :
        (ps : List Text) → Keeps (Quiet r) (check_permissions services route ps)
    unfolding check_permissions
    Keeps-check_permissions [] = record { run = λ w h. h }
    Keeps-check_permissions (p ∷ ps) = search (keeps_rules, Keeps-request, Keeps-refuse) depth 20

    Keeps-required : (o : Option (List Text)) → Keeps (Quiet r) (required services route o)
    unfolding required
    Keeps-required none = record { run = λ w h. h }
    Keeps-required (some ps) = Keeps-check_permissions ps

module _ (services : Services) (route : Route) where
  Audits-csrf_guard : Audits route (csrf_guard services route)
  unfolding csrf_guard
  Audits-csrf_guard = record {
    passes = λ w e. (checked w).passes w e;
    denies = λ w e h. (checked w).denies w e h;
  }
    where
      checked :
          (w : World)
          → Audits route (
              audited (text "CsrfGuard") route (
                unless
                  (not (is_mutating w.request.method))
                  (unless route.is_public (check_csrf services route))))
      checked w =
          Audits-audited route (text "CsrfGuard") _
            (λ r. Keeps-unless r _ _ (Keeps-unless r _ _ (Keeps-check_csrf r services route)))

  Audits-unless :
      (origin : Text) (skip : Bool) (body : M (Unit {0}))
      → ((r : List DeniedEvent) → Keeps (Quiet r) body)
      → Audits route (audited origin route (unless skip body))
  Audits-unless origin skip body quiet =
      Audits-audited route origin (unless skip body) (λ r. Keeps-unless r skip body (quiet r))

  Audits-authentication_guard : Audits route (authentication_guard services route)
  unfolding authentication_guard
  Audits-authentication_guard =
      Audits-unless (text "AuthenticationGuard") route.is_public (authenticate services route)
        (λ r. Keeps-authenticate r services route)

  Audits-email_verified_guard : Audits route (email_verified_guard services route)
  unfolding email_verified_guard
  Audits-email_verified_guard =
      Audits-unless (text "EmailVerifiedGuard") route.skip_email_verification
        (check_email services route) (λ r. Keeps-check_email r services route)

  Audits-user_state_guard : Audits route (user_state_guard services route)
  unfolding user_state_guard
  Audits-user_state_guard =
      Audits-unless (text "UserStateGuard") route.skip_user_state (check_user services route)
        (λ r. Keeps-check_user r services route)

  Audits-tenant_state_guard : Audits route (tenant_state_guard services route)
  unfolding tenant_state_guard
  Audits-tenant_state_guard =
      Audits-unless (text "TenantStateGuard") route.skip_tenant_state (check_tenant services route)
        (λ r. Keeps-check_tenant r services route)

  Audits-permissions_guard : Audits route (permissions_guard services route)
  unfolding permissions_guard
  Audits-permissions_guard =
      Audits-unless (text "PermissionsGuard") route.public_permission
        (required services route route.permissions)
        (λ r. Keeps-required r services route route.permissions)

  Audits-guards : Audits route (guards services route)
  unfolding guards
  Audits-guards =
      search
        (
          Audits-bind, Audits-authentication_guard, Audits-email_verified_guard,
          Audits-user_state_guard, Audits-tenant_state_guard, Audits-csrf_guard,
          Audits-permissions_guard,
        )
        depth 10

  -- If the guards deny a request, then one event with the error is recorded, where the route has
  -- metadata for the audit, and none where it has not.
  pub guards-Logged :
      (w : World) (e : Denial)
      → (guards services route w).0 ≡ err e
      → Logged route.audit e w.recorded (guards services route w).1.recorded
  guards-Logged w e denied = Audits-guards.denies w e denied
