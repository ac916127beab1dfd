-- ===== src/Guards/Passed.antt =====
-- What a request that the guards let through has shown.
use neltrik_backend.Prelude.{
  Bool, true, false, ◌||◌, Option, none, some, List, [], ◌∷◌, All, is_empty, ◌≡◌, ◌≢◌, refl, sym,
  ap, ◌∙◌, arith, ◌⊎◌, inl, inr, Bool-cases, Option-cases,
}
use mathlib.Core.Path.{subst}
use neltrik_backend.Prelude.Text.{Text, text, text_eq, text_eq_iff}
use neltrik_backend.Prelude.Result.{Result, ok, Result-cases}
use neltrik_backend.Guards.Csrf.{verify}
use neltrik_backend.Guards.Request.{
  Route, Request, RequestUser, Denial, TokenPayload, SessionResolution, Services, World, M,
}
use neltrik_backend.Guards.Chain.{
  audited, is_mutating, unless, is_not, accept, session_of, user_of, non_empty, refuse,
  has_permissions, first_missing, authenticate, check_email, check_user, check_tenant, check_csrf,
  check_permissions,
}

is_not-false : (o : Option Text) (y : Text) → is_not o y ≡ false → o ≡ some y
is_not-false none y e = cc
is_not-false (some x) y e = ground (arith, text_eq_iff x y)

accept-ok :
    (o : Option Bool) (w : World) → (accept o w).0 ≡ ok tt → (o ≡ some true) × ((accept o w).1 ≡ w)
accept-ok none w e = absurd (ground arith)
accept-ok (some true) w e = (refl, refl)
accept-ok (some false) w e = absurd (ground arith)

non_empty-some : (s t : Text) → non_empty (some s) ≡ some t → s ≡ t
non_empty-some [] t e = cc
non_empty-some (c ∷ s) t e = cc

non_empty-present : (o : Option Text) (t : Text) → non_empty o ≡ some t → o ≡ some t
non_empty-present none t e = cc
non_empty-present (some []) t e = cc
non_empty-present (some (c ∷ s)) t e = e

session_of-some : (u : RequestUser) (t : Text) → session_of (some u) ≡ some t → u.session_id ≡ t
session_of-some u t e = non_empty-some u.session_id t e

user_of-some : (u : RequestUser) (t : Text) → user_of (some u) ≡ some t → u.user_id ≡ t
user_of-some u t e = non_empty-some u.user_id t e

module _ (services : Services) (route : Route) where
  -- The user that the authentication puts into the request.
  abbrev pub user_from : TokenPayload → SessionResolution → RequestUser
  user_from payload result = record {
    user_id = payload.sub;
    tenant_id = payload.tenant_id;
    role_code = payload.role_code;
    session_id = payload.session_id;
    user_status = result.user_status;
    tenant_status = result.tenant_status;
  }

  abbrev pub signed_in : TokenPayload → SessionResolution → World → World
  signed_in payload result w = record w {
    request = record w.request {
      user = some (user_from payload result);
      email_verified = some result.email_verified;
    };
  }

  audited-ok :
      (origin : Text) (body : M (Unit {0})) (w : World)
      → (audited origin route body w).0 ≡ ok tt
      → audited origin route body w ≡ body w
  unfolding audited
  audited-ok origin body w e = elim (Result-cases (body w).0) [
    | inl (tt, done) ↦ ground arith
    | inr (x, failed) ↦ absurd (ground arith)
  ]

  pub record Authenticated (w : World) : Type 0 where
    pub token : Text
    pub payload : TokenPayload
    pub result : SessionResolution
    pub sent : w.request.access_token ≡ some token
    pub verified : services.verify_token token ≡ ok payload
    pub resolved : services.resolve payload.session_id ≡ ok result
    pub valid : result.is_valid ≡ true
    pub world : (authenticate services route w).1 ≡ signed_in payload result w

  pub authenticate-Authenticated :
      (w : World) → (authenticate services route w).0 ≡ ok tt → Authenticated w
  unfolding authenticate
  authenticate-Authenticated w e = elim (Option-cases (non_empty w.request.access_token)) [
    | inl absent ↦ absurd (ground arith)
    | inr (token, present) ↦ elim (Result-cases (services.verify_token token)) [
      | inl (payload, verified) ↦ elim (Result-cases (services.resolve payload.session_id)) [
        | inl (result, resolved) ↦ elim (Bool-cases result.is_valid) [
          | inl valid ↦ record {
            token = token;
            sent = non_empty-present w.request.access_token token present;
            verified = verified;
            payload = payload;
            result = result;
            resolved = resolved;
            valid = valid;
            world = ground arith;
          }
          | inr invalid ↦ absurd (ground arith)
        ]
        | inr (x, failed) ↦ absurd (ground arith)
      ]
      | inr (x, failed) ↦ absurd (ground arith)
    ]
  ]

  -- The checks that follow, on a request with its user.
  module _ (w : World) (user : RequestUser) (verified : Bool)
      (has_user : w.request.user ≡ some user)
      (has_email : w.request.email_verified ≡ some verified) where
    pub check_email-ok :
        (check_email services route w).0 ≡ ok tt
        → (verified ≡ true) × ((check_email services route w).1 ≡ w)
    unfolding check_email
    check_email-ok e = (ground arith, ground arith)

    pub check_user-ok :
        (check_user services route w).0 ≡ ok tt
        → (text_eq user.user_status (text "ACTIVE") ≡ true) × ((check_user services route w).1 ≡ w)
    unfolding check_user
    check_user-ok e = (ground arith, ground arith)

    pub check_tenant-ok :
        (check_tenant services route w).0 ≡ ok tt
        → ((text_eq user.role_code (text "PLATFORM_ADMIN")
              || text_eq user.tenant_status (text "ACTIVE"))
            ≡ true)
          × ((check_tenant services route w).1 ≡ w)
    unfolding check_tenant
    check_tenant-ok e = elim (Bool-cases (text_eq user.role_code (text "PLATFORM_ADMIN"))) [
      | inl admin ↦ (ground arith, ground arith)
      | inr other ↦ (ground arith, ground arith)
    ]

    pub check_csrf-ok :
        (check_csrf services route w).0 ≡ ok tt
        → (w.request.origin ≡ some services.frontend_url)
          × (verify services.crypto w.request.csrf_header user.session_id ≡ some true)
          × ((check_csrf services route w).1 ≡ w)
    unfolding check_csrf
    check_csrf-ok e = elim (Bool-cases (is_not w.request.origin services.frontend_url)) [
      | inl foreign ↦ absurd (ground arith)
      | inr same ↦ elim (Bool-cases (is_not w.request.requested_with (text "XMLHttpRequest"))) [
        | inl unmarked ↦ absurd (ground arith)
        | inr marked ↦ elim (Option-cases (session_of w.request.user)) [
          | inl none_there ↦ absurd (ground arith)
          | inr (id, session) ↦
              let (verified, unchanged) =
                accept-ok (verify services.crypto w.request.csrf_header id) w (ground arith) in
              let named = session_of-some user id (ap session_of (sym has_user) ∙ session) in
              (
                is_not-false w.request.origin services.frontend_url same,
                ap (λ i. verify services.crypto w.request.csrf_header i) named ∙ verified,
                ground arith,
              )
        ]
      ]
    ]

  -- Every permission that is named is granted.
  abbrev pub Granted : Text → List Text → Type 0
  Granted user_id ps = All (λ p. services.has_permission user_id p ≡ ok true) ps

  refuse-named :
      (p : Text) (o : Option Text) (w : World)
      → is_empty p ≡ false
      → o ≡ some p
      → (refuse services route o w).0 ≢ ok tt
  unfolding refuse
  refuse-named p none w h e r = cc
  refuse-named p (some []) w h e r = ground arith
  refuse-named p (some (c ∷ s)) w h e r = ground arith

  has_permissions-Granted :
      (user_id : Text) (ps : List Text) (w : World) {rs : List (Text × Bool)}
      → All (λ p. is_empty p ≡ false) ps
      → has_permissions services route user_id ps ≡ ok rs
      → (refuse services route (first_missing services route rs) w).0 ≡ ok tt
      → Granted user_id ps
  unfolding has_permissions first_missing refuse
  has_permissions-Granted user_id [] w named asked e = tt
  has_permissions-Granted user_id (p ∷ ps) w {rs} named asked e =
      elim (Result-cases (services.has_permission user_id p)) [
        | inl (true, yes_it) ↦ elim (Result-cases (has_permissions services route user_id ps)) [
          | inl (bs, rest) ↦
              (yes_it, has_permissions-Granted user_id ps w named.1 rest (ground arith))
          | inr (x, failed) ↦ absurd (ground arith)
        ]
        | inl (false, no_it) ↦ elim (Result-cases (has_permissions services route user_id ps)) [
          | inl (bs, rest) ↦
              absurd (refuse-named p (first_missing services route rs) w named.0 (ground arith) e)
          | inr (x, failed) ↦ absurd (ground arith)
        ]
        | inr (x, failed) ↦ absurd (ground arith)
      ]

  pub check_permissions-ok :
      (ps : List Text) (w : World) (user : RequestUser)
      → w.request.user ≡ some user
      → All (λ p. is_empty p ≡ false) ps
      → (check_permissions services route ps w).0 ≡ ok tt
      → Granted user.user_id ps
  unfolding check_permissions
  check_permissions-ok [] w user has_user named e = tt
  check_permissions-ok (p ∷ ps) w user has_user named e =
      elim (Option-cases (user_of w.request.user)) [
        | inl none_there ↦ absurd (ground arith)
        | inr (id, known) ↦ elim (Result-cases (has_permissions services route id (p ∷ ps))) [
          | inl (rs, asked) ↦
              let same = user_of-some user id (ap user_of (sym has_user) ∙ known) in
              subst (λ i. Granted i (p ∷ ps)) (sym same)
                (has_permissions-Granted id (p ∷ ps) w named asked (ground arith))
          | inr (x, failed) ↦ absurd (ground arith)
        ]
      ]

  pub guard-ok :
      (origin : Text) (skip : Bool) (body : M (Unit {0})) (w : World)
      → skip ≡ false
      → (audited origin route (unless skip body) w).0 ≡ ok tt
      → ((body w).0 ≡ ok tt) × ((audited origin route (unless skip body) w).1 ≡ (body w).1)
  guard-ok origin skip body w open_to e =
      let path = audited-ok origin (unless skip body) w e in
      let same = ap {A = Bool} (λ b. unless b body w) open_to in
      let all = path ∙ same in
      (
        ap {A = Result Denial Unit × World} (λ q. q.0) (sym all) ∙ e,
        ap {A = Result Denial Unit × World} (λ q. q.1) all,
      )

  -- The route asks for all of the checks, and for the permissions `ps`.
  pub record IsProtected (ps : List Text) : Type 0 where
    pub private : route.is_public ≡ false
    pub email : route.skip_email_verification ≡ false
    pub user_state : route.skip_user_state ≡ false
    pub tenant_state : route.skip_tenant_state ≡ false
    pub permission : route.public_permission ≡ false
    pub permissions : route.permissions ≡ some ps
    pub named : All (λ p. is_empty p ≡ false) ps

  -- What a request has shown: a token that is verified and names a session that is valid, of an active user with a verified address, in an
  -- active tenant or of the platform's administrator, with all of the permissions; and, if its method
  -- mutates, the origin of the frontend and a token of the session.
  pub record Allowed (ps : List Text) (q : Request) : Type 0 where
    pub token : Text
    pub payload : TokenPayload
    pub result : SessionResolution
    pub sent : q.access_token ≡ some token
    pub verified : services.verify_token token ≡ ok payload
    pub resolved : services.resolve payload.session_id ≡ ok result
    pub valid : result.is_valid ≡ true
    pub email : result.email_verified ≡ true
    pub user_active : text_eq result.user_status (text "ACTIVE") ≡ true
    pub tenant_active :
        (text_eq payload.role_code (text "PLATFORM_ADMIN")
          || text_eq result.tenant_status (text "ACTIVE"))
        ≡ true
    pub origin : (is_mutating q.method ≡ false) ⊎ (q.origin ≡ some services.frontend_url)
    pub csrf :
        (is_mutating q.method ≡ false)
        ⊎ (verify services.crypto q.csrf_header payload.session_id ≡ some true)
    pub granted : Granted payload.sub ps
