-- ===== src/Guards/Samples.antt =====
-- A request without a token, and a CSRF token, on small services.
use neltrik_backend.Prelude.{
  ◌≡◌, refl, none, some, true, false, [], ◌∷◌, ◌++◌, arith, all, not, ◌==◌,
}
use neltrik_backend.Prelude.Text.{Text, text, text_eq, includes}
use neltrik_backend.Prelude.Result.{ok, err}
use neltrik_backend.Guards.Csrf.{
  Crypto, HasNoDot, generate, verify, build_message, verify_parts, split_dots, timing_safe_equal,
  verify-generate,
}
use neltrik_backend.Guards.Request.{Route, Services, World, access_token_not_found}
use neltrik_backend.Guards.Chain.{
  guards, authentication_guard, authenticate, audited, audit_denied, email_verified_guard,
  check_email, user_state_guard, check_user, tenant_state_guard, check_tenant, csrf_guard,
  check_csrf, permissions_guard, required, check_permissions, has_permissions, first_missing,
  refuse,
}
use neltrik_backend.FileStorage.UseCases.Keys.{decimal}
use neltrik_backend.Guards.Passed.{IsProtected, Allowed}
use neltrik_backend.Guards.Allowed.{guards-Allowed}
use neltrik_backend.Guards.Denied.{Logged, guards-Logged}

abbrev digest : Text
digest = text "0123456789abcdef0123456789abcdef0123456789abcdef0123456789abcdef"

abbrev crypto : Crypto
crypto = record { hmac = λ _. digest; utf8_length = λ s. 64 }

-- A check that a text has no dot.
no_dot : (s : Text) → all (λ c. not (c == b'.')) s ≡ true → HasNoDot crypto s
no_dot [] h = tt
no_dot (c ∷ s) h = ((λ e. absurd (ground arith)), no_dot s (ground arith))

verify-generate_example :
    verify crypto (some (generate crypto (text "s") (text "ab"))) (text "s") ≡ some true
verify-generate_example =
    verify-generate crypto (text "s") (text "ab") refl (no_dot digest refl)
      (no_dot (text "ab") refl) refl

abbrev services : Services
services = record {
  crypto = crypto;
  verify_token = λ t. ok (record {
    sub = text "u";
    tenant_id = text "t";
    role_code = text "r";
    session_id = text "s";
  });
  resolve = λ s. ok (record {
    is_valid = true;
    user_status = text "ACTIVE";
    email_verified = true;
    tenant_status = text "ACTIVE";
  });
  has_permission = λ u p. ok true;
  frontend_url = text "https://app";
}

abbrev route : Route
route = record {
  is_public = false;
  skip_email_verification = false;
  skip_user_state = false;
  skip_tenant_state = false;
  public_permission = false;
  permissions = some (text "FILE_READ" ∷ []);
  audit = some (record { action = text "READ"; resource = text "FILE" });
}

abbrev anonymous : World
anonymous = record {
  request = record {
    method = text "GET";
    origin = none;
    requested_with = none;
    csrf_header = none;
    access_token = none;
    user = none;
    email_verified = none;
  };
  recorded = [];
}

denied : (guards services route anonymous).0 ≡ err access_token_not_found
unfolding guards authentication_guard authenticate audited audit_denied
denied = refl

guards-Logged_example :
    Logged route.audit access_token_not_found [] (guards services route anonymous).1.recorded
guards-Logged_example = guards-Logged services route anonymous access_token_not_found denied

-- A request that mutates, with a token of its session.
abbrev signed : World
signed = record {
  request = record {
    method = text "POST";
    origin = some (text "https://app");
    requested_with = some (text "XMLHttpRequest");
    csrf_header = some (digest ++ (text "." ++ text "ab"));
    access_token = some (text "jwt");
    user = none;
    email_verified = none;
  };
  recorded = [];
}

passed : (guards services route signed).0 ≡ ok tt
unfolding guards authentication_guard authenticate audited audit_denied email_verified_guard
    check_email user_state_guard check_user tenant_state_guard check_tenant csrf_guard check_csrf
    permissions_guard required check_permissions has_permissions first_missing refuse text_eq
    includes verify verify_parts split_dots build_message timing_safe_equal decimal
passed = refl

guards-Allowed_example : Allowed services route (text "FILE_READ" ∷ []) signed.request
guards-Allowed_example =
    guards-Allowed services route (text "FILE_READ" ∷ []) route-IsProtected signed passed
  where
    route-IsProtected : IsProtected services route (text "FILE_READ" ∷ [])
    route-IsProtected = record {
      private = refl;
      email = refl;
      user_state = refl;
      tenant_state = refl;
      permission = refl;
      permissions = refl;
      named = (refl, tt);
    }
