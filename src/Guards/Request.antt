-- ===== src/Guards/Request.antt =====
-- What the guards read and write: the metadata of the route, the request, and the records of the audit.
use neltrik_backend.Prelude.{Bool, Option, List}
use neltrik_backend.Prelude.Text.{Text}
use neltrik_backend.Prelude.Result.{Result}
use neltrik_backend.Prelude.Exec.{Exec}
use neltrik_backend.Guards.Csrf.{Crypto}

-- `AuditMetadata`
pub record AuditMetadata : Type 0 where
  pub action : Text
  pub resource : Text

-- What `reflector.getAllAndOverride` answers for the handler and its class.
pub record Route : Type 0 where
  pub is_public : Bool
  pub skip_email_verification : Bool
  pub skip_user_state : Bool
  pub skip_tenant_state : Bool
  pub public_permission : Bool
  pub permissions : Option (List Text)
  pub audit : Option AuditMetadata

-- `request.user`
pub record RequestUser : Type 0 where
  pub user_id : Text
  pub tenant_id : Text
  pub role_code : Text
  pub session_id : Text
  pub user_status : Text
  pub tenant_status : Text

-- `Request`: of a header that is an array, its first value; `email_verified` is that of
-- `request.account`.
pub record Request : Type 0 where
  pub method : Text
  pub origin : Option Text
  pub requested_with : Option Text
  pub csrf_header : Option Text
  pub access_token : Option Text
  pub user : Option RequestUser
  pub email_verified : Option Bool

-- The exceptions, by their messages, and the errors of the services.
pub data Denial : Type 0 where
  access_token_not_found invalid_session not_authenticated email_not_verified user_not_active
        tenant_not_active invalid_origin missing_requested_with session_not_available
        invalid_csrf_token range_error no_permissions_defined no_permission :
      Denial
  missing_permission : Text → Denial
  service_error : Text → Denial

-- `auditRecorder.record({ ..., status: "DENIED" })`
pub record DeniedEvent : Type 0 where
  pub action : Text
  pub resource : Text
  pub error : Denial
  pub origin : Text

-- `TokenPayload`
pub record TokenPayload : Type 0 where
  pub sub : Text
  pub tenant_id : Text
  pub role_code : Text
  pub session_id : Text

-- `SessionResolution`
pub record SessionResolution : Type 0 where
  pub is_valid : Bool
  pub user_status : Text
  pub email_verified : Bool
  pub tenant_status : Text

-- The services that the guards ask.
pub record Services : Type 0 where
  pub crypto : Crypto
  pub verify_token : Text → Result Denial TokenPayload
  pub resolve : Text → Result Denial SessionResolution
  pub has_permission : Text → Text → Result Denial Bool
  pub frontend_url : Text

pub record World : Type 0 where
  pub request : Request
  pub recorded : List DeniedEvent

abbrev pub M : Type 0 → Type 0
M A = Exec World Denial A
