-- ===== src/Tenant/Invitation.antt =====
-- The entity Invitation: src/core/tenant/domain/entities/invitation/index.ts. A method takes the times
-- that it reads from the clock, in the order of its readings.
pub mod Lifecycle
use neltrik_backend.Prelude.{ℕ, Bool, true, false, not, ◌&&◌, Option, none, some}
use neltrik_backend.Prelude.Text.{Text}
use neltrik_backend.Prelude.Result.{Result, ok, err, ◌>>◌, throw_if}
use neltrik_backend.Tenant.Values.{
  Error, is_past, invalid_invitation_status, invitation_already_used, invitation_already_revoked,
  invitation_expired,
}

-- `INVITATION_STATUS`; `other_status` is a value that is none of them.
pub data InvitationStatus : Type 0 where
  pending used revoked expired : InvitationStatus
  other_status : Text → InvitationStatus

pub record Invitation : Type 0 where
  pub id : Text
  pub tenant_id : Text
  pub role_id : Text
  pub recipient : Text
  pub token : Text
  pub expiration_date : ℕ
  pub mechanism : Text
  pub status : InvitationStatus
  pub used_at : Option ℕ
  pub revoked_at : Option ℕ
  pub created_at : ℕ
  pub updated_at : ℕ

abbrev pub is_known : InvitationStatus → Bool
is_known (InvitationStatus.other_status _) = false
is_known _ = true

abbrev pub is_pending : InvitationStatus → Bool
is_pending InvitationStatus.pending = true
is_pending _ = false

abbrev pub is_used : InvitationStatus → Bool
is_used InvitationStatus.used = true
is_used _ = false

abbrev pub is_revoked : InvitationStatus → Bool
is_revoked InvitationStatus.revoked = true
is_revoked _ = false

abbrev pub is_expired : ℕ → Invitation → Bool
is_expired now i = is_past now i.expiration_date

-- `updateExpiredStatusIfNeeded`
unfoldable pub update_expired_status : ℕ → Invitation → Invitation
update_expired_status now i = elim (is_expired now i && is_pending i.status) [
  | true ↦ record i { status = InvitationStatus.expired }
  | false ↦ i
]

unfoldable pub restore : ℕ → Invitation → Result Error Invitation
unfolding update_expired_status
restore now i = do
  throw_if (not (is_known i.status)) invalid_invitation_status
  ok (update_expired_status now i)

-- `Invitation.create`: the status of the argument is not read.
unfoldable pub create : ℕ → Invitation → Result Error Invitation
unfolding restore
create now i = restore now (record i { status = InvitationStatus.pending })

-- An EXPIRED invitation passes.
unfoldable pub ensure_is_pending : Invitation → Result Error (Unit {0})
ensure_is_pending i = do
  throw_if (is_used i.status) invitation_already_used
  throw_if (is_revoked i.status) invitation_already_revoked
  ok tt

unfoldable pub ensure_is_not_expired : ℕ → Invitation → Result Error (Unit {0})
ensure_is_not_expired now i = do throw_if (is_expired now i) invitation_expired; ok tt

-- `use`
unfoldable pub use_up : ℕ → ℕ → ℕ → Invitation → Result Error Invitation
unfolding ensure_is_pending ensure_is_not_expired
use_up now at later i = do
  ensure_is_pending i
  ensure_is_not_expired now i
  ok (record i { status = InvitationStatus.used; used_at = some at; updated_at = later })

unfoldable pub revoke : ℕ → ℕ → ℕ → Invitation → Result Error Invitation
unfolding ensure_is_pending ensure_is_not_expired
revoke now at later i = do
  ensure_is_pending i
  ensure_is_not_expired now i
  throw_if (is_revoked i.status) invitation_already_revoked
  ok (record i { status = InvitationStatus.revoked; revoked_at = some at; updated_at = later })
