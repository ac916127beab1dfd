-- ===== src/Tenant/Invitations.antt =====
-- The use cases of an invitation and their repository: src/core/tenant/application/use-cases,
-- application/use-cases-ohs and infrastructure/repositories/prisma-invitation-repository. The n-th
-- reading of the clock in a call is the n-th value of a function. A row is kept as the entity. `scope`
-- is the tenant to which src/prisma/prisma.service restricts the client, if it restricts it.
pub mod Race
use neltrik_backend.Prelude.{
  ℕ, Bool, true, false, not, Option, none, some, List, [], ◌∷◌, if◌then◌else◌,
}
use neltrik_backend.Prelude.Text.{Text, text_eq}
use neltrik_backend.Prelude.Result.{Result, ok, err}
use neltrik_backend.Prelude.Exec.{Exec, pure, lift, throw_if, or_throw, ◌>>=◌, ◌>>◌}
use neltrik_backend.Tenant.Values.{
  Error, create_recipient, create_token, invitation_not_found, invitation_already_used,
  invitation_already_revoked, invitation_expired, record_not_found,
}
use neltrik_backend.Tenant.Invitation
use neltrik_backend.Tenant.Invitation.{Invitation, is_used, is_revoked, is_pending, is_expired}

abbrev pub Rows : Type 0
Rows = List Invitation

-- `findUnique({ where: { token } })`
unfoldable pub find_token : Text → Rows → Option Invitation
find_token token [] = none
find_token token (i ∷ rows) = if text_eq token i.token then some i else find_token token rows

-- The row with the key.
unfoldable pub find_id : Text → Rows → Option Invitation
find_id id [] = none
find_id id (i ∷ rows) = if text_eq id i.id then some i else find_id id rows

unfoldable pub set_row : Text → Invitation → Rows → Rows
set_row id j [] = []
set_row id j (i ∷ rows) = if text_eq id i.id then j ∷ rows else i ∷ set_row id j rows

-- `InvitationMapper.toDomain`
unfoldable pub to_domain : ℕ → Invitation → Result Error Invitation
to_domain now row = elim (create_recipient row.recipient) [
  | err e ↦ err e
  | ok recipient ↦ elim (create_token row.token) [
    | err e ↦ err e
    | ok token ↦ Invitation.restore now (record row { recipient = recipient; token = token })
  ]
]

abbrev sequence_row : ℕ → Option Invitation → Result Error (Option Invitation)
sequence_row now none = ok none
sequence_row now (some row) = elim (to_domain now row) [ ok i ↦ ok (some i) | err e ↦ err e ]

-- The filter on the tenant that `tenantClient` adds to a `where`, if it adds one.
abbrev pub seen : Option Text → Option Invitation → Option Invitation
seen scope none = none
seen none (some row) = some row
seen (some tenant) (some row) = if text_eq tenant row.tenant_id then some row else none

-- `PrismaInvitationRepository.getByToken`
unfoldable pub get_by_token : Option Text → ℕ → Text → Exec Rows Error (Option Invitation)
unfolding find_token
get_by_token scope now token rows = (sequence_row now (seen scope (find_token token rows)), rows)

abbrev write : Invitation → Option Invitation → Exec Rows Error (Unit {0})
write i none rows = (err record_not_found, rows)
write i (some _) rows = (ok tt, set_row i.id i rows)

-- `PrismaInvitationRepository.update`: the row that is there is not compared with what was read.
unfoldable pub update : Option Text → Invitation → Exec Rows Error (Unit {0})
unfolding find_id set_row
update scope i rows = write i (seen scope (find_id i.id rows)) rows

module _ (scope : Option Text) (clock : ℕ → ℕ) where
  -- The checks that `consume` and `revoke` make of the row that they have read.
  abbrev ensure_open : Option Invitation → Result Error Invitation
  ensure_open none = err invitation_not_found
  ensure_open (some i) =
      if is_used i.status
      then err invitation_already_used
      else (if is_revoked i.status
          then err invitation_already_revoked
          else (if is_expired (clock 1) i then err invitation_expired else ok i))

  -- `ConsumeInvitationOhsUseCase.execute`, up to the update: the invitation to be written.
  unfoldable pub consume_read : Text → Exec Rows Error Invitation
  consume_read token = do
    found ← get_by_token scope (clock 0) token
    i ← lift (ensure_open found)
    lift (Invitation.use_up (clock 2) (clock 3) (clock 4) i)

  -- `ConsumeInvitationOhsUseCase.execute`
  unfoldable pub consume : Text → Exec Rows Error Text
  unfolding consume_read
  consume token = do i ← consume_read token; update scope i; pure i.id

  -- `RevokeInvitationUseCase.execute`; the output is the changed invitation.
  unfoldable pub revoke : Text → Exec Rows Error Invitation
  revoke token = do
    found ← get_by_token scope (clock 0) token
    i ← lift (ensure_open found)
    j ← lift (Invitation.revoke (clock 2) (clock 3) (clock 4) i)
    update scope j
    pure j

  -- `ValidateInvitationUseCase.execute`; the output is read off the invitation.
  unfoldable pub validate : Text → Exec Rows Error Invitation
  validate token = do
    found ← get_by_token scope (clock 0) token
    i ← or_throw found invitation_not_found
    throw_if (is_revoked i.status) invitation_already_revoked
    throw_if (is_expired (clock 1) i) invitation_expired
    throw_if (not (is_pending i.status)) invitation_already_used
    pure i
