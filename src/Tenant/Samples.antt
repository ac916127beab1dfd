-- ===== src/Tenant/Samples.antt =====
-- An invitation, and the theorems about invitations at inputs that meet their hypotheses.
use neltrik_backend.Prelude.{ℕ, ◌≡◌, refl, none, some, List, [], ◌∷◌, arith}
use neltrik_backend.Prelude.Text.{Text, text, text_eq, trim, is_space}
use neltrik_backend.Prelude.Result.{ok, err}
use neltrik_backend.Tenant.Values.{
  invitation_already_used, create_recipient, create_token, is_valid_email, is_token,
}
use neltrik_backend.Tenant.Invitation.{Invitation, InvitationStatus}
use neltrik_backend.Tenant.Invitation.Lifecycle
use neltrik_backend.Tenant.Invitation.Lifecycle.{Call, IsSameOrExpired}
use neltrik_backend.Tenant.Invitations.{Rows, find_token, find_id, update, consume, consume_read}
use neltrik_backend.Tenant.Invitations.Race
use neltrik_backend.Tenant.Invitations.Race.{IsOpen, consumed}

abbrev token : Text
token = text "0123abcd-0123-0123-0123-0123456789ab"

abbrev invitation : Invitation
invitation = record {
  id = text "i";
  tenant_id = text "acme";
  role_id = text "r";
  recipient = text "ann@acme.org";
  token = token;
  expiration_date = 100;
  mechanism = text "MANUAL";
  status = InvitationStatus.pending;
  used_at = none;
  revoked_at = none;
  created_at = 0;
  updated_at = 0;
}

abbrev another : Invitation
another = record invitation { id = text "j"; token = text "1123abcd-0123-0123-0123-0123456789ab" }

abbrev rows : Rows
rows = another ∷ invitation ∷ []

abbrev early : ℕ → ℕ
early n = n

abbrev later : ℕ → ℕ
later n = 50

invitation-IsOpen : IsOpen none invitation rows
unfolding create_recipient create_token find_token find_id text_eq trim is_valid_email is_token
    is_space
invitation-IsOpen = record {
  waiting = refl;
  recipient_kept = refl;
  token_kept = refl;
  under_token = refl;
  under_id = refl;
  visible = refl;
}

consume-once_example :
    ((consume none early token rows).0 ≡ ok (text "i"))
    × ((consume none later token (consume none early token rows).1).0 ≡ err invitation_already_used)
consume-once_example =
    Race.consume-once none early later rows invitation invitation-IsOpen
      (record { first = ground arith; second = ground arith; third = ground arith })

consume-interleaved_example :
    (consume_read none early token rows ≡ (ok (consumed early invitation), rows))
    × (consume_read none later token rows ≡ (ok (consumed later invitation), rows))
    × (find_token token
          (update none
            (consumed later invitation)
            (update none (consumed early invitation) rows).1).1
        ≡ some (consumed later invitation))
consume-interleaved_example =
    Race.consume-interleaved none early later rows invitation invitation-IsOpen
      (record { first = ground arith; second = ground arith; third = ground arith })
      (record { first = ground arith; second = ground arith; third = ground arith })

abbrev calls : List Call
calls = Call.revoke 101 102 103 ∷ Call.reload 104 ∷ Call.use_up 105 106 107 ∷ []

abbrev used_invitation : Invitation
used_invitation = record invitation { status = InvitationStatus.used; used_at = some 7 }

run_settled_example : Lifecycle.run calls used_invitation ≡ used_invitation
run_settled_example = Lifecycle.run_settled calls used_invitation refl

run_late_example : IsSameOrExpired invitation (Lifecycle.run calls invitation)
run_late_example =
    Lifecycle.run_late 100 calls invitation (ground arith)
      (ground arith, (ground arith, (ground arith, tt)))
