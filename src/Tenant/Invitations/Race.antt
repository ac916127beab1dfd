-- ===== src/Tenant/Invitations/Race.antt =====
-- Two requests that consume the same invitation, one after the other and interleaved.
use neltrik_backend.Prelude.{ℕ, Option, none, ◌≡◌, ◌<◌, refl, some, [], ◌∷◌, arith}
use neltrik_backend.Prelude.Text.{Text, text_eq_iff}
use neltrik_backend.Prelude.Result.{ok, err}
use neltrik_backend.Tenant.Values.{create_recipient, create_token, invitation_already_used}
use neltrik_backend.Tenant.Invitation
use neltrik_backend.Tenant.Invitation.{Invitation, InvitationStatus}
use neltrik_backend.Tenant.Invitations.{
  Rows, seen, find_token, find_id, set_row, to_domain, get_by_token, update, consume, consume_read,
}

-- The row of an open invitation, as a constructor has made it, under its own token and key, which the
-- client of the caller may see.
pub record IsOpen (scope : Option Text) (i : Invitation) (rows : Rows) : Type 0 where
  pub waiting : i.status ≡ InvitationStatus.pending
  pub recipient_kept : create_recipient i.recipient ≡ ok i.recipient
  pub token_kept : create_token i.token ≡ ok i.token
  pub under_token : find_token i.token rows ≡ some i
  pub under_id : find_id i.id rows ≡ some i
  pub visible : seen scope (some i) ≡ some i

-- The invitation that `consume` writes.
abbrev pub consumed : (ℕ → ℕ) → Invitation → Invitation
consumed clock i = record i {
  status = InvitationStatus.used;
  used_at = some (clock 3);
  updated_at = clock 4;
}

-- None of the first three readings of the clock has come to the expiration date.
pub record IsInTime (clock : ℕ → ℕ) (i : Invitation) : Type 0 where
  pub first : clock 0 < i.expiration_date
  pub second : clock 1 < i.expiration_date
  pub third : clock 2 < i.expiration_date

-- A row of the same tenant is seen as well.
seen-same :
    (scope : Option Text) (i j : Invitation)
    → seen scope (some i) ≡ some i
    → j.tenant_id ≡ i.tenant_id
    → seen scope (some j) ≡ some j
seen-same none i j h e = refl
seen-same (some t) i j h e = ground arith

-- An update of a row that the caller may see writes it.
update-seen :
    (scope : Option Text) (i j : Invitation) (rows : Rows)
    → find_id j.id rows ≡ some i
    → seen scope (some i) ≡ some i
    → update scope j rows ≡ (ok tt, set_row j.id j rows)
unfolding update
update-seen scope i j rows under h = rw under (rw h refl)

consume_read-open :
    (scope : Option Text) (clock : ℕ → ℕ) (rows : Rows) (i : Invitation)
    → IsOpen scope i rows
    → IsInTime clock i
    → consume_read scope clock i.token rows ≡ (ok (consumed clock i), rows)
unfolding consume_read get_by_token Invitation.use_up Invitation.restore to_domain
consume_read-open scope clock rows i fresh timely = ground arith

find_token-token :
    (token : Text) (rows : Rows) {i : Invitation} → find_token token rows ≡ some i → i.token ≡ token
unfolding find_token
find_token-token token [] a = cc
find_token-token token (x ∷ rows) {i} a =
    ground (arith, find_token-token token rows {i = i}, text_eq_iff token x.token)

find_id-set_row :
    (id : Text) (j : Invitation) (rows : Rows) {i : Invitation}
    → find_id id rows ≡ some i
    → j.id ≡ id
    → find_id id (set_row id j rows) ≡ some j
unfolding find_id set_row
find_id-set_row id j [] a same = cc
find_id-set_row id j (x ∷ rows) {i} a same =
    ground (arith, find_id-set_row id j rows {i = i}, text_eq_iff id x.id, text_eq_iff id j.id)

find_token-set_row :
    (token : Text) (j : Invitation) (rows : Rows) {i : Invitation}
    → find_token token rows ≡ some i
    → find_id i.id rows ≡ some i
    → j.token ≡ i.token
    → find_token token (set_row i.id j rows) ≡ some j
unfolding find_token find_id set_row
find_token-set_row token j [] a b same = cc
find_token-set_row token j (x ∷ rows) {i} a b same = ground (
  arith,
  find_token-set_row token j rows {i = i},
  find_token-token token (x ∷ rows) {i = i} a,
  text_eq_iff token x.token,
  text_eq_iff token j.token,
  text_eq_iff i.id x.id,
)

consume_read-used :
    (scope : Option Text) (clock : ℕ → ℕ) (rows : Rows) (i : Invitation)
    → i.status ≡ InvitationStatus.used
    → create_recipient i.recipient ≡ ok i.recipient
    → create_token i.token ≡ ok i.token
    → find_token i.token rows ≡ some i
    → seen scope (some i) ≡ some i
    → consume_read scope clock i.token rows ≡ (err invitation_already_used, rows)
unfolding consume_read get_by_token Invitation.use_up Invitation.restore to_domain
consume_read-used scope clock rows i a b c d e = ground arith

-- An open invitation, under a token and a key of its own, that the client may see and that is consumed
-- in time, and then once more at any time: the first call returns and the second throws that the
-- invitation is used.
pub consume-once :
    (scope : Option Text) (first second : ℕ → ℕ) (rows : Rows) (i : Invitation)
    → IsOpen scope i rows
    → IsInTime first i
    → ((consume scope first i.token rows).0 ≡ ok i.id)
      × ((consume scope second i.token (consume scope first i.token rows).1).0
          ≡ err invitation_already_used)
unfolding consume update
consume-once scope first second rows i fresh timely =
    let j = consumed first i in
    let read = consume_read-open scope first rows i fresh timely in
    let again =
      consume_read-used scope second (set_row i.id j rows) j refl fresh.recipient_kept
        fresh.token_kept (find_token-set_row i.token j rows fresh.under_token fresh.under_id refl)
        (seen-same scope i j fresh.visible refl) in
    (ground (arith), ground (arith))

-- Two requests that read the row of an open invitation, under a token and a key of its own that the
-- client may see, in time and before either of them updates it: both go on to write it as used, and
-- the time of the second update is what remains.
pub consume-interleaved :
    (scope : Option Text) (first second : ℕ → ℕ) (rows : Rows) (i : Invitation)
    → IsOpen scope i rows
    → IsInTime first i
    → IsInTime second i
    → (consume_read scope first i.token rows ≡ (ok (consumed first i), rows))
      × (consume_read scope second i.token rows ≡ (ok (consumed second i), rows))
      × (find_token i.token
            (update scope (consumed second i) (update scope (consumed first i) rows).1).1
          ≡ some (consumed second i))
unfolding update
consume-interleaved scope first second rows i fresh one two =
    let j = consumed first i in
    let once = find_token-set_row i.token j rows fresh.under_token fresh.under_id refl in
    let kept = find_id-set_row i.id j rows fresh.under_id refl in
    let seen_once = seen-same scope i j fresh.visible refl in
    (
      consume_read-open scope first rows i fresh one,
      consume_read-open scope second rows i fresh two,
      rw (update-seen scope i j rows fresh.under_id fresh.visible) (
          rw (update-seen scope j (consumed second i) (set_row i.id j rows) kept seen_once)
            (find_token-set_row i.token (consumed second i) (set_row i.id j rows) once kept refl)),
    )
