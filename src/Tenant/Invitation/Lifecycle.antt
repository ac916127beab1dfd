-- ===== src/Tenant/Invitation/Lifecycle.antt =====
-- The life of an invitation under any sequence of uses, revocations and reads from its row.
use neltrik_backend.Prelude.{
  ℕ, ◌≡◌, ◌≤◌, refl, ◌∙◌, true, ◌||◌, List, [], ◌∷◌, All, arith, inl, ◌⊎◌, ap,
}
use neltrik_backend.Prelude.Result.{Result, ok, err}
use neltrik_backend.Tenant.Values.{Error}
use neltrik_backend.Tenant.Invitation
use neltrik_backend.Tenant.Invitation.{Invitation, InvitationStatus, is_used, is_revoked}

-- A call with the times that it reads.
pub data Call : Type 0 where
  use_up revoke : ℕ → ℕ → ℕ → Call
  reload : ℕ → Call

unfoldable pub call : Call → Invitation → Result Error Invitation
call (Call.use_up now at later) i = Invitation.use_up now at later i
call (Call.revoke now at later) i = Invitation.revoke now at later i
call (Call.reload now) i = Invitation.restore now i

-- A caller that catches what a call throws goes on with the invitation as it was.
abbrev settle : Invitation → Result Error Invitation → Invitation
settle i (ok j) = j
settle i (err _) = i

unfoldable pub run : List Call → Invitation → Invitation
run [] i = i
run (c ∷ cs) i = run cs (settle i (call c i))

abbrev pub IsSettled : Invitation → Type 0
IsSettled i = (is_used i.status || is_revoked i.status) ≡ true

call_settled : (c : Call) (i : Invitation) → IsSettled i → settle i (call c i) ≡ i
unfolding call Invitation.use_up Invitation.revoke Invitation.restore
call_settled (Call.use_up now at later) i h = ground arith
call_settled (Call.revoke now at later) i h = ground arith
call_settled (Call.reload now) i h = ground arith

-- An invitation that is used or revoked stays exactly as it is, whatever is called.
pub run_settled : (cs : List Call) (i : Invitation) → IsSettled i → run cs i ≡ i
unfolding run
run_settled [] i h = refl
run_settled (c ∷ cs) i h = ap (run cs) (call_settled c i h) ∙ run_settled cs i h

-- The first time that a call reads.
abbrev pub time_of : Call → ℕ
time_of (Call.use_up now at later) = now
time_of (Call.revoke now at later) = now
time_of (Call.reload now) = now

-- What can happen to an invitation past its expiration: it is marked as expired.
abbrev pub IsSameOrExpired : Invitation → Invitation → Type 0
IsSameOrExpired i j = (j ≡ i) ⊎ (j ≡ record i { status = InvitationStatus.expired })

call_late :
    (n : ℕ) (c : Call) (i : Invitation)
    → i.expiration_date ≤ n
    → n ≤ time_of c
    → IsSameOrExpired i (settle i (call c i))
unfolding call Invitation.use_up Invitation.revoke Invitation.restore
call_late n (Call.use_up now at later) i h k = ground arith
call_late n (Call.revoke now at later) i h k = ground arith
call_late n (Call.reload now) i h k = ground arith

late_again : (i j k : Invitation) → IsSameOrExpired i j → IsSameOrExpired j k → IsSameOrExpired i k
late_again i j k a b = ground arith

late_date : (i j : Invitation) → IsSameOrExpired i j → j.expiration_date ≡ i.expiration_date
late_date i j a = ground arith

-- From its expiration date on, an invitation can be neither used nor revoked: any sequence of calls
-- from then on leaves it as it was, or marked as expired.
pub run_late :
    (n : ℕ) (cs : List Call) (i : Invitation)
    → i.expiration_date ≤ n
    → All (λ c. n ≤ time_of c) cs
    → IsSameOrExpired i (run cs i)
unfolding run
run_late n [] i h k = inl refl
run_late n (c ∷ cs) i h k =
    let j = settle i (call c i) in
    let step = call_late n c i h k.0 in
    late_again i j (run cs j) step (run_late n cs j (ground (arith, late_date i j step)) k.1)
