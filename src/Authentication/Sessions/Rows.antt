-- ===== src/Authentication/Sessions/Rows.antt =====
-- The calls of Repository.antt keep a predicate on the rows of the sessions.
use neltrik_backend.Prelude.{
  ℕ, ◌≤◌, Bool, not, ◌&&◌, is_some, Option, none, some, All, ◌≡◌, refl, sym, arith, inl, inr,
  Bool-cases,
}
use mathlib.Core.Path.{subst}
use neltrik_backend.Prelude.Text.{Text}
use neltrik_backend.Prelude.Result.{ok}
use neltrik_backend.Prelude.Rows.{find_first, All-find_first, All-replace_first, All-update_where}
use neltrik_backend.Prelude.Yields.{Yields-bind, Trivial}
use neltrik_backend.Prelude.Exec.{◌>>=◌}
use neltrik_backend.Authentication.Domain.Session
use neltrik_backend.Authentication.Domain.Session.{AuthenticationSession}
use neltrik_backend.Authentication.Domain.Account.{AuthenticationAccount}
use neltrik_backend.Authentication.Domain.Tokens.{EmailVerification, PasswordReset}
use neltrik_backend.Authentication.World.{Env, World, M, new_date}
use neltrik_backend.Authentication.Repository.{
  read_row, session_to_domain, session_row, find_session, find_session_by_hash, create_session,
  update_session, is_live_of, has_session_id, revoke_where, invalidate_sessions, revoke_all_except,
  find_account, find_account_by_user_id, find_account_by_email, update_account, find_verification,
  insert_verification, update_verification, invalidate_verifications, find_reset, insert_reset,
  update_reset, invalidate_resets, expire_verifications, expire_resets,
}
use neltrik_backend.Authentication.Sessions.{Rule, Holds, Safe, Safe-new_date}

read_row-session :
    (o : Option AuthenticationSession) {s : AuthenticationSession}
    → read_row session_to_domain o ≡ ok (some s)
    → o ≡ some s
unfolding session_to_domain Session.restore
read_row-session none e = cc
read_row-session (some r) e = ground arith

module _ (env : Env) (k : ℕ) (R : AuthenticationSession → Type 0) where
  -- What a query has found satisfies the predicate.
  abbrev pub Seen : Option AuthenticationSession → Type 0
  Seen o = (s : AuthenticationSession) → o ≡ some s → R s

  seen :
      (p : AuthenticationSession → Bool) (w : World) (o : Option AuthenticationSession)
      → Holds env k R w
      → read_row session_to_domain (find_first p w.committed.sessions) ≡ ok o
      → Seen o
  seen p w o h e s found =
      All-find_first R p w.committed.sessions h.committed
        (read_row-session (find_first p w.committed.sessions) (cc))

  pub Safe-find_session : (id : Text) → Safe env k R Seen (find_session env id)
  unfolding find_session
  Safe-find_session id = record { keeps = λ w h. h; gives = λ w h o e. seen _ w o h e }

  pub Safe-find_session_by_hash : (hash : Text) → Safe env k R Seen (find_session_by_hash env hash)
  unfolding find_session_by_hash
  Safe-find_session_by_hash hash = record { keeps = λ w h. h; gives = λ w h o e. seen _ w o h e }

  pub Safe-create_session :
      (s : AuthenticationSession) → R s → Safe env k R Trivial (create_session env s)
  Safe-create_session s q = record {
    keeps = λ w h. record { ahead = h.ahead; committed = (q, h.committed); pending = h.pending };
    gives = λ w h a e. tt;
  }

  pub Safe-update_session :
      (s : AuthenticationSession) → R s → Safe env k R Trivial (update_session env s)
  unfolding update_session
  Safe-update_session s q = record {
    keeps = λ w h.
        elim (Bool-cases (is_some (find_first (session_row env s.id) w.committed.sessions))) [
          | inl there ↦ rw there (record {
            ahead = h.ahead;
            committed = All-replace_first R _ s w.committed.sessions q h.committed;
            pending = h.pending;
          })
          | inr missing ↦ rw missing h
        ];
    gives = λ w h a e. tt;
  }

  pub Safe-revoke_where :
      Rule env k R
      → (p : AuthenticationSession → Bool) (at later : ℕ)
      → Safe env k R Trivial (revoke_where env p at later)
  Safe-revoke_where rule p at later = record {
    keeps = λ w h. record {
      ahead = h.ahead;
      committed = h.committed;
      pending = All-update_where R p _ w.pending.sessions (rule.revoked at later) h.pending;
    };
    gives = λ w h a e. tt;
  }

  -- A call that leaves the sessions alone.
  Safe-elsewhere :
      {A : Type 0} (m : M A)
      → ((w : World) → Holds env k R w → Holds env k R (m w).1)
      → Safe env k R Trivial m
  Safe-elsewhere m km = record { keeps = km; gives = λ w h a e. tt }

  pub Safe-find_account : (id : Text) → Safe env k R Trivial (find_account env id)
  unfolding find_account
  Safe-find_account id = Safe-elsewhere _ (λ w h. h)

  pub Safe-find_account_by_user_id :
      (id : Text) → Safe env k R Trivial (find_account_by_user_id env id)
  unfolding find_account_by_user_id
  Safe-find_account_by_user_id id = Safe-elsewhere _ (λ w h. h)

  pub Safe-find_account_by_email : (e : Text) → Safe env k R Trivial (find_account_by_email env e)
  unfolding find_account_by_email
  Safe-find_account_by_email e = Safe-elsewhere _ (λ w h. h)

  pub Safe-find_verification : (t : Text) → Safe env k R Trivial (find_verification env t)
  unfolding find_verification
  Safe-find_verification t = Safe-elsewhere _ (λ w h. h)

  pub Safe-find_reset : (t : Text) → Safe env k R Trivial (find_reset env t)
  unfolding find_reset
  Safe-find_reset t = Safe-elsewhere _ (λ w h. h)

  same :
      (w v : World)
      → v.calls ≡ w.calls
      → v.committed.sessions ≡ w.committed.sessions
      → v.pending.sessions ≡ w.pending.sessions
      → Holds env k R w
      → Holds env k R v
  same w v a b c h = record {
    ahead = subst (λ n. k ≤ n) (sym a) h.ahead;
    committed = subst (λ ss. All R ss) (sym b) h.committed;
    pending = subst (λ ss. All R ss) (sym c) h.pending;
  }

  pub Safe-update_account :
      (a : AuthenticationAccount) → Safe env k R Trivial (update_account env a)
  unfolding update_account
  Safe-update_account a =
      Safe-elsewhere _ (λ w h. same w _ (ground (arith)) (ground (arith)) (ground (arith)) h)

  pub Safe-update_verification :
      (v : EmailVerification) → Safe env k R Trivial (update_verification env v)
  unfolding update_verification
  Safe-update_verification v =
      Safe-elsewhere _ (λ w h. same w _ (ground (arith)) (ground (arith)) (ground (arith)) h)

  pub Safe-update_reset : (r : PasswordReset) → Safe env k R Trivial (update_reset env r)
  unfolding update_reset
  Safe-update_reset r =
      Safe-elsewhere _ (λ w h. same w _ (ground (arith)) (ground (arith)) (ground (arith)) h)

  pub Safe-insert_verification :
      (v : EmailVerification) → Safe env k R Trivial (insert_verification env v)
  Safe-insert_verification v = Safe-elsewhere _ (λ w h. same w _ refl refl refl h)

  pub Safe-insert_reset : (r : PasswordReset) → Safe env k R Trivial (insert_reset env r)
  Safe-insert_reset r = Safe-elsewhere _ (λ w h. same w _ refl refl refl h)

  twice :
      (f : ℕ → ℕ → M (Unit {0}))
      → ((at later : ℕ) → Safe env k R Trivial (f at later))
      → Safe env k R Trivial (new_date env >>= λ at. new_date env >>= λ later. f at later)
  twice f safe =
      Yields-bind _ _ (Safe-new_date env k R)
        (λ at _. Yields-bind _ _ (Safe-new_date env k R) (λ later _. safe at later))

  pub Safe-invalidate_verifications :
      (account : Text) → Safe env k R Trivial (invalidate_verifications env account)
  unfolding invalidate_verifications
  Safe-invalidate_verifications account =
      twice (expire_verifications env account)
        (λ at later. Safe-elsewhere _ (λ w h. same w _ refl refl refl h))

  pub Safe-invalidate_resets :
      (account : Text) → Safe env k R Trivial (invalidate_resets env account)
  unfolding invalidate_resets
  Safe-invalidate_resets account =
      twice (expire_resets env account)
        (λ at later. Safe-elsewhere _ (λ w h. same w _ refl refl refl h))

  pub Safe-invalidate_sessions :
      Rule env k R → (account : Text) → Safe env k R Trivial (invalidate_sessions env account)
  unfolding invalidate_sessions
  Safe-invalidate_sessions rule account =
      twice _ (λ at later. Safe-revoke_where rule (is_live_of env account) at later)

  pub Safe-revoke_all_except :
      Rule env k R
      → (account current : Text) → Safe env k R Trivial (revoke_all_except env account current)
  unfolding revoke_all_except
  Safe-revoke_all_except rule account current = twice _ (λ at later.
      Safe-revoke_where rule (λ s. is_live_of env account s && not (has_session_id env current s))
        at later)

pub ruleset safe_rows = (
  Safe-update_account, Safe-update_verification, Safe-update_reset, Safe-insert_verification,
  Safe-insert_reset, Safe-invalidate_verifications, Safe-invalidate_resets, Safe-find_account,
  Safe-find_account_by_user_id, Safe-find_account_by_email, Safe-find_verification, Safe-find_reset,
  Safe-find_session, Safe-find_session_by_hash, Safe-invalidate_sessions, Safe-revoke_all_except,
)
