-- ===== src/Authentication/Sessions.antt =====
-- Predicates on the rows of the sessions that the methods of the module keep: the rule that such a
-- predicate obeys, and that each call of World.antt and Repository.antt keeps it on all rows.
pub mod Rows
pub mod Operations
pub mod Calls
pub mod Steps
pub mod Opening
pub mod Lifetime
pub mod Revocation
pub mod Refreshing
pub mod Rotation
pub mod Race
use neltrik_backend.Prelude.{
  ℕ, suc, ◌+◌, ◌≤◌, Bool, true, false, Option, none, some, List, [], ◌∷◌, All, ◌≡◌, refl, sym,
  if◌then◌else◌, arith, inl, inr, Bool-cases, Option-cases,
}
use mathlib.Core.Path.{subst}
use neltrik_backend.Prelude.Text.{Text}
use neltrik_backend.Prelude.Result.{Result, ok, err}
use neltrik_backend.Prelude.Rows.{find_first, All-find_first, All-replace_first, All-update_where}
use neltrik_backend.Prelude.Yields.{Yields, Yields-any, Trivial}
use neltrik_backend.Authentication.Domain.Values.{Error}
use neltrik_backend.Authentication.Domain.Session
use neltrik_backend.Authentication.Domain.Session.{AuthenticationSession}
use neltrik_backend.Authentication.World.{
  Env, World, M, new_date, draw, service, query, get_user_by_id, get_role_by_id, get_tenant_by_id,
  generate_access_token, generate_csrf_token, send, commit, transaction, Notification,
  AccessTokenPayload,
}
use neltrik_backend.Authentication.Repository.{
  find_session, find_session_by_hash, session_row, session_hash, session_to_domain, create_session,
  update_session, revoke_at, revoke_where,
}

module _ (env : Env) (k : ℕ) (R : AuthenticationSession → Type 0) where
  -- A predicate on rows that a renewal with a fresh token, a revocation and a new session keep: the
  -- draws from the k-th on are fresh.
  pub record Rule : Type 0 where
    pub renewed :
        (s s' : AuthenticationSession) (now later used updated at n : ℕ)
        → k ≤ n
        → Session.renew now later used updated (env.sha256 (env.random n)) s.expires_at at s ≡ ok s'
        → R s
        → R s'
    pub revoked : (at later : ℕ) (s : AuthenticationSession) → R s → R (revoke_at env at later s)
    pub opened :
        (s : AuthenticationSession) (n m : ℕ)
        → k ≤ n
        → k ≤ m
        → s.id ≡ env.random n
        → s.refresh_token_hash ≡ env.sha256 (env.random m)
        → R s

  -- The rows satisfy the predicate, and the draws before the k-th have been made.
  pub record Holds (w : World) : Type 0 where
    pub ahead : k ≤ w.calls
    pub committed : All R w.committed.sessions
    pub pending : All R w.pending.sessions

  -- A method that keeps the predicate and gives a value that satisfies `Q`.
  abbrev pub Safe : {A : Type 0} → (A → Type 0) → M A → Type 0
  Safe Q m = Yields Holds Q m

  abbrev pub Drawn : Text → Type 0
  Drawn t = (n : ℕ) × (k ≤ n) × (t ≡ env.random n)

  later : (w : World) → Holds w → Holds (record w { calls = w.calls + 1 })
  later w h = record {
    ahead = omega (arith, h.ahead);
    committed = h.committed;
    pending = h.pending;
  }

  pub Safe-new_date : Safe Trivial (new_date env)
  Safe-new_date = record { keeps = later; gives = λ w h a e. tt }

  pub Safe-draw : Safe Drawn (draw env)
  Safe-draw = record { keeps = later; gives = λ w h a e. (w.calls, h.ahead, cc) }

  pub Safe-any_draw : Safe Trivial (draw env)
  Safe-any_draw = Yields-any _ Safe-draw

  pub Safe-service :
      {A : Type 0} (a : A) (f : World → World)
      → ((w : World) → Holds w → Holds (f w))
      → Safe Trivial (service env a f)
  Safe-service a f kf = record {
    keeps = λ w h. elim (Bool-cases (env.fault w.calls)) [
      | inl fails ↦ rw fails (later w h)
      | inr fine ↦ rw fine (later (f w) (kf w h))
    ];
    gives = λ w h a e. tt;
  }

  pub Safe-query : {A : Type 0} (o : Option A) (e : Error) → Safe Trivial (query env o e)
  Safe-query none e = record { keeps = later; gives = λ w h a x. tt }
  Safe-query (some a) e = Safe-service a (λ v. v) (λ w h. h)

  -- The value of a call at the world that it reads.
  at_world :
      {A : Type 0} {Q : A → Type 0} (m : World → M A)
      → ((w : World) → Safe Q (m w))
      → Safe Q (λ w. m w w)
  at_world m safe = record {
    keeps = λ w h. (safe w).keeps w h;
    gives = λ w h a e. (safe w).gives w h a e;
  }

  pub Safe-get_user_by_id : (id : Text) → Safe Trivial (get_user_by_id env id)
  unfolding get_user_by_id
  Safe-get_user_by_id id = at_world _ (λ w. Safe-query (env.user_by_id w.calls id) _)

  pub Safe-get_role_by_id : (id : Text) → Safe Trivial (get_role_by_id env id)
  unfolding get_role_by_id
  Safe-get_role_by_id id = at_world _ (λ w. Safe-query (env.role_code_by_id w.calls id) _)

  pub Safe-get_tenant_by_id : (id : Text) → Safe Trivial (get_tenant_by_id env id)
  unfolding get_tenant_by_id
  Safe-get_tenant_by_id id = at_world _ (λ w. Safe-query (env.tenant_name_by_id w.calls id) _)

  pub Safe-generate_access_token :
      (p : AccessTokenPayload) → Safe Trivial (generate_access_token env p)
  unfolding generate_access_token
  Safe-generate_access_token p =
      at_world _ (λ w. Safe-service (env.sign w.calls p) (λ v. v) (λ w h. h))

  pub Safe-generate_csrf_token : (id : Text) → Safe Trivial (generate_csrf_token env id)
  Safe-generate_csrf_token id = record { keeps = later; gives = λ w h a e. tt }

  pub Safe-send : (n : Notification) → Safe Trivial (send env n)
  unfolding send
  Safe-send n =
      Safe-service tt _
        (λ w h. record { ahead = h.ahead; committed = h.committed; pending = h.pending })

  commit_after : {A : Type 0} (r : Result Error A) → Safe Trivial (commit env r)
  commit_after (ok a) =
      Safe-service a _
        (λ w h. record { ahead = h.ahead; committed = h.pending; pending = h.pending })
  commit_after (err e) = record { keeps = λ w h. h; gives = λ w h a x. tt }

  pub Safe-transaction : {A : Type 0} (m : M A) → Safe Trivial m → Safe Trivial (transaction env m)
  unfolding transaction
  Safe-transaction m safe = record {
    keeps = λ w h.
        let v = record w { pending = w.committed } in
        let ended = (commit_after (m v).0).keeps (m v).1 (
          safe.keeps v
            (record { ahead = h.ahead; committed = h.committed; pending = h.committed })) in
        record { ahead = ended.ahead; committed = ended.committed; pending = tt };
    gives = λ w h a e. tt;
  }

pub ruleset safe_calls = (
  Safe-new_date, Safe-any_draw, Safe-get_user_by_id, Safe-get_role_by_id, Safe-get_tenant_by_id,
  Safe-generate_access_token, Safe-generate_csrf_token, Safe-send, Safe-service,
)
