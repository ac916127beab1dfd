-- ===== src/Authentication/Sessions/Revocation.antt =====
-- A session that was revoked, by its owner or by a logout.
use neltrik_backend.Prelude.{
  ℕ, ◌+◌, true, Option, none, some, [], ◌∷◌, All, All-map, ◌≡◌, ◌≢◌, refl, sym, ap, ◌∙◌, arith, inl,
  inr, Option-cases,
}
use mathlib.Core.Path.{subst}
use neltrik_backend.Prelude.Text.{Text, text_eq, text_eq_iff, text_eq_refl}
use neltrik_backend.Prelude.Result.{Result, ok}
use neltrik_backend.Prelude.Rows.{
  find_first, replace_first, find_first-accepts, All-find_first, IsUnique, replace_first-All,
}
use neltrik_backend.Authentication.Domain.Values.{Error}
use neltrik_backend.Authentication.Domain.Session
use neltrik_backend.Authentication.Domain.Session.{AuthenticationSession, renew-Renewed, is_revoked}
use neltrik_backend.Authentication.World.{Env, World, no_rows}
use neltrik_backend.Authentication.Repository.{
  find_session, find_session_by_hash, has_session_id, session_row, session_hash, session_to_domain,
  update_session, revoke_at,
}
use neltrik_backend.Authentication.UseCases.Sessions.{
  resolve, revoke_and_update, revoke_session, logout,
}
use neltrik_backend.Authentication.Sessions.{Rule}
use neltrik_backend.Authentication.Sessions.Steps.{Steps, Steps-Holds}
use neltrik_backend.Authentication.Sessions.Lifetime.{IsOld, at_rest}

-- The rows with the key `id` are revoked.
abbrev pub Revoked : Text → AuthenticationSession → Type 0
Revoked id s = s.id ≡ id → is_revoked s ≡ true

module _ (env : Env) where
  Revoked-Rule : (k : ℕ) (id : Text) → IsOld env k id → Rule env k (Revoked id)
  Revoked-Rule k id old = record {
    renewed = λ s s' now later used updated at n fresh done h same.
        let renewed =
          renew-Renewed now later used updated (env.sha256 (env.random n)) s.expires_at at s done in
        absurd (live_revoked s renewed.was_live (h (sym renewed.id ∙ same)));
    revoked = λ at later s h same. refl;
    opened = λ s n m fresh fresh' same hash is_id. absurd (old n fresh (sym same ∙ is_id));
  }
    where
      live_revoked : (s : AuthenticationSession) → s.revoked_at ≡ none → is_revoked s ≡ true → ⊥
      live_revoked s live revoked = ground arith

  resolve-Revoked :
      (id : Text) (w : World)
      → All (Revoked id) w.committed.sessions
      → (resolve env id w).0 ≢ ok true
  unfolding resolve find_session session_to_domain Session.restore
  resolve-Revoked id w rows valid =
      elim (Option-cases (find_first (session_row env id) w.committed.sessions)) [
        | inl none_there ↦ ground arith
        | inr (s, found) ↦
            let accepted = find_first-accepts (session_row env id) w.committed.sessions found in
            let revoked =
              All-find_first (Revoked id) (session_row env id) w.committed.sessions rows found in
            ground (arith, text_eq_iff s.id id)
      ]

  -- After a revocation, any requests leave the session refused.
  Steps-Revoked :
      (id : Text) (w v : World)
      → IsOld env w.calls id
      → All (Revoked id) w.committed.sessions
      → w.pending ≡ no_rows
      → Steps env w v
      → (resolve env id v).0 ≢ ok true
  Steps-Revoked id w v old rows pending steps =
      let held =
        Steps-Holds env w.calls (Revoked id) (Revoked-Rule w.calls id old) w v steps (record {
          ahead = omega arith;
          committed = rows;
          pending = at_rest env w (Revoked id) pending;
        }) in
      resolve-Revoked id v held.committed

  -- What a revocation that returns has written.
  revoke_and_update-ok :
      (s : AuthenticationSession) (w : World)
      → (revoke_and_update env s w).0 ≡ ok tt
      → (x : AuthenticationSession) × (find_first (session_row env s.id) w.committed.sessions
          ≡ some x)
        × ((revoke_and_update env s w).1 ≡ record w {
          calls = w.calls + 1 + 1;
          committed = record w.committed {
            sessions =
                replace_first
                  (session_row env s.id)
                  (revoke_at env (env.clock w.calls) (env.clock (w.calls + 1)) s)
                  w.committed.sessions;
          };
        })
  unfolding revoke_and_update update_session Session.revoke
  revoke_and_update-ok s w e =
      elim (Option-cases (find_first (session_row env s.id) w.committed.sessions)) [
        | inl none_there ↦ absurd (ground arith)
        | inr (x, found) ↦ (x, found, ground arith)
      ]

  has_key :
      (id : Text) (s : AuthenticationSession)
      → session_row env id s ≡ true
      → has_session_id env id s ≡ true
  has_key id s h = ground arith

  -- A session that was revoked and updated, under a key of its own.
  update-final :
      (s : AuthenticationSession) (w v : World)
      → IsOld env w.calls s.id
      → w.pending ≡ no_rows
      → IsUnique (has_session_id env s.id) w.committed.sessions
      → (revoke_and_update env s w).0 ≡ ok tt
      → Steps env (revoke_and_update env s w).1 v
      → (resolve env s.id v).0 ≢ ok true
  update-final s w v old rest unique done steps =
      let (x, found, world) = revoke_and_update-ok s w done in
      let revoked = revoke_at env (env.clock w.calls) (env.clock (w.calls + 1)) s in
      let rows =
        replace_first-All (λ t. is_revoked t ≡ true) (session_row env s.id)
          (has_session_id env s.id) revoked w.committed.sessions (has_key s.id) unique found refl in
      Steps-Revoked s.id _ v (λ n after. old n (omega arith))
        (All-map _ (Revoked s.id) _
          (λ t h same. h (ap (λ i. text_eq i s.id) same ∙ text_eq_refl s.id)) rows)
        rest (subst (λ u. Steps env u v) world steps)

  revoke_session-went :
      (id : Text) (w : World)
      → (revoke_session env id w).0 ≡ ok tt
      → (s : AuthenticationSession) × (s.id ≡ id)
        × (revoke_session env id w ≡ revoke_and_update env s w)
  unfolding revoke_session find_session session_to_domain Session.restore
  revoke_session-went id w e =
      elim (Option-cases (find_first (session_row env id) w.committed.sessions)) [
        | inl none_there ↦ absurd (ground arith)
        | inr (s, found) ↦
            let accepted = find_first-accepts (session_row env id) w.committed.sessions found in
            (s, ground (arith, text_eq_iff s.id id), ground arith)
      ]

  logout-went :
      (token : Text) (w : World)
      → (logout env (some token) w).0 ≡ ok tt
      → (s : AuthenticationSession) × (find_session_by_hash env (env.sha256 token) w
          ≡ (ok (some s), w))
        × (logout env (some token) w ≡ revoke_and_update env s w)
  unfolding logout find_session_by_hash session_to_domain Session.restore
  logout-went [] w e = absurd (ground arith)
  logout-went (c ∷ t) w e =
      elim (Option-cases
        (find_first (session_hash env (env.sha256 (c ∷ t))) w.committed.sessions)) [
          | inl none_there ↦ absurd (ground arith)
          | inr (s, found) ↦ (s, ground arith, ground arith)
        ]

  -- A session was revoked by its key, which is its row's alone and which no request to come draws, with
  -- no transaction open. Whatever requests follow one another from there (logins, refreshes with its
  -- refresh token, resets), the session is not answered to be valid.
  pub revoke_session-final :
      (id : Text) (w v : World)
      → IsOld env w.calls id
      → w.pending ≡ no_rows
      → IsUnique (has_session_id env id) w.committed.sessions
      → (revoke_session env id w).0 ≡ ok tt
      → Steps env (revoke_session env id w).1 v
      → (resolve env id v).0 ≢ ok true
  revoke_session-final id w v old rest unique done steps =
      let (s, key, went) = revoke_session-went id w done in
      let same = sym key in
      let final =
        update-final s w v (subst (IsOld env w.calls) same old) rest
          (subst (λ i. IsUnique (has_session_id env i) w.committed.sessions) same unique)
          (ap {A = Result Error Unit × World} (λ q. q.0) (sym went) ∙ done)
          (subst (λ q. Steps env q.1 v) went steps) in
      subst (λ i. (resolve env i v).0 ≢ ok true) key final

  -- A logout returned for the session `s` that the refresh token belongs to, under a key of its own
  -- that no request to come draws, and with no transaction open. Whatever requests follow one another
  -- from there, the session is not answered to be valid.
  pub logout-final :
      (token : Text) (s : AuthenticationSession) (w v : World)
      → find_session_by_hash env (env.sha256 token) w ≡ (ok (some s), w)
      → IsOld env w.calls s.id
      → w.pending ≡ no_rows
      → IsUnique (has_session_id env s.id) w.committed.sessions
      → (logout env (some token) w).0 ≡ ok tt
      → Steps env (logout env (some token) w).1 v
      → (resolve env s.id v).0 ≢ ok true
  logout-final token s w v found old rest unique done steps =
      let (t, there, went) = logout-went token w done in
      let same = found_once (sym found ∙ there) in
      let path = went ∙ ap (λ x. revoke_and_update env x w) (sym same) in
      update-final s w v old rest unique
        (ap {A = Result Error Unit × World} (λ q. q.0) (sym path) ∙ done)
        (subst (λ q. Steps env q.1 v) path steps)
    where
      found_once :
          {s t : AuthenticationSession}
          → ◌≡◌ {A = Result Error (Option AuthenticationSession) × World}
              (ok (some s), w)
              (ok (some t), w)
          → s ≡ t
      found_once e = cc
