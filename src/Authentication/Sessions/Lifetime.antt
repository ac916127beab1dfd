-- ===== src/Authentication/Sessions/Lifetime.antt =====
-- How long a session lasts: `resolve` is what the guard of every request asks.
use neltrik_backend.Prelude.{
  ℕ, ◌+◌, ◌≤◌, ◌<◌, true, List, All, All-map, ◌≡◌, ◌≢◌, sym, ap, ◌∙◌, arith, inl, inr, Option-cases,
}
use mathlib.Core.Path.{subst}
use neltrik_backend.Prelude.Text.{Text, text_eq_iff}
use neltrik_backend.Prelude.Result.{ok}
use neltrik_backend.Prelude.Rows.{find_first, find_first-accepts, All-find_first}
use neltrik_backend.Authentication.Domain.Session
use neltrik_backend.Authentication.Domain.Session.{AuthenticationSession, renew-Renewed}
use neltrik_backend.Authentication.World.{Env, World, access_token_max_age, no_rows}
use neltrik_backend.Authentication.Repository.{find_session, session_row, session_to_domain}
use neltrik_backend.Authentication.UseCases.Sessions.{resolve}
use neltrik_backend.Authentication.UseCases.Login.{LoginInput, LoginOutput, login}
use neltrik_backend.Authentication.Sessions.{Rule}
use neltrik_backend.Authentication.Sessions.Steps.{Steps, Steps-Holds}
use neltrik_backend.Authentication.Sessions.Opening.{login-Opened, with_session}

-- The rows with the key `id` expire by `e`.
abbrev pub Expires : Text → ℕ → AuthenticationSession → Type 0
Expires id e s = s.id ≡ id → s.expires_at ≤ e

module _ (env : Env) where
  -- The key is not one that is drawn from the k-th draw on.
  abbrev pub IsOld : ℕ → Text → Type 0
  IsOld k id = (n : ℕ) → k ≤ n → env.random n ≢ id

  Expires-Rule : (k : ℕ) (id : Text) (e : ℕ) → IsOld k id → Rule env k (Expires id e)
  Expires-Rule k id e old = record {
    renewed = λ s s' now later used updated at n fresh done h same.
        let renewed =
          renew-Renewed now later used updated (env.sha256 (env.random n)) s.expires_at at s done in
        subst (λ x. x ≤ e) (sym renewed.expires) (h (sym renewed.id ∙ same));
    revoked = λ at later s h same. h same;
    opened = λ s n m fresh fresh' same hash is_id. absurd (old n fresh (sym same ∙ is_id));
  }

  resolve-late :
      (id : Text) (e : ℕ) (w : World)
      → All (Expires id e) w.committed.sessions
      → e ≤ env.clock w.calls
      → (resolve env id w).0 ≢ ok true
  unfolding resolve find_session session_to_domain Session.restore
  resolve-late id e w rows late valid =
      elim (Option-cases (find_first (session_row env id) w.committed.sessions)) [
        | inl none_there ↦ ground arith
        | inr (s, found) ↦
            let accepted = find_first-accepts (session_row env id) w.committed.sessions found in
            let expires =
              All-find_first (Expires id e) (session_row env id) w.committed.sessions rows found in
            ground (arith, text_eq_iff s.id id)
      ]

  -- No transaction is open: no row is pending.
  pub at_rest :
      (w : World) (R : AuthenticationSession → Type 0)
      → w.pending ≡ no_rows
      → All R w.pending.sessions
  at_rest w R rest = subst (λ d. All R d.sessions) (sym rest) tt

  -- A key that no request to come draws, whose rows expire by `e` at the latest,
  -- and no transaction open: after any requests
  -- (logins, refreshes, logouts, revocations, resets, verifications), whether they return or throw,
  -- once the clock has reached `e` the session is not answered to be valid.
  pub expiry-fixed :
      (id : Text) (e : ℕ) (w v : World)
      → IsOld w.calls id
      → All (Expires id e) w.committed.sessions
      → w.pending ≡ no_rows
      → Steps env w v
      → e ≤ env.clock v.calls
      → (resolve env id v).0 ≢ ok true
  expiry-fixed id e w v old rows pending steps late =
      let held =
        Steps-Holds env w.calls (Expires id e) (Expires-Rule w.calls id e old) w v steps (record {
          ahead = omega arith;
          committed = rows;
          pending = at_rest w (Expires id e) pending;
        }) in
      resolve-late id e v held.committed late

  -- The draws do not repeat, the clock does not run back, no row has a key that is still to be drawn, and
  -- no transaction is open.
  pub record IsSound (w : World) : Type 0 where
    pub distinct : (m n : ℕ) → env.random m ≡ env.random n → m ≡ n
    pub forward : (m n : ℕ) → m ≤ n → env.clock m ≤ env.clock n
    pub rows : All (λ s. IsOld w.calls s.id) w.committed.sessions
    pub rest : w.pending ≡ no_rows

  Expires-old :
      (k n e : ℕ)
      → k ≤ n
      → (ss : List AuthenticationSession) → All (λ s. IsOld k s.id) ss
      → All (Expires (env.random n) e) ss
  Expires-old k n e later ss old =
      All-map (λ s. IsOld k s.id) (Expires (env.random n) e) ss
        (λ s h same. absurd (h n later (sym same))) old

  opened-expires :
      (c n e : ℕ) (s : AuthenticationSession) (w v : World)
      → IsSound w
      → s.id ≡ env.random n
      → s.expires_at ≤ e
      → w.calls ≤ n
      → n < c
      → Steps env (with_session env c s w) v
      → e ≤ env.clock v.calls
      → (resolve env s.id v).0 ≢ ok true
  opened-expires c n e s w v sound drawn by after before steps late =
      let rows = Expires-old w.calls n e after w.committed.sessions sound.rows in
      expiry-fixed s.id e (with_session env c s w) v
        (λ m here same. not_before m (sound.distinct m n (same ∙ drawn)) here)
        (λ _. by, subst (λ id. All (Expires id e) w.committed.sessions) (sym drawn) rows) sound.rest
        steps late
    where
      not_before : (m : ℕ) → m ≡ n → c ≤ m → ⊥
      not_before m same here = omega arith

  -- A login that returned, from sound tables, then any requests: once the maximal age of an access
  -- token, a quarter of an hour, has passed since the login, the session is not answered to be valid,
  -- however often it was refreshed and however long its refresh token is still to last.
  pub login-expires :
      (i : LoginInput) (w v : World) (out : LoginOutput)
      → IsSound w
      → (login env i w).0 ≡ ok out
      → Steps env (login env i w).1 v
      → env.clock (login env i w).1.calls + access_token_max_age ≤ env.clock v.calls
      → (resolve env out.session_id v).0 ≢ ok true
  login-expires i w v out sound e steps late =
      let o = login-Opened env i w e in
      let c = w.calls + 1 + 1 + 9 in
      let n = w.calls + 1 + 1 + 3 in
      let limit = env.clock c + access_token_max_age in
      let calls = ap (λ u. u.calls) o.world in
      let earlier = sound.forward (w.calls + 1 + 1 + 4) c (omega arith) in
      let valid =
        opened-expires c n limit o.opened.0 w v sound o.row.id (omega (arith, o.row.expires))
          (omega arith) (omega arith) (subst (λ u. Steps env u v) o.world steps)
          (subst (λ m. env.clock m + access_token_max_age ≤ env.clock v.calls) calls late) in
      subst (λ id. (resolve env id v).0 ≢ ok true) (sym o.id) valid
