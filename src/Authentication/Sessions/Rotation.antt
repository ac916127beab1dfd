-- ===== src/Authentication/Sessions/Rotation.antt =====
-- The refresh token that was used for a refresh.
use neltrik_backend.Prelude.{
  ℕ, ◌≤◌, Bool, true, none, some, List, [], ◌∷◌, All, All-zip, ◌≡◌, ◌≢◌, refl, sym, ap, ◌∙◌, arith,
  inl, inr, Option-cases,
}
use mathlib.Core.Path.{subst}
use neltrik_backend.Prelude.Text.{Text, text_eq, text_eq_iff}
use neltrik_backend.Prelude.Result.{Result, ok, err}
use neltrik_backend.Prelude.Exec.{◌>>=◌, pure}
use neltrik_backend.Prelude.Yields.{bind-Returned}
use neltrik_backend.Prelude.Rows.{
  find_first, replace_first, find_first-accepts, All-find_first, All-replace_first, IsUnique,
  replace_first-All, find_first-All,
}
use neltrik_backend.Authentication.Domain.Values.{Error, invalid_refresh_token, record_not_found}
use neltrik_backend.Authentication.Domain.Session.{AuthenticationSession, renew-Renewed}
use neltrik_backend.Authentication.World.{Env, Db, World, no_rows}
use neltrik_backend.Authentication.Repository.{
  find_session_by_hash, has_session_id, session_row, session_hash, update_session,
}
use neltrik_backend.Authentication.UseCases.Sessions.{
  RefreshTokenOutput, refresh_read, refresh_write, refresh_token,
}
use neltrik_backend.Authentication.Sessions.{Rule}
use neltrik_backend.Authentication.Sessions.Steps.{Steps, Steps-Holds}
use neltrik_backend.Authentication.Sessions.Lifetime.{at_rest}
use neltrik_backend.Authentication.Sessions.Refreshing.{refresh_read-Read}

module _ (env : Env) where
  abbrev pub has_hash : Text → AuthenticationSession → Bool
  has_hash hash s = text_eq s.refresh_token_hash hash

  -- No draw from the k-th on has the hash of the token.
  abbrev pub IsFresh : ℕ → Text → Type 0
  IsFresh k token = (n : ℕ) → k ≤ n → env.sha256 (env.random n) ≢ env.sha256 token

  abbrev Unlike : Text → AuthenticationSession → Type 0
  Unlike hash s = s.refresh_token_hash ≢ hash

  Unlike-Rule : (k : ℕ) (token : Text) → IsFresh k token → Rule env k (Unlike (env.sha256 token))
  Unlike-Rule k token fresh = record {
    renewed = λ s s' now later used updated at n after done h same.
        let renewed =
          renew-Renewed now later used updated (env.sha256 (env.random n)) s.expires_at at s done in
        fresh n after (sym renewed.token ∙ same);
    revoked = λ at later s h. h;
    opened = λ s n m after after' same hash is. fresh m after' (sym hash ∙ is);
  }

  -- A token that no row has is refused.
  refresh_token-unknown :
      (token : Text) (w : World)
      → All (Unlike (env.sha256 token)) w.committed.sessions
      → (refresh_token env (some token) w).0 ≡ err invalid_refresh_token
  unfolding refresh_token refresh_read find_session_by_hash
  refresh_token-unknown [] w rows = refl
  refresh_token-unknown (c ∷ t) w rows =
      elim (Option-cases
        (find_first (session_hash env (env.sha256 (c ∷ t))) w.committed.sessions)) [
          | inl none_there ↦ ground arith
          | inr (s, found) ↦
              let accepted =
                find_first-accepts (session_hash env (env.sha256 (c ∷ t))) w.committed.sessions
                  found in
              let unlike =
                All-find_first (Unlike (env.sha256 (c ∷ t))) (session_hash env (env.sha256 (c ∷ t)))
                  w.committed.sessions rows found in
              absurd
                (unlike (ground (arith, text_eq_iff s.refresh_token_hash (env.sha256 (c ∷ t)))))
        ]

  -- The world with the row of a session written.
  abbrev pub written : AuthenticationSession → World → World
  written s w = record w {
    committed = record w.committed {
      sessions = replace_first (session_row env s.id) s w.committed.sessions;
    };
  }

  update_session-found :
      (s : AuthenticationSession) (w : World) {x : AuthenticationSession}
      → find_first (session_row env s.id) w.committed.sessions ≡ some x
      → update_session env s w ≡ (ok tt, written s w)
  unfolding update_session
  update_session-found s w found = rw found refl

  abbrev answer :
      RefreshTokenOutput → Result Error (Unit {0}) × World → Result Error RefreshTokenOutput × World
  answer out q = ((λ _. q) >>= λ _. pure out) q.1

  pub refresh_write-found :
      (p : AuthenticationSession × RefreshTokenOutput) (w : World) {x : AuthenticationSession}
      → find_first (session_row env p.0.id) w.committed.sessions ≡ some x
      → refresh_write env p w ≡ (ok p.1, written p.0 w)
  refresh_write-found p w found = ap (answer p.1) (update_session-found p.0 w found)

  update_session-missing :
      (s : AuthenticationSession) (w : World)
      → find_first (session_row env s.id) w.committed.sessions ≡ none
      → update_session env s w ≡ (err record_not_found, w)
  unfolding update_session
  update_session-missing s w none_there = rw none_there refl

  refresh_write-ok :
      (p : AuthenticationSession × RefreshTokenOutput) (w : World) {out : RefreshTokenOutput}
      → (refresh_write env p w).0 ≡ ok out
      → (x : AuthenticationSession) × (find_first (session_row env p.0.id) w.committed.sessions
          ≡ some x)
  refresh_write-ok p w e =
      elim (Option-cases (find_first (session_row env p.0.id) w.committed.sessions)) [
        | inl none_there ↦
            absurd
              (clash (ap (λ q. q.0) (ap (answer p.1) (update_session-missing p.0 w none_there))) e)
        | inr (x, found) ↦ (x, found)
      ]
    where
      clash : {A : Type 0} {r : Result Error A} {x : Error} {a : A} → r ≡ err x → r ≡ ok a → ⊥
      clash a b = cc

  row_has_key :
      (id : Text) (s : AuthenticationSession)
      → session_row env id s ≡ true
      → has_session_id env id s ≡ true
  row_has_key id s h = ground arith

  row_has_hash :
      (hash : Text) (s : AuthenticationSession)
      → session_hash env hash s ≡ true
      → has_hash hash s ≡ true
  row_has_hash hash s h = ground arith

  -- No row has the used token's hash after the update.
  replaced-Unlike :
      (hash : Text) (s renewed x : AuthenticationSession) (rows : List AuthenticationSession)
      → IsUnique (has_hash hash) rows
      → IsUnique (has_session_id env renewed.id) rows
      → find_first (session_hash env hash) rows ≡ some s
      → find_first (session_row env renewed.id) rows ≡ some x
      → renewed.id ≡ s.id
      → Unlike hash renewed
      → All (Unlike hash) (replace_first (session_row env renewed.id) renewed rows)
  replaced-Unlike hash s renewed x rows one_hash one_key found there same unlike =
      let Of = session_row env renewed.id in
      let named =
        find_first-All (λ z. z.id ≡ renewed.id) (session_hash env hash) (has_hash hash) rows
          (row_has_hash hash) one_hash found (sym same) in
      let kept =
        All-replace_first (λ z. has_hash hash z ≡ true → z.id ≡ renewed.id) Of renewed rows
          (λ _. refl) named in
      let fresh =
        replace_first-All (Unlike hash) Of (has_session_id env renewed.id) renewed rows
          (row_has_key renewed.id) one_key there unlike in
      All-zip _ _ (Unlike hash) (replace_first Of renewed rows)
        (λ z a b same_hash.
          b
            ((text_eq_iff z.id renewed.id).1
              (a ((text_eq_iff z.refresh_token_hash hash).1 same_hash)))
            same_hash)
        kept fresh

  -- A refresh returned for a token that one row has; the keys of the rows are distinct, no transaction
  -- is open, and no token that is still to be drawn has the hash of this one. Whatever requests follow
  -- one another from there, the token is refused as invalid.
  pub refresh_token-rotates :
      (token : Text) (w v : World) (out : RefreshTokenOutput)
      → IsFresh w.calls token
      → IsUnique (has_hash (env.sha256 token)) w.committed.sessions
      → ((id : Text) → IsUnique (has_session_id env id) w.committed.sessions)
      → w.pending ≡ no_rows
      → (refresh_token env (some token) w).0 ≡ ok out
      → Steps env (refresh_token env (some token) w).1 v
      → (refresh_token env (some token) v).0 ≡ err invalid_refresh_token
  unfolding refresh_token
  refresh_token-rotates token w v out fresh one_hash keys rest done steps =
      let wrote = bind-Returned (refresh_read env (some token)) (refresh_write env) w done in
      let p = wrote.value in
      let u = (refresh_read env (some token) w).1 in
      let read = refresh_read-Read env token w wrote.first in
      let (x, there) = refresh_write-ok p u wrote.rest in
      let ended =
        ap {A = Result Error RefreshTokenOutput × World} (λ q. q.1)
          (wrote.world ∙ refresh_write-found p u there) in
      let kept = ap {A = World} (λ a. a.committed) read.world in
      let rows =
        replaced-Unlike (env.sha256 token) read.session p.0 x u.committed.sessions
          (subst (λ d. IsUnique (has_hash (env.sha256 token)) d.sessions) (sym kept) one_hash)
          (subst (λ d. IsUnique (has_session_id env p.0.id) d.sessions) (sym kept) (keys p.0.id))
          (ap {A = Db} (λ d. find_first (session_hash env (env.sha256 token)) d.sessions) kept
            ∙ read.found)
          there read.rotated.id
          (λ same. fresh read.draw read.fresh (sym read.rotated.token ∙ same)) in
      let idle = ap {A = World} (λ a. a.pending) read.world ∙ rest in
      let held =
        Steps-Holds env w.calls _ (Unlike-Rule w.calls token fresh) (written p.0 u) v
          (subst (λ a. Steps env a v) ended steps)
          (record {
            ahead = subst (λ a. w.calls ≤ a.calls) (sym read.world) (omega arith);
            committed = rows;
            pending = at_rest env (written p.0 u) (Unlike (env.sha256 token)) idle;
          }) in
      refresh_token-unknown token v held.committed
