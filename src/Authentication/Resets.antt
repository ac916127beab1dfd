-- ===== src/Authentication/Resets.antt =====
-- What a password reset does to the tables.
pub mod Once
use neltrik_backend.Prelude.{
  ℕ, ◌+◌, Bool, true, false, not, ◌&&◌, is_some, Option, none, some, List, [], ◌∷◌, All,
  if◌then◌else◌, ◌≡◌, ◌≢◌, refl, sym, ap, ◌∙◌, arith, ◌⊎◌, inl, inr, Bool-cases, Option-cases,
}
use mathlib.Core.Path.{subst}
use neltrik_backend.Prelude.Text.{Text, text_eq, text_eq_iff}
use neltrik_backend.Prelude.Result.{Result, ok, err, Result-cases}
use neltrik_backend.Prelude.Exec.{◌>>=◌, or_throw}
use neltrik_backend.Prelude.Yields.{Returned, bind-Returned, Yields, Trivial, yields_rules}
use neltrik_backend.Prelude.Leads.{
  Leads, Leads-bind, Leads-lift, Leads-last, Leads-after, Leads-lift_with,
}
use neltrik_backend.Prelude.Rows.{
  find_first, replace_first, update_where, find_first-accepts, All-find_first, All-replace_first,
  IsUnique, find_first-All, replace_first-All,
}
use neltrik_backend.Authentication.Domain.Values.{
  Error, verify_token, create_token_hash, password_reset_not_found, account_not_found,
}
use neltrik_backend.Authentication.Domain.Session.{AuthenticationSession, is_revoked}
use neltrik_backend.Authentication.Domain.Account
use neltrik_backend.Authentication.Domain.Account.{AuthenticationAccount}
use neltrik_backend.Authentication.Domain.Tokens.{PasswordReset, use_reset, restore_reset}
use neltrik_backend.Authentication.World.{Env, Db, World, M, new_date, commit, transaction, service}
use neltrik_backend.Authentication.Repository.{
  is_live_of, revoke_at, invalidate_sessions, update_reset, update_account, find_reset,
  find_account, reset_to_domain,
}
use neltrik_backend.Authentication.UseCases.Recovery.{
  hash_password, write_reset, reset_in_transaction, reset_password,
}

module _ (env : Env) where
  -- No session of the account is live: each of them is revoked.
  abbrev pub Closed : Text → List AuthenticationSession → Type 0
  Closed account ss = All (λ s. is_live_of env account s ≡ false) ss

  update_where-Closed :
      (account : Text) (at later : ℕ) (ss : List AuthenticationSession)
      → Closed account (update_where (is_live_of env account) (revoke_at env at later) ss)
  unfolding update_where
  update_where-Closed account at later [] = tt
  update_where-Closed account at later (s ∷ ss) = (closed, update_where-Closed account at later ss)
    where
      revoked : (b : Bool) → (b && false) ≡ false
      revoked true = refl
      revoked false = refl

      closed :
          is_live_of env account (if is_live_of env account s then revoke_at env at later s else s)
          ≡ false
      closed = elim (Bool-cases (is_live_of env account s)) [
        | inl live ↦ rw live (revoked (text_eq s.authentication_account_id account))
        | inr dead ↦ rw dead dead
      ]

  Leads-invalidate_sessions :
      (account : Text)
      → Leads
          (λ _. Unit {0})
          (λ w. Closed account w.pending.sessions)
          (invalidate_sessions env account)
  unfolding invalidate_sessions
  Leads-invalidate_sessions account = record {
    run = λ w h a e. update_where-Closed account _ _ w.pending.sessions;
  }

  Leads-write_reset :
      (password : Text) (a : AuthenticationAccount) (u : PasswordReset)
      → Leads (λ _. Unit {0}) (λ w. Closed a.id w.pending.sessions) (write_reset env password a u)
  unfolding write_reset
  Leads-write_reset password a u = search (Leads-last, Leads-invalidate_sessions) depth 20

  pub Leads-reset_in_transaction :
      (token password : Text) (r : PasswordReset) (a : AuthenticationAccount)
      → Leads
          (λ _. Unit {0})
          (λ w. Closed a.id w.pending.sessions)
          (reset_in_transaction env token password r a)
  unfolding reset_in_transaction
  Leads-reset_in_transaction token password r a = search (Leads-last, Leads-write_reset) depth 20

  commit-ok :
      {A : Type 0} (r : Result Error A) (w : World) {a : A}
      → (commit env r w).0 ≡ ok a
      → (r ≡ ok a) × ((commit env r w).1.committed ≡ w.pending)
  commit-ok (ok b) w e = elim (Bool-cases (env.fault w.calls)) [
    | inl fails ↦ absurd (clash (rw fails at e))
    | inr fine ↦ (rw fine at e, rw fine refl)
  ]
    where
      clash : {A : Type 0} {x : Error} {a : A} → ◌≡◌ {A = Result Error A} (err x) (ok a) → ⊥
      clash e = cc
  commit-ok (err x) w e = cc

  commit-err :
      {A : Type 0} (r : Result Error A) (w : World) {x : Error}
      → (commit env r w).0 ≡ err x
      → (commit env r w).1.committed ≡ w.committed
  commit-err (ok b) w e = elim (Bool-cases (env.fault w.calls)) [
    | inl fails ↦ rw fails refl
    | inr fine ↦ absurd (clash (rw fine at e))
  ]
    where
      clash : {A : Type 0} {x : Error} {a : A} → ◌≡◌ {A = Result Error A} (ok a) (err x) → ⊥
      clash e = cc
  commit-err (err y) w e = refl

  -- A transaction that returns has committed what its body made pending.
  pub Leads-transaction :
      {A : Type 0} (P Q : Db → Type 0) (m : M A)
      → Leads (λ w. P w.pending) (λ w. Q w.pending) m
      → Leads (λ w. P w.committed) (λ w. Q w.committed) (transaction env m)
  unfolding transaction
  Leads-transaction P Q m lm = record {
    run = λ w h a e.
        let v = record w { pending = w.committed } in
        let (done, written) = commit-ok (m v).0 (m v).1 e in
        subst Q (sym written) (lm.run v h a done);
  }

  -- A transaction that throws leaves the committed tables as they were, if its body writes to the
  -- pending tables only.
  transaction-err :
      {A : Type 0} (m : M A) (w : World) {x : Error}
      → ((v : World) → (m v).1.committed ≡ v.committed)
      → (transaction env m w).0 ≡ err x
      → (transaction env m w).1.committed ≡ w.committed
  unfolding transaction
  transaction-err m w pending_only e =
      let v = record w { pending = w.committed } in commit-err (m v).0 (m v).1 e ∙ pending_only v

  -- The committed tables are those given.
  abbrev Same : Db → World → Type 0
  Same d w = w.committed ≡ d

  module _ (d : Db) where
    Same-new_date : Yields (Same d) Trivial (new_date env)
    Same-new_date = record { keeps = λ w h. h; gives = λ w h a e. tt }

    Same-hash_password : (p : Text) → Yields (Same d) Trivial (hash_password env p)
    Same-hash_password p = record { keeps = λ w h. ground arith; gives = λ w h a e. tt }

    Same-update_reset : (r : PasswordReset) → Yields (Same d) Trivial (update_reset env r)
    unfolding update_reset
    Same-update_reset r = record { keeps = λ w h. ground arith; gives = λ w h a e. tt }

    Same-update_account :
        (a : AuthenticationAccount) → Yields (Same d) Trivial (update_account env a)
    unfolding update_account
    Same-update_account a = record { keeps = λ w h. ground arith; gives = λ w h a e. tt }

    Same-invalidate_sessions : (a : Text) → Yields (Same d) Trivial (invalidate_sessions env a)
    unfolding invalidate_sessions
    Same-invalidate_sessions a = record { keeps = λ w h. h; gives = λ w h a e. tt }

    Same-write_reset :
        (password : Text) (a : AuthenticationAccount) (u : PasswordReset)
        → Yields (Same d) Trivial (write_reset env password a u)
    unfolding write_reset
    Same-write_reset password a u =
        search
          (
            yields_rules, Same-new_date, Same-hash_password, Same-update_reset, Same-update_account,
            Same-invalidate_sessions,
          )
          depth 20

    Same-reset_in_transaction :
        (token password : Text) (r : PasswordReset) (a : AuthenticationAccount)
        → Yields (Same d) Trivial (reset_in_transaction env token password r a)
    unfolding reset_in_transaction
    Same-reset_in_transaction token password r a =
        search (yields_rules, Same-new_date, Same-write_reset) depth 20

  -- How far a reset comes: it stops before its transaction, or it is the transaction.
  pub data Went (token password : Text) (w : World) : Type 0 where
    stops : (x : Error) → reset_password env token password w ≡ (err x, w) → Went token password w
    runs :
        (r : PasswordReset) (a : AuthenticationAccount)
        → find_reset env (env.sha256 token) w ≡ (ok (some r), w)
        → find_account env r.authentication_account_id w ≡ (ok (some a), w)
        → reset_password env token password w
          ≡ transaction env (reset_in_transaction env token password r a) w
        → Went token password w

  found_by :
      {A : Type 0} (q : Result Error (Option A) × World) (w : World)
      → q.1 ≡ w
      → ((x : Error) × (q ≡ (err x, w))) ⊎ (q ≡ (ok none, w)) ⊎ ((a : A) × (q ≡ (ok (some a), w)))
  found_by (ok none, v) w e = inr (inl (ap {A = World} (λ u. (ok none, u)) e))
  found_by (ok (some a), v) w e = inr (inr (a, ap {A = World} (λ u. (ok (some a), u)) e))
  found_by (err x, v) w e = inl (x, ap {A = World} (λ u. (err x, u)) e)

  find_reset-same : (hash : Text) (w : World) → (find_reset env hash w).1 ≡ w
  unfolding find_reset
  find_reset-same hash w = refl

  find_account-world : (id : Text) (w : World) → (find_account env id w).1 ≡ w
  unfolding find_account
  find_account-world id w = refl

  pub reset_password-Went : (token password : Text) (w : World) → Went token password w
  unfolding reset_password
  reset_password-Went token password w =
      elim (found_by (find_reset env (env.sha256 token) w) w
        (find_reset-same (env.sha256 token) w)) [
          | inl (x, e) ↦ Went.stops x (ground arith)
          | inr (inl e) ↦ Went.stops password_reset_not_found (ground arith)
          | inr (inr (r, e)) ↦
              elim (found_by (find_account env r.authentication_account_id w) w
                (find_account-world r.authentication_account_id w)) [
                  | inl (x, o) ↦ Went.stops x (ground arith)
                  | inr (inl o) ↦ Went.stops account_not_found (ground arith)
                  | inr (inr (a, o)) ↦ Went.runs r a e o (ground arith)
                ]
        ]

  -- A reset that throws, at any point, leaves the committed tables as they were.
  pub reset_password-atomic :
      (token password : Text) (w : World) (x : Error)
      → (reset_password env token password w).0 ≡ err x
      → (reset_password env token password w).1.committed ≡ w.committed
  reset_password-atomic token password w x e = elim (reset_password-Went token password w) [
    | Went.stops y path ↦ ap {A = Result Error Unit × World} (λ q. q.1.committed) path
    | Went.runs r a found owner path ↦
        ap {A = Result Error Unit × World} (λ q. q.1.committed) path
        ∙ transaction-err (reset_in_transaction env token password r a) w
            (λ v. (Same-reset_in_transaction v.committed token password r a).keeps v refl)
            (ap {A = Result Error Unit × World} (λ q. q.0) (sym path) ∙ e)
  ]

  -- The rows with the hash are used.
  abbrev pub Used : Text → PasswordReset → Type 0
  Used hash q = q.token_hash ≡ hash → is_some q.used_at ≡ true

  pub use_reset-ok :
      (now at : ℕ) (token : Text) (r u : PasswordReset)
      → use_reset env.sha256 now at token r ≡ ok u
      → (r.used_at ≡ none)
        × (r.token_hash ≡ env.sha256 token)
        × (u.id ≡ r.id)
        × (u.token_hash ≡ r.token_hash)
        × (is_some u.used_at ≡ true)
  unfolding use_reset verify_token
  use_reset-ok now at token r u e = (
    ground arith,
    ground (arith, text_eq_iff r.token_hash (env.sha256 token)),
    ground arith,
    ground arith,
    ground arith,
  )

  -- A token that was used resets no password.
  reset_in_transaction-used :
      (token password : Text) (r : PasswordReset) (a : AuthenticationAccount) (w : World)
      → is_some r.used_at ≡ true
      → (reset_in_transaction env token password r a w).0 ≢ ok tt
  unfolding reset_in_transaction use_reset
  reset_in_transaction-used token password r a w used e = ground arith

  abbrev pub has_token_hash : Text → PasswordReset → Bool
  has_token_hash hash q = text_eq q.token_hash hash

  pub find_reset-found :
      (hash : Text) (w : World) (r : PasswordReset)
      → find_reset env hash w ≡ (ok (some r), w)
      → find_first (has_token_hash hash) w.committed.resets ≡ some r
  unfolding find_reset reset_to_domain create_token_hash restore_reset
  find_reset-found hash w r e =
      elim (Option-cases (find_first (has_token_hash hash) w.committed.resets)) [
        | inl none_there ↦ absurd (ground arith)
        | inr (q, found) ↦ ground arith
      ]

  pub reset_password-Used :
      (token password : Text) (w : World)
      → All (Used (env.sha256 token)) w.committed.resets
      → (reset_password env token password w).0 ≢ ok tt
  unfolding transaction
  reset_password-Used token password w rows done = elim (reset_password-Went token password w) [
    | Went.stops y path ↦ clash (ap {A = Result Error Unit × World} (λ q. q.0) path) done
    | Went.runs r a found owner path ↦
        let row = find_reset-found (env.sha256 token) w r found in
        let named =
          (text_eq_iff r.token_hash (env.sha256 token)).0
            (find_first-accepts (has_token_hash (env.sha256 token)) w.committed.resets row) in
        let used =
          All-find_first (Used (env.sha256 token)) (has_token_hash (env.sha256 token))
            w.committed.resets rows row named in
        let ran = ap {A = Result Error Unit × World} (λ q. q.0) (sym path) ∙ done in
        let v = record w { pending = w.committed } in
        let body = reset_in_transaction env token password r a v in
        reset_in_transaction-used token password r a v used (commit-ok body.0 body.1 ran).0
  ]
    where
      clash : {A : Type 0} {r : Result Error A} {x : Error} {a : A} → r ≡ err x → r ≡ ok a → ⊥
      clash a b = cc
