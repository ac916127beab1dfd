-- ===== src/Authentication/Resets/Once.antt =====
-- A password reset that returned: its token, and the sessions of its account.
use neltrik_backend.Prelude.{
  ℕ, Bool, true, is_some, Option, some, List, All, All-zip, ◌≡◌, ◌≢◌, refl, sym, ap, ◌∙◌, arith,
  inl, inr, Option-cases,
}
use mathlib.Core.Path.{subst}
use neltrik_backend.Prelude.Text.{Text, text_eq, text_eq_iff}
use neltrik_backend.Prelude.Result.{Result, ok, err}
use neltrik_backend.Prelude.Exec.{lift, ◌>>=◌}
use neltrik_backend.Prelude.Leads.{Leads, Leads-bind, Leads-lift, Leads-after, Leads-lift_with}
use neltrik_backend.Prelude.Rows.{
  find_first, replace_first, All-replace_first, IsUnique, find_first-All, replace_first-All,
}
use neltrik_backend.Authentication.Domain.Values.{Error, create_password_hash}
use neltrik_backend.Authentication.Domain.Account
use neltrik_backend.Authentication.Domain.Account.{AuthenticationAccount}
use neltrik_backend.Authentication.Domain.Tokens.{PasswordReset, use_reset}
use neltrik_backend.Authentication.World.{Env, World, M, new_date, transaction}
use neltrik_backend.Authentication.Repository.{
  invalidate_sessions, update_reset, update_account, find_reset, find_account,
}
use neltrik_backend.Authentication.UseCases.Recovery.{
  hash_password, write_reset, reset_in_transaction, reset_password,
}
use neltrik_backend.Authentication.Resets.{
  Used, Closed, Went, has_token_hash, use_reset-ok, find_reset-found, reset_password-Went,
  reset_password-Used, Leads-transaction, Leads-reset_in_transaction,
}

err-ok : {A : Type 0} {r : Result Error A} {x : Error} {a : A} → r ≡ err x → r ≡ ok a → ⊥
err-ok e h = cc

found_once :
    {A : Type 0} {q : Result Error (Option A) × World} {w : World} {a b : A}
    → q ≡ (ok (some a), w)
    → q ≡ (ok (some b), w)
    → a ≡ b
found_once e h = cc

module _ (env : Env) where
  abbrev has_reset_id : Text → PasswordReset → Bool
  has_reset_id id q = text_eq q.id id

  -- The row of the reset that was used has been written, and no other row has its hash.
  replace_first-Used :
      (hash : Text) (r u x : PasswordReset) (rows : List PasswordReset)
      → IsUnique (has_token_hash env hash) rows
      → IsUnique (has_reset_id u.id) rows
      → find_first (has_token_hash env hash) rows ≡ some r
      → find_first (has_reset_id u.id) rows ≡ some x
      → u.id ≡ r.id
      → is_some u.used_at ≡ true
      → All (Used env hash) (replace_first (has_reset_id u.id) u rows)
  replace_first-Used hash r u x rows one_hash one_key found there same used =
      let Of = has_reset_id u.id in
      let named =
        find_first-All (λ z. z.id ≡ u.id) (has_token_hash env hash) (has_token_hash env hash) rows
          (λ z h. h) one_hash found (sym same) in
      let kept =
        All-replace_first (λ z. has_token_hash env hash z ≡ true → z.id ≡ u.id) Of u rows
          (λ _. refl) named in
      let marked =
        replace_first-All (λ z. is_some z.used_at ≡ true) Of Of u rows (λ z h. h) one_key there
          used in
      All-zip _ _ (Used env hash) (replace_first Of u rows)
        (λ z a b same_hash.
          b ((text_eq_iff z.id u.id).1 (a ((text_eq_iff z.token_hash hash).1 same_hash))))
        kept marked

  -- The rows of the resets as they were when the transaction began.
  abbrev Begun : List PasswordReset → World → Type 0
  Begun rows w = w.pending.resets ≡ rows

  abbrev AllUsed : Text → World → Type 0
  AllUsed hash w = All (Used env hash) w.pending.resets

  Leads-update_reset :
      (hash : Text) (r u : PasswordReset) (rows : List PasswordReset)
      → IsUnique (has_token_hash env hash) rows
      → ((id : Text) → IsUnique (has_reset_id id) rows)
      → find_first (has_token_hash env hash) rows ≡ some r
      → u.id ≡ r.id
      → is_some u.used_at ≡ true
      → Leads (Begun rows) (AllUsed hash) (update_reset env u)
  unfolding update_reset
  Leads-update_reset hash r u rows one_hash keys found same used = record {
    run = λ w begun a e. elim (Option-cases (find_first (has_reset_id u.id) w.pending.resets)) [
      | inl none_there ↦ absurd (clash (rw none_there at e))
      | inr (x, there) ↦ rw there (
          rw begun (
            replace_first-Used hash r u x rows one_hash (keys u.id) found (rw begun at there) same
              used))
    ];
  }
    where
      clash : {A : Type 0} {x : Error} {a : A} → ◌≡◌ {A = Result Error A} (err x) (ok a) → ⊥
      clash e = cc

  module _ (P : List PasswordReset → Type 0) where
    Leads-new_date : Leads (λ w. P w.pending.resets) (λ w. P w.pending.resets) (new_date env)
    Leads-new_date = record { run = λ w h a e. h }

    Leads-hash_password :
        (p : Text) → Leads (λ w. P w.pending.resets) (λ w. P w.pending.resets) (hash_password env p)
    Leads-hash_password p = record { run = λ w h a e. subst P (ground (arith)) h }

    Leads-update_account :
        (a : AuthenticationAccount)
        → Leads (λ w. P w.pending.resets) (λ w. P w.pending.resets) (update_account env a)
    unfolding update_account
    Leads-update_account a = record { run = λ w h b e. subst P (ground (arith)) h }

    Leads-invalidate :
        (a : Text)
        → Leads (λ w. P w.pending.resets) (λ w. P w.pending.resets) (invalidate_sessions env a)
    unfolding invalidate_sessions
    Leads-invalidate a = record { run = λ w h b e. h }

  module _ (token : Text) (r : PasswordReset) (rows : List PasswordReset)
      (one_hash : IsUnique (has_token_hash env (env.sha256 token)) rows)
      (keys : (id : Text) → IsUnique (has_reset_id id) rows)
      (found : find_first (has_token_hash env (env.sha256 token)) rows ≡ some r) where
    -- The reset as `use_reset` gives it.
    record Marked (u : PasswordReset) : Type 0 where
      same : u.id ≡ r.id
      used : is_some u.used_at ≡ true

    use-bind :
        {A : Type 0} {P R : World → Type 0} (now at : ℕ) (f : PasswordReset → M A)
        → ((u : PasswordReset) → Marked u → Leads P R (f u))
        → Leads P R (lift (use_reset env.sha256 now at token r) >>= f)
    use-bind now at f lf = Leads-lift_with _ f λ u done.
        let (unused, token_ok, same, hash, used) = use_reset-ok env now at token r u done in
        lf u (record { same = same; used = used })

    Leads-write-Used :
        (password : Text) (a : AuthenticationAccount) (u : PasswordReset)
        → Marked u
        → Leads (Begun rows) (AllUsed (env.sha256 token)) (write_reset env password a u)
    unfolding write_reset
    Leads-write-Used password a u m =
        let Marks = All (Used env (env.sha256 token)) in
        Leads-bind _ _
          (Leads-update_reset (env.sha256 token) r u rows one_hash keys found m.same m.used)
          λ x. Leads-after _ _ (Leads-hash_password Marks password) λ hashed.
            Leads-after _ _ (Leads-lift (create_password_hash hashed)) λ hash.
              Leads-after _ _ (Leads-new_date Marks) λ updated.
                Leads-after _ _ (Leads-update_account Marks (Account.update updated (some hash) a))
                  λ y. Leads-invalidate Marks a.id

    Leads-reset-Used :
        (password : Text) (a : AuthenticationAccount)
        → Leads
            (Begun rows)
            (AllUsed (env.sha256 token))
            (reset_in_transaction env token password r a)
    unfolding reset_in_transaction
    Leads-reset-Used password a = Leads-after _ _ (Leads-new_date (λ rs. rs ≡ rows)) λ now.
        Leads-after _ _ (Leads-new_date (λ rs. rs ≡ rows))
          λ at. use-bind now at (write_reset env password a) (Leads-write-Used password a)

  -- A reset that returns, for a token whose hash one row has, with the keys of the rows distinct: the
  -- same token resets no password right after, whatever the new password is.
  pub reset_password-once :
      (token password again : Text) (w : World)
      → IsUnique (has_token_hash env (env.sha256 token)) w.committed.resets
      → ((id : Text) → IsUnique (has_reset_id id) w.committed.resets)
      → (reset_password env token password w).0 ≡ ok tt
      → (reset_password env token again (reset_password env token password w).1).0 ≢ ok tt
  reset_password-once token password again w one_hash keys done =
      elim (reset_password-Went env token password w) [
        | Went.stops y path ↦
            absurd (err-ok (ap {A = Result Error Unit × World} (λ q. q.0) path) done)
        | Went.runs r a found owner path ↦
            let row = find_reset-found env (env.sha256 token) w r found in
            let rows = w.committed.resets in
            let leads =
              Leads-transaction env (λ d. d.resets ≡ rows)
                (λ d. All (Used env (env.sha256 token)) d.resets) _
                (Leads-reset-Used token r rows one_hash keys row password a) in
            let used =
              leads.run w refl tt
                (ap {A = Result Error Unit × World} (λ q. q.0) (sym path) ∙ done) in
            reset_password-Used env token again _
              (subst (λ q. All (Used env (env.sha256 token)) q.1.committed.resets) (sym path) used)
      ]

  -- A reset that returns, by the reset `r` of the account `a`: every session of the account is revoked.
  pub reset_password-closes :
      (token password : Text) (w : World) (r : PasswordReset) (a : AuthenticationAccount)
      → find_reset env (env.sha256 token) w ≡ (ok (some r), w)
      → find_account env r.authentication_account_id w ≡ (ok (some a), w)
      → (reset_password env token password w).0 ≡ ok tt
      → Closed env a.id (reset_password env token password w).1.committed.sessions
  reset_password-closes token password w r a found owner done =
      elim (reset_password-Went env token password w) [
        | Went.stops y path ↦
            absurd (err-ok (ap {A = Result Error Unit × World} (λ q. q.0) path) done)
        | Went.runs r' a' found' owner' path ↦
            let leads =
              Leads-transaction env (λ d. Unit) (λ d. Closed env a'.id d.sessions) _
                (Leads-reset_in_transaction env token password r' a') in
            let closed =
              leads.run w tt tt (ap {A = Result Error Unit × World} (λ q. q.0) (sym path) ∙ done) in
            let same_reset = found_once found' found in
            let read =
              ap {A = PasswordReset} (λ q. find_account env q.authentication_account_id w)
                same_reset in
            let same =
              ap {A = AuthenticationAccount} (λ x. x.id) (found_once owner' (read ∙ owner)) in
            subst (λ q. Closed env a.id q.1.committed.sessions) (sym path)
              (subst
                (λ id.
                  Closed env id
                    (transaction env (reset_in_transaction env token password r' a')
                      w).1.committed.sessions)
                same closed)
      ]
